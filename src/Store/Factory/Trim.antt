-- ===== src/Store/Factory/Trim.antt =====
-- What `ToLower` and `TrimSpace` do in `Make` of pkg/store/factory/factory.go.
use mathlib.Core.List.{map-append}
use mathlib.Core.Path.{ap₂}
use crypt_controller.Base.{
  ℕ, true, ◌≡◌, refl, nat_eq, ap, ◌∙◌, [], ◌∷◌, ◌++◌, map, All, arith, inl, inr, Bool-cases,
}
use crypt_controller.Store.Factory.{
  Runes, to_lower, is_space, trim_left, trim_right, keep, trim_space,
}

abbrev pub IsSpaces : Runes → Type 0
IsSpaces = All (λ c. is_space c ≡ true)

to_lower-space : (c : ℕ) → is_space c ≡ true → to_lower c ≡ c
unfolding is_space to_lower
to_lower-space c h = ground arith

map-to_lower-spaces : (p : Runes) → IsSpaces p → map to_lower p ≡ p
map-to_lower-spaces [] h = refl
map-to_lower-spaces (c ∷ p) h = rw (to_lower-space c h.0, map-to_lower-spaces p h.1)

trim_left-append : (p s : Runes) → IsSpaces p → trim_left (p ++ s) ≡ trim_left s
unfolding trim_left
trim_left-append [] s h = refl
trim_left-append (c ∷ p) s h = rw (h.0) (trim_left-append p s h.1)

trim_right_spaces : (q : Runes) → IsSpaces q → trim_right q ≡ []
unfolding trim_right keep
trim_right_spaces [] h = refl
trim_right_spaces (c ∷ q) h = ground (arith, trim_right_spaces q h.1)

trim_right-append : (s q : Runes) → IsSpaces q → trim_right (s ++ q) ≡ trim_right s
unfolding trim_right
trim_right-append [] q h = trim_right_spaces q h
trim_right-append (c ∷ s) q h = ap (keep c) (trim_right-append s q h)

trim_left_spaces : (q : Runes) → IsSpaces q → trim_left q ≡ []
unfolding trim_left
trim_left_spaces [] h = refl
trim_left_spaces (c ∷ q) h = rw (h.0) (trim_left_spaces q h.1)

trim_space-append_right : (s q : Runes) → IsSpaces q → trim_space (s ++ q) ≡ trim_space s
unfolding trim_space
trim_space-append_right [] q h = ap trim_right (trim_left_spaces q h)
trim_space-append_right (c ∷ s) q h = elim (Bool-cases (is_space c)) [
  | inl space ↦ rw space (trim_space-append_right s q h)
  | inr other ↦ rw other (trim_right-append (c ∷ s) q h)
]

pub trim_space-append :
    (p s q : Runes) → IsSpaces p → IsSpaces q → trim_space (p ++ (s ++ q)) ≡ trim_space s
unfolding trim_space
trim_space-append p s q hp hq =
    ap trim_right (trim_left-append p (s ++ q) hp) ∙ trim_space-append_right s q hq

-- What is cut off are spaces.
trim_left_cut : (s : Runes) → (p : Runes) × IsSpaces p × (s ≡ p ++ trim_left s)
unfolding trim_left
trim_left_cut [] = ([], tt, refl)
trim_left_cut (c ∷ s) = elim (Bool-cases (is_space c)) [
  | inr other ↦ rw (trim_left, other) ([], tt, refl)
  | inl space ↦
      let (p, spaces, e) = trim_left_cut s in
      rw (trim_left, space) (c ∷ p, (space, spaces), ap (λ (x : Runes). c ∷ x) e)
]

keep_cut :
    (c : ℕ) (kept q : Runes)
    → IsSpaces q
    → (r : Runes) × IsSpaces r × (c ∷ (kept ++ q) ≡ keep c kept ++ r)
unfolding keep
keep_cut c (d ∷ kept) q h = (q, h, refl)
keep_cut c [] q h = elim (Bool-cases (is_space c)) [
  | inl space ↦ rw (keep, space) (c ∷ q, (space, h), refl)
  | inr other ↦ rw (keep, other) (q, h, refl)
]

trim_right_cut : (s : Runes) → (q : Runes) × IsSpaces q × (s ≡ trim_right s ++ q)
unfolding trim_right
trim_right_cut [] = ([], tt, refl)
trim_right_cut (c ∷ s) =
    let (q, spaces, e) = trim_right_cut s in
    let (r, spaces', e') = keep_cut c (trim_right s) q spaces in
    (r, spaces', ap (λ (x : Runes). c ∷ x) e ∙ e')

-- A spelling with spaces around it.
abbrev pub padded : Runes → Runes → Runes → Runes
padded p s q = p ++ (s ++ q)

pub normal-padded :
    (p s q : Runes)
    → IsSpaces p
    → IsSpaces q
    → trim_space (map to_lower (padded p s q)) ≡ trim_space (map to_lower s)
normal-padded p s q hp hq =
    ap trim_space (
      map-append to_lower p (s ++ q)
      ∙ ap₂ (λ (a b : Runes). a ++ b) (map-to_lower-spaces p hp)
          (map-append to_lower s q
            ∙ ap (λ (b : Runes). map to_lower s ++ b) (map-to_lower-spaces q hq)))
    ∙ trim_space-append p (map to_lower s) q hp hq

-- What is cut off at both ends are spaces.
pub trim_space_cut :
    (s : Runes)
    → (p : Runes) × (q : Runes) × IsSpaces p × IsSpaces q × (s ≡ padded p (trim_space s) q)
unfolding trim_space
trim_space_cut s =
    let (p, spaces, cut) = trim_left_cut s in
    let (q, spaces', cut') = trim_right_cut (trim_left s) in
    (p, q, spaces, spaces', cut ∙ ap (λ (x : Runes). p ++ x) cut')
