-- ===== src/Store/Factory/Laws.antt =====
-- Which store a name selects (`Make` of pkg/store/factory/factory.go).
use crypt_controller.Base.{
  true, false, ◌≡◌, ◌≢◌, refl, sym, ==_refl, nat_eq, ◌⊎◌, some, ap, ◌∙◌, [], ◌∷◌, map, arith, inl,
  inr, Bool-cases,
}
use crypt_controller.Base.Outcome.{Result, err, invalid_store_type}
use crypt_controller.Kube.{Bytes}
use crypt_controller.Store.{Object}
use crypt_controller.Store.Consul as Consul
use crypt_controller.Store.Vault as Vault
use crypt_controller.Store.Factory.{
  Factory, Runes, to_lower, is_space, trim_left, trim_right, keep, trim_space, choose, make,
  consul_store_type, vault_store_type, same,
}
use crypt_controller.Store.Factory.Trim.{
  IsSpaces, padded, normal-padded, trim_space-append, trim_space_cut,
}

same_eq : (s t : Runes) → same s t ≡ true → s ≡ t
unfolding same
same_eq [] [] h = refl
same_eq [] (d ∷ t) h = cc
same_eq (c ∷ s) [] h = cc
same_eq (c ∷ s) (d ∷ t) h = ground (arith, same_eq s t)

-- The lower case of the name is a text with spaces around it.
abbrev pub IsSpelling : Runes → Runes → Type 0
IsSpelling t s =
    (p : Runes) × (q : Runes) × IsSpaces p × IsSpaces q × (map to_lower s ≡ padded p t q)

trim_space-IsSpelling : (s t : Runes) → trim_space (map to_lower s) ≡ t → IsSpelling t s
trim_space-IsSpelling s t e =
    let (p, q, spaces, spaces', cut) = trim_space_cut (map to_lower s) in
    (p, q, spaces, spaces', cut ∙ ap (λ (x : Runes). padded p x q) e)

-- A name that is trimmed to another text is no spelling of one without spaces around it.
IsSpelling-trim_space :
    (s t : Runes) → trim_space t ≡ t → IsSpelling t s → trim_space (map to_lower s) ≡ t
IsSpelling-trim_space s t e (p, q, spaces, spaces', cut) =
    ap trim_space cut ∙ trim_space-append p t q spaces spaces' ∙ e

same_refl : (s : Runes) → same s s ≡ true
unfolding same
same_refl [] = refl
same_refl (c ∷ s) = ground (arith, same_refl s, ==_refl c)

not_same : (s t : Runes) → same s t ≡ false → s ≢ t
not_same s t h e = absurd (ground (arith, h, sym (ap (λ (x : Runes). same s x) e) ∙ same_refl s))

module _ (consul : Consul.Api) (unmarshal : Bytes → Result Object) (vault : Vault.Api) where
  -- Every name is one of three: some spelling of "consul", spaces around it allowed, for which `Make`
  -- makes the Consul store over its default configuration; some spelling of "vault", for which it makes
  -- the Vault store over its own; or neither, and it is refused. The configuration path that the factory
  -- was made with plays no part.
  pub make-IsSpelling :
      (f : Factory) (s : Runes)
      → (IsSpelling consul_store_type s
          × (make consul unmarshal vault f s
              ≡ Consul.new consul unmarshal (some consul.default_config)))
        ⊎ (IsSpelling vault_store_type s
            × (make consul unmarshal vault f s ≡ Vault.new vault (some vault.default_config)))
        ⊎ ((¬ IsSpelling consul_store_type s)
            × (¬ IsSpelling vault_store_type s)
            × (make consul unmarshal vault f s ≡ err invalid_store_type))
  unfolding make trim_space trim_left trim_right keep is_space
  make-IsSpelling f s = elim (Bool-cases (same (trim_space (map to_lower s)) consul_store_type)) [
    | inl e ↦ inl (trim_space-IsSpelling s consul_store_type (same_eq _ _ e), rw e)
    | inr e ↦ elim (Bool-cases (same (trim_space (map to_lower s)) vault_store_type)) [
      | inl e' ↦ inr (inl (trim_space-IsSpelling s vault_store_type (same_eq _ _ e'), rw (e, e')))
      | inr e' ↦ inr (
          inr (
            λ h. not_same _ _ e (IsSpelling-trim_space s consul_store_type refl h),
            λ h. not_same _ _ e' (IsSpelling-trim_space s vault_store_type refl h),
            rw (e, e'),
          ))
    ]
  ]

  -- `Make` of a name with any spaces around it is `Make` of any other spelling that has the same lower
  -- case, by any other factory: neither case nor spaces around the name nor the configuration path
  -- that the factory was made with changes the store.
  make_spelling :
      (f g : Factory) (p s q t : Runes)
      → IsSpaces p
      → IsSpaces q
      → map to_lower s ≡ map to_lower t
      → make consul unmarshal vault f (padded p s q) ≡ make consul unmarshal vault g t
  unfolding make
  make_spelling f g p s q t hp hq same_lower =
      ap (choose consul unmarshal vault) (normal-padded p s q hp hq ∙ ap trim_space same_lower)

  -- With any spaces around it, every spelling of "consul" selects the Consul store and every spelling
  -- of "vault" the Vault store, both over their default configurations.
  make_selects :
      (f : Factory) (p q s t : Runes)
      → IsSpaces p
      → IsSpaces q
      → map to_lower s ≡ consul_store_type
      → map to_lower t ≡ vault_store_type
      → (make consul unmarshal vault f (padded p s q)
          ≡ Consul.new consul unmarshal (some consul.default_config))
        × (make consul unmarshal vault f (padded p t q)
            ≡ Vault.new vault (some vault.default_config))
  unfolding make
  make_selects f p q s t hp hq e e' = (
    ap (choose consul unmarshal vault) (normal-padded p s q hp hq) ∙ rw e,
    ap (choose consul unmarshal vault) (normal-padded p t q hp hq) ∙ rw e',
  )

  -- A name for which `Make` gives a store is "consul" or "vault" once it is lowered and trimmed, and
  -- every other name is refused with the same error.
  make_refuses :
      (f : Factory) (s : Runes)
      → ((trim_space (map to_lower s) ≡ consul_store_type)
          ⊎ (trim_space (map to_lower s) ≡ vault_store_type))
        ⊎ (make consul unmarshal vault f s ≡ err invalid_store_type)
  unfolding make
  make_refuses f s = elim (Bool-cases (same (trim_space (map to_lower s)) consul_store_type)) [
    | inl e ↦ inl (inl (same_eq _ _ e))
    | inr e ↦ elim (Bool-cases (same (trim_space (map to_lower s)) vault_store_type)) [
      | inl e' ↦ inl (inr (same_eq _ _ e'))
      | inr e' ↦ inr (rw (e, e'))
    ]
  ]
