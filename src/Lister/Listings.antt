-- ===== src/Lister/Listings.antt =====
-- What the listings of pkg/client/listers/crypt/v1alpha1/crypt.go give for what the indexer holds.
use crypt_controller.Base.{
  String, ◌≡◌, refl, sym, ap, ◌∙◌, Option, none, some, List, [], ◌∷◌, ◌++◌, inl, inr, Option-cases,
}
use mathlib.Core.List.{append-nil, append_assoc}
use crypt_controller.Base.Outcome.{Error, Outcome, returned, panicked}
use crypt_controller.Api.{Crypt}
use crypt_controller.Any.{Any, as_crypt}
use crypt_controller.Lister.{Indexer, Selector, append_crypts, listed, list, list_in}

-- The objects as Crypts, in order, if they all are.
abbrev pub all_as_crypts : List Any → Option (List Crypt)
all_as_crypts [] = some []
all_as_crypts (m ∷ ms) =
    let rest = all_as_crypts ms in
    elim (as_crypt m) [ none ↦ none | some c ↦ elim rest [ none ↦ none | some cs ↦ some (c ∷ cs) ] ]

-- A listing with an error of its own.
abbrev pub listing_of : List Any × Option Error → Outcome (List Crypt × Option Error)
listing_of (objects, e) = elim (all_as_crypts objects) [
  | none ↦ panicked
  | some cs ↦ returned (cs, e)
]

abbrev with_earlier : List Crypt → Option (List Crypt) → Outcome (List Crypt)
with_earlier ret none = panicked
with_earlier ret (some cs) = returned (ret ++ cs)

append_crypts_lem :
    (ms : List Any) (ret : List Crypt) → append_crypts ms ret ≡ with_earlier ret (all_as_crypts ms)
unfolding append_crypts
append_crypts_lem [] ret = ap returned (sym (append-nil ret))
append_crypts_lem (m ∷ ms) ret = elim (Option-cases (as_crypt m)) [
  | inl e ↦ rw (append_crypts, e, all_as_crypts)
  | inr (c, e) ↦
      rw (append_crypts, e, all_as_crypts)
        (append_crypts_lem ms (ret ++ c ∷ []) ∙ shift c (all_as_crypts ms))
]
  where
    shift :
        (c : Crypt) (o : Option (List Crypt))
        → with_earlier (ret ++ c ∷ []) o
          ≡ with_earlier ret (elim o [ none ↦ none | some cs ↦ some (c ∷ cs) ])
    shift c none = refl
    shift c (some cs) = ap returned (append_assoc ret (c ∷ []) cs)

listed_lem : (r : List Any × Option Error) → listed r ≡ listing_of r
unfolding listed
listed_lem (ms, e) = elim (Option-cases (all_as_crypts ms)) [
  | inl odd ↦ rw (listed, append_crypts_lem ms [], odd, listing_of)
  | inr (cs, all) ↦ rw (listed, append_crypts_lem ms [], all, listing_of)
]

-- Both listings give the Crypts that the indexer has for the selector, all of them and in its order,
-- with the error that came with them; they panic just where one of the objects is of another type.
pub list-list_in :
    (indexer : Indexer) (namespace : String) (selector : Selector)
    → (list indexer selector ≡ listing_of (indexer.list_all selector))
      × (list_in indexer namespace selector
          ≡ listing_of (indexer.list_all_by_namespace namespace selector))
unfolding list list_in
list-list_in indexer namespace selector = (
  listed_lem (indexer.list_all selector),
  listed_lem (indexer.list_all_by_namespace namespace selector),
)
