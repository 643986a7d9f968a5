-- ===== src/Fake/StandIn.antt =====
-- The fake client of the Crypts next to the one that it stands for.
use mathlib.Core.List.{append-nil, append_assoc}
use crypt_controller.Base.{
  ℕ, String, ◌≡◌, refl, sym, ap, ◌∙◌, Option, none, some, List, [], ◌∷◌, ◌++◌, select, inl, inr,
  Bool-cases,
}
use crypt_controller.Base.Outcome.{Error, Outcome, returned, panicked}
use crypt_controller.Api.{Crypt, CryptList}
use crypt_controller.Lister.{Selector}
use crypt_controller.Client as Client
use crypt_controller.Client.{
  RestClient, Request, Verb, get_verb, post_verb, put_verb, delete_verb, patch_verb, ListOptions,
  GetOptions, Params, list_params, no_params, get_params, Body, crypt_body, patch_body, no_body,
  delete_body, Crypts, request,
}
use crypt_controller.Fake.{
  Object, crypt_object, list_object, list_deed, Reactors, FakeCrypts, crypts_kind,
  label_or_everything, append_matching, crypt_of, list_of, action, get, list, create, update,
  update_status, delete, delete_collection, patch,
}
use crypt_controller.Fake.Matter.{StandsFor, seen, boxed}

-- The answer without the state.
abbrev pub reply : {A S : Type 0} → Outcome (A × S) → Outcome A
reply (returned (a, s)) = returned a
reply panicked = panicked

-- The items that match a label.
abbrev pub matching : Option Selector → CryptList → CryptList
matching label l = record {
  items = select (λ item. label_or_everything label item.meta.labels) l.items;
}

append_matching-select :
    (label : Selector) (xs items : List Crypt)
    → append_matching label xs items ≡ items ++ select (λ item. label item.meta.labels) xs
append_matching-select label [] items = sym (append-nil items)
append_matching-select label (x ∷ xs) items = elim (Bool-cases (label x.meta.labels)) [
  | inl e ↦ rw e (
      append_matching-select label xs (items ++ x ∷ [])
      ∙ append_assoc items (x ∷ []) (select (λ item. label item.meta.labels) xs))
  | inr e ↦ rw e (append_matching-select label xs items)
]

module _ (F : Reactors) (R : RestClient) (ns : String) (s : F.State) where
  abbrev fake : FakeCrypts F
  fake = record { ns = ns }

  abbrev real : Crypts
  real = record { client = R; ns = ns }

  -- The methods that read.
  abbrev pub ReadsAlike : Type 0
  ReadsAlike =
      ((name : String) (options : GetOptions)
        → reply (get F fake name options s) ≡ returned (seen (Client.get real name options)))
      × ((opts : ListOptions)
          → reply (list F fake opts s)
            ≡ returned (
                seen (
                  matching (F.extract_label opts) (Client.list real opts).0,
                  (Client.list real opts).1,
                )))

  -- The methods that write.
  abbrev pub WritesAlike : Type 0
  WritesAlike =
      ((crypt : Crypt) → reply (create F fake crypt s) ≡ returned (seen (Client.create real crypt)))
      × ((crypt : Crypt)
          → reply (update F fake crypt s) ≡ returned (seen (Client.update real crypt)))
      × ((crypt : Crypt)
          → reply (update_status F fake crypt s)
            ≡ returned (seen (Client.update_status real crypt)))
      × ((name : String) (options : Option String)
          → (delete F fake name options s).0 ≡ Client.delete real name options)
      × ((options : Option String) (opts : ListOptions)
          → (delete_collection F fake options opts s).0
            ≡ Client.delete_collection real options opts)
      × ((name pt : String) (contents : List ℕ) (subs : List String)
          → reply (patch F fake name pt contents subs s)
            ≡ returned (seen (Client.patch real name pt contents subs)))

  reply-crypt_of :
      (answer : (Option Object × Option Error) × F.State) (c : Crypt × Option Error)
      → answer.0 ≡ boxed crypt_object c
      → reply (crypt_of F answer) ≡ returned (seen c)
  reply-crypt_of answer c e = ap (λ a. reply (crypt_of F (a, answer.1))) e ∙ boxed_lem c
    where
      boxed_lem :
          (c : Crypt × Option Error)
          → reply (crypt_of F (boxed crypt_object c, answer.1)) ≡ returned (seen c)
      boxed_lem (c, none) = refl
      boxed_lem (c, some x) = refl

  reply-list_of :
      (label : Option Selector) (answer : (Option Object × Option Error) × F.State)
      (l : CryptList × Option Error)
      → answer.0 ≡ boxed list_object l
      → reply (list_of F label answer) ≡ returned (seen (matching label l.0, l.1))
  reply-list_of label answer l e = ap (λ a. reply (list_of F label (a, answer.1))) e ∙ boxed_lem l
    where
      boxed_lem :
          (l : CryptList × Option Error)
          → reply (list_of F label (boxed list_object l, answer.1))
            ≡ returned (seen (matching label l.0, l.1))
      boxed_lem (l, none) =
          ap (λ items. returned (some (record { items = items }), none))
            (append_matching-select (label_or_everything label) l.items [])
      boxed_lem (l, some x) = refl

  -- A fake whose reactors answer, in one state, as a server does that heeds neither timeouts nor the
  -- options of Get and Delete gives in that state what the client of that server gives, by each method
  -- but Watch: the same error, and where there is none the same Crypt. Of a list it gives the items, in
  -- their order, that match the label of the options besides. It never panics.
  pub fake_alike : StandsFor F R s → ReadsAlike × WritesAlike
  unfolding get list create update update_status delete delete_collection patch request Client.get
      Client.list Client.create Client.update Client.update_status Client.delete
      Client.delete_collection Client.patch
  fake_alike stands = (
    (
      λ name options. reply-crypt_of _ _ (stands.crypts_alike _ ns _ _ refl refl refl),
      λ opts.
          reply-list_of (F.extract_label opts)
            (F.invokes (action F fake (list_deed crypts_kind opts))
              (list_object (record { items = [] })) s)
            _ (stands.lists_alike _ ns opts _ refl refl),
    ),
    (
      λ crypt. reply-crypt_of _ _ (stands.crypts_alike _ ns _ _ refl refl refl),
      λ crypt. reply-crypt_of _ _ (stands.crypts_alike _ ns _ _ refl refl refl),
      λ crypt. reply-crypt_of _ _ (stands.crypts_alike _ ns _ _ refl refl refl),
      λ name options. stands.errors_alike _ ns _ _ refl refl refl,
      λ options opts. stands.errors_alike _ ns _ _ refl refl refl,
      λ name pt contents subs. reply-crypt_of _ _ (stands.crypts_alike _ ns _ _ refl refl refl),
    ),
  )
