-- ===== src/Schemes/Registered.antt =====
-- Which types the schemes have once the packages are initialized and `New` has run.
use crypt_controller.Base.{
  or_keep, or_keep_assoc, or_keep_twice, or_keep-none, String, ◌≡◌, refl, sym, ap, subst, ◌∙◌, none,
  List, [], ◌∷◌, string_eq,
}
use crypt_controller.Base.Outcome.{Outcome, returned}
use crypt_controller.Kube.{GroupVersion}
use crypt_controller.Api.{scheme_group_version}
use crypt_controller.Schemes.{
  SchemeApi, SchemeFunc, ApiType, crypt_type, crypt_list_type, add_known_types, scheme_builder,
  add_to_scheme, add_clientset, must_add, init, add_fake, init_fake, version_one,
}
use crypt_controller.Schemes.Tables.{
  Table, crypt_types, over, Agrees, over-Agrees, Agrees-self, Agrees-sym, Agrees-along, known,
}

module _ (S : SchemeApi) (meta : GroupVersion → Table) where
  -- A call returns, with the types of the table put over those of the scheme.
  pub record Puts (t : Table) (s : S.Scheme) (r : Outcome S.Scheme) : Type 0 where
    pub after : S.Scheme
    pub returns : r ≡ returned after
    pub types : (g : GroupVersion) (k : String) → S.type_of after g k ≡ over t (S.type_of s) g k

  -- What is assumed of apimachinery; `meta gv` are the types that `AddToGroupVersion` puts for gv. Each
  -- call that registers types works on a scheme that has no other type for any of their kinds.
  pub record IsSchemeApi : Type 1 where
    pub new_is_empty : (g : GroupVersion) (k : String) → S.type_of S.new_scheme g k ≡ none
    pub known_put :
        (gv : GroupVersion) (ts : List ApiType) (s : S.Scheme)
        → Agrees (known gv ts) (S.type_of s)
        → Puts (known gv ts) s (S.add_known_types gv ts s)
    pub meta_put :
        (gv : GroupVersion) (s : S.Scheme)
        → Agrees (meta gv) (S.type_of s)
        → Puts (meta gv) s (S.add_to_group_version gv s)
    pub builds : (fs : List (SchemeFunc S)) → S.new_scheme_builder fs ≡ fs
    pub applies_none : (s : S.Scheme) → S.add_to_scheme [] s ≡ returned (none, s)
    pub applies :
        (f : SchemeFunc S) (fs : List (SchemeFunc S)) (s u : S.Scheme)
        → f s ≡ returned (none, u)
        → S.add_to_scheme (f ∷ fs) s ≡ S.add_to_scheme fs u
    pub must_none : S.must none ≡ returned tt
    pub meta_agrees : (gv : GroupVersion) → Agrees (meta scheme_group_version) (meta gv)
    pub crypts_free : (gv : GroupVersion) → Agrees crypt_types (meta gv)

  -- The types of this API.
  abbrev pub api_types : Table
  api_types = over (meta scheme_group_version) crypt_types

  -- A scheme that has no other type for a kind of this API.
  abbrev pub Fits : Table → Type 0
  Fits t = Agrees crypt_types t × Agrees (meta scheme_group_version) t

  -- A call returns a scheme with the types of this API over those of the table, to which they can be
  -- added once more, without effect.
  pub record Registers (t : Table) (r : Outcome S.Scheme) : Type 0 where
    pub after : S.Scheme
    pub returns : r ≡ returned after
    pub types : (g : GroupVersion) (k : String) → S.type_of after g k ≡ over api_types t g k
    pub again : S.Scheme
    pub returns_again : must_add S after ≡ returned again
    pub types_again : (g : GroupVersion) (k : String) → S.type_of again g k ≡ over api_types t g k

  module _ (laws : IsSchemeApi) where
    -- The types of this API, over those of the scheme.
    abbrev HasApi : Table → S.Scheme → Type 0
    HasApi t u = (g : GroupVersion) (k : String) → S.type_of u g k ≡ over api_types t g k

    both_return :
        (s k all : S.Scheme)
        → S.add_known_types scheme_group_version (crypt_type ∷ crypt_list_type ∷ []) s ≡ returned k
        → S.add_to_group_version scheme_group_version k ≡ returned all
        → add_known_types S s ≡ returned (none, all)
    unfolding add_known_types
    both_return s k all e e' = rw (add_known_types, e, e') refl

    add_known_types_puts :
        (s : S.Scheme)
        → Fits (S.type_of s)
        → (u : S.Scheme) × (add_known_types S s ≡ returned (none, u)) × HasApi (S.type_of s) u
    add_known_types_puts s (crypts_fit, meta_fit) =
        let ours =
          laws.known_put scheme_group_version (crypt_type ∷ crypt_list_type ∷ []) s crypts_fit in
        let m = meta scheme_group_version in
        let fit : Agrees m (S.type_of ours.after) =
          Agrees-along m (S.type_of ours.after) (over crypt_types (S.type_of s)) ours.types (
            over-Agrees m crypt_types (S.type_of s)
              (Agrees-sym crypt_types m (laws.crypts_free scheme_group_version)) meta_fit) in
        let theirs = laws.meta_put scheme_group_version ours.after fit in
        (
          theirs.after,
          both_return s ours.after theirs.after ours.returns theirs.returns,
          λ g k.
              theirs.types g k
              ∙ ap (or_keep (m g k)) (ours.types g k)
              ∙ or_keep_assoc (m g k) (crypt_types g k) (S.type_of s g k),
        )

    must_add_puts :
        (s : S.Scheme)
        → Fits (S.type_of s)
        → (u : S.Scheme) × (must_add S s ≡ returned u) × HasApi (S.type_of s) u
    unfolding must_add add_clientset add_to_scheme scheme_builder
    must_add_puts s fits =
        let (u, e, types) = add_known_types_puts s fits in
        let inner : add_to_scheme S s ≡ returned (none, u) =
          rw (add_to_scheme, scheme_builder, laws.builds (add_known_types S ∷ []))
            (laws.applies (add_known_types S) [] s u e ∙ laws.applies_none u) in
        let outer : add_clientset S s ≡ returned (none, u) =
          laws.applies (add_to_scheme S) [] s u inner ∙ laws.applies_none u in
        (u, rw (must_add, outer, laws.must_none) refl, types)

    -- The types of this API can be added where they have been.
    Fits-again : (t : Table) → Fits t → Fits (over api_types t)
    Fits-again t (crypts_fit, meta_fit) =
        let m = meta scheme_group_version in
        (
          over-Agrees crypt_types api_types t
              (over-Agrees crypt_types m crypt_types (laws.crypts_free scheme_group_version)
                (Agrees-self crypt_types))
              crypts_fit,
          over-Agrees m api_types t
              (over-Agrees m m crypt_types (Agrees-self m)
                (Agrees-sym crypt_types m (laws.crypts_free scheme_group_version)))
              meta_fit,
        )

    Registers-twice :
        (t : Table) (s : S.Scheme)
        → ((g : GroupVersion) (k : String) → S.type_of s g k ≡ t g k)
        → Fits t
        → Registers t (must_add S s)
    Registers-twice t s same fits =
        let (u, e, types) = must_add_puts s (
          Agrees-along crypt_types (S.type_of s) t same fits.0,
          Agrees-along (meta scheme_group_version) (S.type_of s) t same fits.1,
        ) in
        let has : HasApi t u = λ g k. types g k ∙ ap (or_keep (api_types g k)) (same g k) in
        let after_fits = Fits-again t fits in
        let (v, e', types') = must_add_puts u (
          Agrees-along crypt_types (S.type_of u) (over api_types t) has after_fits.0,
          Agrees-along (meta scheme_group_version) (S.type_of u) (over api_types t) has
              after_fits.1,
        ) in
        record {
          after = u;
          returns = e;
          types = has;
          again = v;
          returns_again = e';
          types_again = λ g k.
              types' g k
              ∙ ap (or_keep (api_types g k)) (has g k)
              ∙ or_keep_twice (api_types g k) (t g k);
        }

    init_starts :
        (s : S.Scheme)
        → S.add_to_group_version version_one S.new_scheme ≡ returned s
        → init S ≡ must_add S s
    unfolding init
    init_starts s e = rw (init, e) refl

    same_init : init_fake S ≡ init S
    unfolding init_fake init must_add add_fake add_clientset
    same_init = refl

    -- The packages scheme and fake are initialized alike, without a panic, and `New` adds without a panic
    -- to the scheme of the event recorder, if that has no other type for a kind that this API registers.
    -- Each scheme then has Crypt and CryptList under their names in this API's version, the types that
    -- metav1 puts for that version, and what it had before: for the two packages, what metav1 puts for
    -- "v1", and nothing else. Adding once more, as a second `New` does, succeeds and changes no type.
    pub init-Registers :
        (s : S.Scheme)
        → Agrees crypt_types (S.type_of s)
        → Agrees (meta scheme_group_version) (S.type_of s)
        → (init_fake S ≡ init S)
          × Registers (meta version_one) (init S)
          × Registers (S.type_of s) (must_add S s)
    init-Registers s crypts_fit meta_fit =
        let first =
          laws.meta_put version_one S.new_scheme
            (λ g k a b at_m at_new. cc (laws.new_is_empty g k)) in
        let same : (g : GroupVersion) (k : String)
            → S.type_of first.after g k ≡ meta version_one g k =
          λ g k.
            first.types g k
            ∙ ap (or_keep (meta version_one g k)) (laws.new_is_empty g k)
            ∙ or_keep-none (meta version_one g k) in
        (
          same_init,
          subst (Registers (meta version_one)) (sym (init_starts first.after first.returns)) (
              Registers-twice (meta version_one) first.after same
                (laws.crypts_free version_one, laws.meta_agrees version_one)),
          Registers-twice (S.type_of s) s (λ g k. refl) (crypts_fit, meta_fit),
        )
