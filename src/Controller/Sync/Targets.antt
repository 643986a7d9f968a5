-- ===== src/Controller/Sync/Targets.antt =====
-- Which namespaces `findNamespaceMatches` of controller/controller.go finds, for the patterns of a
-- Crypt.
use crypt_controller.Base.{
  String, Bool, false, ◌≡◌, refl, ◌&&◌, ◌||◌, List, [], ◌∷◌, map, arith, contains, contains-append,
  ==_iff, string_eq,
}
use crypt_controller.Kube.{Namespace}
use crypt_controller.Controller.{Env, Controller}
use crypt_controller.Controller.Sync.{matching, find_namespace_matches, namespace_matches}

module _ (E : Env) where
  -- Whether one of the patterns matches a name.
  abbrev pub is_matched : List String → String → Bool
  is_matched [] name = false
  is_matched (pattern ∷ rest) name = (E.match_string pattern name).0 || is_matched rest name

  module _ (C : Controller) where
    -- The names of the namespaces in the cache.
    abbrev pub names : List Namespace → List String
    names = map (λ ns. ns.meta.name)

    abbrev pub cached : List Namespace
    cached = (C.namespace_lister E.new_selector).0

    -- Whether a namespace is in the cache and one of the patterns matches its name.
    abbrev pub is_target : List String → String → Bool
    is_target patterns ns = contains (names cached) ns && is_matched patterns ns

    contains-matching :
        (pattern : String) (nss : List Namespace) (x : String)
        → contains (matching E C pattern nss) x
          ≡ (contains (names nss) x && (E.match_string pattern x).0)
    unfolding matching
    contains-matching pattern [] x = refl
    contains-matching pattern (ns ∷ rest) x =
        ground (arith, contains-matching pattern rest x, ==_iff x ns.meta.name)

    pub contains-namespace_matches :
        (patterns : List String) (ns : String)
        → contains (namespace_matches E C patterns) ns ≡ is_target patterns ns
    unfolding namespace_matches find_namespace_matches
    contains-namespace_matches [] ns = ground arith
    contains-namespace_matches (pattern ∷ rest) ns = ground (
      arith,
      contains-append (matching E C pattern cached) (namespace_matches E C rest) ns,
      contains-matching pattern cached ns,
      contains-namespace_matches rest ns,
    )
