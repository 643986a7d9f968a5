-- ===== src/Informers/Once.antt =====
-- Which informers a factory has run by the last `Start` (pkg/client/informers/externalversions/factory.go).
use mathlib.Core.Option.{map as map_option}
use crypt_controller.Base.{
  String, Bool, true, false, ◌≡◌, refl, ◌∙◌, Option, none, some, List, [], ◌∷◌, ◌++◌, ◌||◌, ◌&&◌,
  not, arith, inl, inr, Bool-cases, Option-cases, ◌==◌, ==_iff, string_eq, if◌then◌else◌,
}
use crypt_controller.Base.Dict.{Entries, lookup, insert, lookup-insert}
use crypt_controller.Informers.{
  Factory, informer_for, is_started, start_each, start, wait_each, wait_for_cache_sync,
}
use crypt_controller.Informers.Requests.{Call, ask, begin, called, call_all}
use crypt_controller.Informers.Runs.{
  one_if, runs_of, runs_of-call_all, is_started-insert, start_complete,
}

abbrev is_some : {A : Type 0} → Option A → Bool
is_some none = false
is_some (some a) = true

module _ {Informer : Type 0} where
  -- Whether some request asks for the type.
  abbrev pub requested : String → List (Call Informer) → Bool
  requested t [] = false
  requested t (ask u new_func ∷ cs) = t == u || requested t cs
  requested t (begin ∷ cs) = requested t cs

  abbrev has : String → Factory Informer → Bool
  has t f = is_some (lookup t f.informers)

  is_some-insert :
      (t u : String) (i : Informer) (d : Entries Informer)
      → is_some (lookup t (insert u i d)) ≡ (t == u || is_some (lookup t d))
  is_some-insert t u i d = ground (arith, lookup-insert t u i d)

  has-informer_for :
      (t u : String) (new_func : _) (f : Factory Informer)
      → has t (informer_for Informer u new_func f).1 ≡ (t == u || has t f)
  unfolding informer_for
  has-informer_for t u new_func f = elim (Option-cases (lookup u f.informers)) [
    | inl e ↦ rw (informer_for, e) (is_some-insert t u (new_func f.client _) f.informers)
    | inr (i, e) ↦ rw (informer_for, e) (ground (arith, e, ==_iff t u))
  ]

  has-call_all :
      (t : String) (cs : List (Call Informer)) (f : Factory Informer)
      → has t (call_all cs f).1 ≡ (requested t cs || has t f)
  unfolding start
  has-call_all t [] f = refl
  has-call_all t (ask u new_func ∷ cs) f = ground (
    arith,
    has-call_all t cs (informer_for Informer u new_func f).1,
    has-informer_for t u new_func f,
  )
  has-call_all t (begin ∷ cs) f = has-call_all t cs (start Informer f).1

  is_started-start_each :
      (t : String) (xs : Entries Informer) (started : Entries Bool)
      → is_started t (start_each Informer xs started).1
        ≡ (is_some (lookup t xs) || is_started t started)
  unfolding start_each lookup
  is_started-start_each t [] started = refl
  is_started-start_each t ((u, i) ∷ rest) started = elim (Bool-cases (is_started u started)) [
    | inl e ↦ rw e (ground (arith, e, is_started-start_each t rest started, ==_iff t u))
    | inr e ↦ rw e (
        ground (
          arith,
          is_started-start_each t rest (insert u true started),
          is_started-insert t u started,
          ==_iff t u,
        ))
  ]

  -- A type that is marked as started has an informer.
  abbrev strays : String → Factory Informer → Bool
  strays t f = is_started t f.started_informers && not (has t f)

  strays-insert :
      (t u : String) (i : Informer) (f : Factory Informer)
      → strays t f ≡ false
      → strays t (record f { informers = insert u i f.informers }) ≡ false
  strays-insert t u i f h = ground (arith, h, is_some-insert t u i f.informers)

  strays-called :
      (t : String) (c : Call Informer) (f : Factory Informer)
      → strays t f ≡ false
      → strays t (called c f).1 ≡ false
  unfolding informer_for start
  strays-called t (ask u new_func) f h = elim (Option-cases (lookup u f.informers)) [
    | inl e ↦ rw (informer_for, e) (strays-insert t u (new_func f.client _) f h)
    | inr (i, e) ↦ rw (informer_for, e) h
  ]
  strays-called t begin f h =
      ground (arith, h, is_started-start_each t f.informers f.started_informers)

  strays-call_all :
      (t : String) (cs : List (Call Informer)) (f : Factory Informer)
      → strays t f ≡ false
      → strays t (call_all cs f).1 ≡ false
  strays-call_all t [] f h = h
  strays-call_all t (c ∷ cs) f h = strays-call_all t cs (called c f).1 (strays-called t c f h)

  call_all-append :
      (cs ds : List (Call Informer)) (f : Factory Informer)
      → (call_all (cs ++ ds) f).1 ≡ (call_all ds (call_all cs f).1).1
  call_all-append [] ds f = refl
  call_all-append (c ∷ cs) ds f = call_all-append cs ds (called c f).1

  -- After a Start at the end the marked types are those that have an informer.
  is_started-begin :
      (t : String) (f : Factory Informer)
      → strays t f ≡ false
      → is_started t (start Informer f).1.started_informers ≡ has t f
  unfolding start
  is_started-begin t f h =
      ground (arith, h, is_started-start_each t f.informers f.started_informers)

  -- What WaitForCacheSync tells of a type: what it is told, if the type is marked as started.
  lookup-wait_each :
      (syncs : Informer → Bool) (t : String) (started : Entries Bool) (xs : Entries Informer)
      → lookup t (wait_each Informer syncs started xs)
        ≡ (if is_started t started then map_option syncs (lookup t xs) else none)
  unfolding lookup
  lookup-wait_each syncs t started [] = ground arith
  lookup-wait_each syncs t started ((u, i) ∷ rest) =
      ground (arith, lookup-wait_each syncs t started rest, ==_iff t u)

  told_of :
      (t : String) (syncs : Informer → Bool) (made : Option Informer) (marked asked : Bool)
      {told : Option Bool}
      → told ≡ (if marked then map_option syncs made else none)
      → marked ≡ asked
      → is_some made ≡ asked
      → told ≡ map_option syncs made
  told_of t syncs none true asked e h h' = e
  told_of t syncs none false asked e h h' = e
  told_of t syncs (some i) true asked e h h' = e
  told_of t syncs (some i) false asked e h h' = absurd (ground (arith, h, h'))

  last_is_begin :
      (cs : List (Call Informer)) (f : Factory Informer)
      → (call_all (cs ++ begin ∷ []) f).1 ≡ (start Informer (call_all cs f).1).1
  last_is_begin cs f = call_all-append cs (begin ∷ []) f

  fresh_is_started :
      (t : String) (cs : List (Call Informer)) (f : Factory Informer)
      → f.informers ≡ []
      → f.started_informers ≡ []
      → is_started t (start Informer (call_all cs f).1).1.started_informers ≡ requested t cs
  unfolding lookup
  fresh_is_started t cs f none_made none_started =
      let no_strays : strays t f ≡ false = rw (none_made, none_started) refl in
      let had : has t f ≡ false = rw none_made refl in
      is_started-begin t (call_all cs f).1 (strays-call_all t cs f no_strays)
      ∙ ground (arith, has-call_all t cs f, had)

  -- Take a factory with no informers and nothing marked as started, and any order of requests for
  -- informers and Starts, with a Start at the end. Then the informer of a type has been run exactly
  -- once if the type was requested, however often it was, and never if it was not; WaitForCacheSync
  -- tells, of each type that has an informer, what the wait says of that informer, and of no other; and
  -- another Start runs nothing and leaves the factory as it is.
  pub runs_of-requested :
      (t : String) (cs : List (Call Informer)) (f : Factory Informer) (syncs : Informer → Bool)
      → f.informers ≡ []
      → f.started_informers ≡ []
      → (runs_of t (call_all (cs ++ begin ∷ []) f).0 ≡ one_if (requested t cs))
        × (lookup t (wait_for_cache_sync Informer syncs (call_all (cs ++ begin ∷ []) f).1)
            ≡ map_option syncs (lookup t (call_all (cs ++ begin ∷ []) f).1.informers))
        × (start Informer (call_all (cs ++ begin ∷ []) f).1
            ≡ ([], (call_all (cs ++ begin ∷ []) f).1))
  unfolding lookup start
  runs_of-requested t cs f syncs none_made none_started =
      let g = (call_all cs f).1 in
      let marked : is_started t (call_all (cs ++ begin ∷ []) f).1.started_informers
          ≡ requested t cs =
        rw (last_is_begin cs f) (fresh_is_started t cs f none_made none_started) in
      let unmarked : is_started t f.started_informers ≡ false = rw none_started refl in
      let had : has t f ≡ false = rw none_made refl in
      (
        ground (arith, runs_of-call_all t (cs ++ begin ∷ []) f, marked, unmarked),
        rw (last_is_begin cs f) (
            told_of t syncs (lookup t g.informers) _ (requested t cs)
              (lookup-wait_each syncs t (start Informer g).1.started_informers g.informers)
              (fresh_is_started t cs f none_made none_started)
              (ground (arith, has-call_all t cs f, had))),
        rw (last_is_begin cs f) (start_complete g).1,
      )
