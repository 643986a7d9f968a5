-- ===== src/Informers/Runs.antt =====
-- Which informers `Start` of pkg/client/informers/externalversions/factory.go runs.
use crypt_controller.Base.{
  ℕ, ◌+◌, String, Bool, All, true, false, ◌≡◌, refl, sym, subst, ap, List, [], ◌∷◌, ◌++◌, arith,
  inl, inr, Bool-cases, Option-cases, ◌==◌, ==_iff, ==_refl, string_eq, if◌then◌else◌,
}
use crypt_controller.Base.Dict.{Entries, lookup, insert, lookup-insert}
use crypt_controller.Informers.{Factory, informer_for, is_started, start_each, start}
use crypt_controller.Informers.Requests.{Call, ask, begin, called, call_all}

abbrev pub one_if : Bool → ℕ
one_if true = 1
one_if false = 0

pub is_started-insert :
    (t u : String) (started : Entries Bool)
    → is_started t (insert u true started) ≡ (if t == u then true else is_started t started)
is_started-insert t u started = ground (arith, lookup-insert t u true started)

step_marks :
    (u : String) (started : Entries Bool)
    → is_started u (if is_started u started then started else insert u true started) ≡ true
step_marks u started = ground (arith, is_started-insert u u started, ==_refl u)

module _ {Informer : Type 0} where
  -- How often an informer of a type is run.
  abbrev pub runs_of : String → List (String × Informer) → ℕ
  runs_of t [] = 0
  runs_of t ((u, i) ∷ rest) = one_if (t == u) + runs_of t rest

  runs_of-append :
      (t : String) (xs ys : List (String × Informer))
      → runs_of t (xs ++ ys) ≡ runs_of t xs + runs_of t ys
  runs_of-append t [] ys = ground arith
  runs_of-append t ((u, i) ∷ xs) ys = ground (arith, runs_of-append t xs ys)

  runs_of-start_each :
      (t : String) (xs : Entries Informer) (started : Entries Bool)
      → runs_of t (start_each Informer xs started).0 + one_if (is_started t started)
        ≡ one_if (is_started t (start_each Informer xs started).1)
  unfolding start_each
  runs_of-start_each t [] started = ground arith
  runs_of-start_each t ((u, i) ∷ rest) started = elim (Bool-cases (is_started u started)) [
    | inl e ↦ rw (start_each, e) (runs_of-start_each t rest started)
    | inr e ↦
        rw (start_each, e)
          (ground (
            arith,
            e,
            runs_of-start_each t rest (insert u true started),
            is_started-insert t u started,
            ==_iff t u,
          ))
  ]

  runs_of-called :
      (t : String) (c : Call Informer) (f : Factory Informer)
      → runs_of t (called c f).0 + one_if (is_started t f.started_informers)
        ≡ one_if (is_started t (called c f).1.started_informers)
  unfolding start informer_for
  runs_of-called t (ask u new_func) f = elim (Option-cases (lookup u f.informers)) [
    | inl e ↦ rw (informer_for, e) (ground arith)
    | inr (i, e) ↦ rw (informer_for, e) (ground arith)
  ]
  runs_of-called t begin f = runs_of-start_each t f.informers f.started_informers

  -- However requests and Starts are ordered, an informer of a type is run once if the type came to be
  -- marked as started, and else never: the number of runs is what the mark has gone up by.
  pub runs_of-call_all :
      (t : String) (cs : List (Call Informer)) (f : Factory Informer)
      → runs_of t (call_all cs f).0 + one_if (is_started t f.started_informers)
        ≡ one_if (is_started t (call_all cs f).1.started_informers)
  runs_of-call_all t [] f = ground arith
  runs_of-call_all t (c ∷ cs) f = ground (
    arith,
    runs_of-append t (called c f).0 (call_all cs (called c f).1).0,
    runs_of-called t c f,
    runs_of-call_all t cs (called c f).1,
  )

  -- What is marked stays so.
  start_each_keeps :
      (t : String) (xs : Entries Informer) (started : Entries Bool)
      → is_started t started ≡ true
      → is_started t (start_each Informer xs started).1 ≡ true
  start_each_keeps t xs started h = ground (arith, h, runs_of-start_each t xs started)

  -- What one round of the loop leaves to the later ones.
  start_each_step :
      (u : String) (j : Informer) (rest : Entries Informer) (started : Entries Bool)
      → (start_each Informer ((u, j) ∷ rest) started).1
        ≡ (start_each Informer rest
            (if is_started u started then started else insert u true started)).1
  unfolding start_each
  start_each_step u j rest started = elim (Bool-cases (is_started u started)) [
    | inl e ↦ rw e
    | inr e ↦ rw e
  ]

  -- The loop marks every type that it passes.
  start_each_marks :
      (xs : Entries Informer) (started : Entries Bool)
      → All (λ x. is_started x.0 (start_each Informer xs started).1 ≡ true) xs
  start_each_marks [] started = tt
  start_each_marks ((u, j) ∷ rest) started =
      subst (λ s. All (λ x. is_started x.0 s ≡ true) ((u, j) ∷ rest))
        (sym (start_each_step u j rest started))
        (
          start_each_keeps u rest _ (step_marks u started),
          start_each_marks rest (if is_started u started then started else insert u true started),
        )

  -- With every type marked the loop does nothing.
  start_each_idle :
      (xs : Entries Informer) (started : Entries Bool)
      → All (λ x. is_started x.0 started ≡ true) xs
      → start_each Informer xs started ≡ ([], started)
  unfolding start_each
  start_each_idle [] started h = refl
  start_each_idle ((t, i) ∷ rest) started h =
      rw (start_each, h.0) (start_each_idle rest started h.1)

  -- After Start every type that has an informer is marked as started, and a second Start runs nothing
  -- and changes nothing.
  pub start_complete :
      (f : Factory Informer)
      → All (λ x. is_started x.0 (start Informer f).1.started_informers ≡ true) f.informers
        × (start Informer (start Informer f).1 ≡ ([], (start Informer f).1))
  unfolding start
  start_complete f =
      let marked = start_each_marks f.informers f.started_informers in
      (
        marked,
        ap (λ r. (r.0, record (start Informer f).1 { started_informers = r.1 }))
            (start_each_idle f.informers (start Informer f).1.started_informers marked),
      )
