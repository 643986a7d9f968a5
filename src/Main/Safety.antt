-- ===== src/Main/Safety.antt =====
-- What holds of the controller at every moment at which the process of main.go serves.
use crypt_controller.Base.{
  ℕ, suc, zero, String, Bool, true, ◌≡◌, refl, sym, ap, ◌∙◌, subst, some, List, [], ◌∷◌, ◌⊎◌, inl,
  inr, none, Option-cases, Bool-cases, contains, Distinct, ◌==◌, ==_iff, string_eq, arith, Option,
  false, length, set,
}
use crypt_controller.Kube.{Secret}
use crypt_controller.Controller.{Env, Controller, World}
use crypt_controller.Controller.Secrets.Requests.{IsFaithful}
use crypt_controller.Controller.Threads.{
  Thread, System, running, running_inj, launch, work, tell, meddle, pass, Reach, here, next,
}
use crypt_controller.Controller.Threads.Keys.{IsExclusive, key_at, held_key}
use crypt_controller.Controller.Threads.Exclusive.{Reach-exclusive}
use crypt_controller.Controller.Threads.Sound.{IsHonest, IsAsked}
use crypt_controller.Controller.Threads.Sound.Steps.{Reach-IsSound, launch-IsSound}
use crypt_controller.Main.{Attempt}
use crypt_controller.Main.Process.{Process, alive, serving, Moves}
use crypt_controller.Main.Endings.{IsServed, IsSoundPhase, Moves-IsSound}

length-set : (ts : List Thread) (i : ℕ) (t : Thread) → length (set ts i t) ≡ length ts
length-set [] i t = refl
length-set (u ∷ ts) zero t = refl
length-set (u ∷ ts) (suc i) t = ap suc (length-set ts i t)

abbrev with_key : Option String → List String → List String
with_key none ks = ks
with_key (some k) ks = k ∷ ks

-- The keys that the workers hold.
abbrev pub keys_of : List Thread → List String
keys_of [] = []
keys_of (t ∷ ts) = with_key (held_key t) (keys_of ts)

contains-keys_of :
    (ts : List Thread) (k : String)
    → contains (keys_of ts) k ≡ true
    → (i : ℕ) × (key_at ts i ≡ some k)
contains-keys_of [] k h = absurd (ground (arith, h))
contains-keys_of (t ∷ ts) k h = elim (Option-cases (held_key t)) [
  | inl e ↦ let (i, at) = contains-keys_of ts k (ground (arith, e, h)) in (suc i, at)
  | inr (j, e) ↦ elim (Bool-cases (k == j)) [
    | inl same ↦ (0, e ∙ ap some (sym ((==_iff k j).0 same)))
    | inr other ↦ let (i, at) = contains-keys_of ts k (ground (arith, e, h, other)) in (suc i, at)
  ]
]

Distinct-with_key :
    (o : Option String) (ks : List String)
    → Distinct ks
    → ((k : String) → o ≡ some k → contains ks k ≡ false)
    → Distinct (with_key o ks)
Distinct-with_key none ks later fresh = later
Distinct-with_key (some k) ks later fresh = (fresh k refl, later)

Distinct-keys_of :
    (ts : List Thread)
    → ((i j : ℕ) (k : String) → key_at ts i ≡ some k → key_at ts j ≡ some k → i ≡ j)
    → Distinct (keys_of ts)
Distinct-keys_of [] one = tt
Distinct-keys_of (t ∷ ts) one =
    Distinct-with_key (held_key t) (keys_of ts)
      (Distinct-keys_of ts (λ i j k h h'. ground (arith, one (suc i) (suc j) k h h')))
      (λ k e. elim (Bool-cases (contains (keys_of ts) k)) [
        | inr fresh ↦ fresh
        | inl again ↦
            let (i, at) = contains-keys_of ts k again in
            absurd (ground (arith, one 0 (suc i) k e at))
      ])

module _ (E : Env) (Sees : Controller → Type 0)
    (Others : E.secrets.State → E.secrets.State → Type 0)
    (Passes : E.workqueue.State → E.workqueue.State → Type 0) where
  Reach-length :
      {s s' : System E} → Reach E Sees Others Passes s s' → length s'.threads ≡ length s.threads
  Reach-length here = refl
  Reach-length (next {t} r (work i u C seen there)) = length-set t.threads i _ ∙ Reach-length r
  Reach-length (next r (tell C n w seen told)) = Reach-length r
  Reach-length (next r (meddle k o)) = Reach-length r
  Reach-length (next r (pass q o)) = Reach-length r

  module _ (F : IsFaithful E.secrets) (H : IsHonest E.secrets)
      (processing : E.workqueue.State → String → Bool) (X : IsExclusive E Passes processing)
      (Given : String → String → Secret → Type 0)
      (given : (k k' : E.secrets.State) (ns n : String) (s : Secret)
        → Others k k'
        → E.secrets.secret_at k' ns n ≡ some s
        → (E.secrets.secret_at k ns n ≡ some s) ⊎ Given ns n s)
      {A : Type 1} (setup : Attempt A) (first : World E)
      (at_first : (ns n : String) (s : Secret)
        → E.secrets.secret_at first.cluster ns n ≡ some s
        → Given ns n s) where
    served :
        (n a : ℕ) (p : Process E) (s : System E)
        → Moves E setup first Sees Others Passes n a (alive p)
        → p.phase ≡ serving s
        → IsServed E setup first Sees Others Passes s
    served n a p s moves e =
        subst (IsSoundPhase E setup first Sees Others Passes) e
          (Moves-IsSound E setup first Sees Others Passes n a (alive p) moves).phase_sound

    launch-length :
        (w : World E) (s : System E) → launch E 3 true w ≡ running s → length s.threads ≡ 3
    unfolding launch
    launch-length w s e = ap (λ (u : System E). length u.threads) (sym (running_inj E e))

    -- Requests act on the secret that they name and no other, and leave it as it was or as it was sent;
    -- the queue gives out a key only while it is not being processed; and all secrets are given that the
    -- cluster had at first or that other clients put there. Then whatever the order of set-up, signals,
    -- handlers, workers and time, wherever the process serves, it has three workers, the keys that they
    -- hold are distinct, and under each address in the cluster there is no secret, or one that is given
    -- or that a Crypt in the cache asked for.
    pub Moves-IsAsked :
        (n a : ℕ) (p : Process E) (s : System E) (ns name : String)
        → Moves E setup first Sees Others Passes n a (alive p)
        → p.phase ≡ serving s
        → (length s.threads ≡ 3)
          × Distinct (keys_of s.threads)
          × ((E.secrets.secret_at s.world.cluster ns name ≡ none)
              ⊎ ((f : Secret) × (E.secrets.secret_at s.world.cluster ns name ≡ some f)
                  × (IsAsked E Sees ns name f ⊎ Given ns name f)))
    Moves-IsAsked n a p s ns name moves e =
        let (w, s₀, waited, launched, reach) = served n a p s moves e in
        let before =
          Reach-IsSound E F H Sees Given Others given Passes
            (tt, λ ns' n' g h. inr (at_first ns' n' g h)) waited in
        let start =
          launch-IsSound E F H Sees Given Others given Passes 3 true w s₀ launched before.1 in
        let accounted = (Reach-IsSound E F H Sees Given Others given Passes start reach).1 in
        (
          Reach-length reach ∙ launch-length w s₀ launched,
          Distinct-keys_of s.threads (λ i j k at_i at_j.
              Reach-exclusive E Passes processing X Sees Others 3 true w s₀ s i j k launched reach
                at_i at_j),
          elim (Option-cases (E.secrets.secret_at s.world.cluster ns name)) [
            | inl gone ↦ inl gone
            | inr (f, there) ↦ inr (f, there, accounted ns name f there)
          ],
        )
