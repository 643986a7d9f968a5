-- ===== src/Controller/Secrets/Requests.antt =====
-- What is assumed of the cluster's secrets, and what a create that falls back to an update does to
-- them (`createSecret` of controller/controller.go).
use crypt_controller.Base.{
  String, true, false, ◌≡◌, ◌⊎◌, inl, inr, refl, ◌&&◌, ◌==◌, ==_iff, string_eq, if◌then◌else◌,
  Bool-cases, subst, sym, arith, some,
}
use crypt_controller.Base.Outcome.{Error, ok, err}
use crypt_controller.Kube.{Secret}
use crypt_controller.Controller.{Env, SecretApi}
use crypt_controller.Controller.Secrets.{put_secret}

-- A request about one secret changes no other, whatever its result, and a request that succeeds
-- leaves the secret that was sent.
pub record IsFaithful (S : SecretApi) : Type 0 where
  pub create_other :
      (ns : String) (s : Secret) (k : S.State) (ns' n' : String)
      → (ns' == ns && n' == s.meta.name) ≡ false
      → S.secret_at (S.create ns s k).1 ns' n' ≡ S.secret_at k ns' n'
  pub update_other :
      (ns : String) (s : Secret) (k : S.State) (ns' n' : String)
      → (ns' == ns && n' == s.meta.name) ≡ false
      → S.secret_at (S.update ns s k).1 ns' n' ≡ S.secret_at k ns' n'
  pub create_stores :
      (ns : String) (s r : Secret) (k : S.State)
      → (S.create ns s k).0 ≡ ok r
      → S.secret_at (S.create ns s k).1 ns s.meta.name ≡ some s
  pub update_stores :
      (ns : String) (s r : Secret) (k : S.State)
      → (S.update ns s k).0 ≡ ok r
      → S.secret_at (S.update ns s k).1 ns s.meta.name ≡ some s

-- Requests about the secret `n` of the namespace `ns` are served: a create succeeds or finds the
-- secret there already, and then an update succeeds.
pub record Serves (E : Env) (ns n : String) : Type 0 where
  pub create_served :
      (s : Secret) (k : E.secrets.State)
      → s.meta.name ≡ n
      → ((r : Secret) × ((E.secrets.create ns s k).0 ≡ ok r))
        ⊎ ((e : Error) × ((E.secrets.create ns s k).0 ≡ err e)
            × (E.errors.is_already_exists e ≡ true))
  pub update_served :
      (s : Secret) (k : E.secrets.State) (e : Error)
      → s.meta.name ≡ n
      → (E.secrets.create ns s k).0 ≡ err e
      → (r : Secret) × ((E.secrets.update ns s (E.secrets.create ns s k).1).0 ≡ ok r)

module _ (E : Env) (F : IsFaithful E.secrets) where
  pub put_secret_other :
      (ns : String) (s : Secret) (k : E.secrets.State) (ns' n' : String)
      → (ns' == ns && n' == s.meta.name) ≡ false
      → E.secrets.secret_at (put_secret E ns s k).1 ns' n' ≡ E.secrets.secret_at k ns' n'
  unfolding put_secret
  put_secret_other ns s k ns' n' h = ground (
    arith,
    F.create_other ns s k ns' n' h,
    F.update_other ns s (E.secrets.create ns s k).1 ns' n' h,
  )

  pub put_secret_stores :
      (ns : String) (s : Secret) (k : E.secrets.State)
      → Serves E ns s.meta.name
      → E.secrets.secret_at (put_secret E ns s k).1 ns s.meta.name ≡ some s
  unfolding put_secret
  put_secret_stores ns s k v = elim (v.create_served s k refl) [
    | inl (r, e) ↦ ground (arith, F.create_stores ns s r k e)
    | inr (e, failed, exists) ↦
        let (r, updated) = v.update_served s k e refl failed in
        ground (arith, F.update_stores ns s r (E.secrets.create ns s k).1 updated)
  ]

  -- The secret under any address, where requests about that address are served.
  pub secret_at-put_secret :
      (ns : String) (s : Secret) (k : E.secrets.State) (ns' n' : String)
      → Serves E ns' n'
      → E.secrets.secret_at (put_secret E ns s k).1 ns' n'
        ≡ (if ns' == ns && n' == s.meta.name then some s else E.secrets.secret_at k ns' n')
  secret_at-put_secret ns s k ns' n' v = elim (Bool-cases (ns' == ns && n' == s.meta.name)) [
    | inr differ ↦ rw differ (put_secret_other ns s k ns' n' differ)
    | inl same ↦
        let e : ns' ≡ ns = ground (arith, ==_iff ns' ns) in
        let e' : n' ≡ s.meta.name = ground (arith, ==_iff n' s.meta.name) in
        rw same (
          subst (λ (a : String). E.secrets.secret_at (put_secret E ns s k).1 a n' ≡ some s) (sym e)
            (subst (λ (b : String). E.secrets.secret_at (put_secret E ns s k).1 ns b ≡ some s)
              (sym e')
              (put_secret_stores ns s k (
                subst (λ (b : String). Serves E ns b) e'
                  (subst (λ (a : String). Serves E a n') e v)))))
  ]
