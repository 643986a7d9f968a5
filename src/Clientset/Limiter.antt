-- ===== src/Clientset/Limiter.antt =====
-- The rate limiter of a clientset (`NewForConfig` of pkg/client/clientset/versioned/clientset.go).
use crypt_controller.Base.{
  ◌≡◌, refl, ap, ◌∙◌, Option, none, some, inl, inr, Option-cases, Bool-cases, if◌then◌else◌,
  string_eq,
}
use crypt_controller.Client.{RestClient}
use crypt_controller.Base.Outcome.{returned, panicked, Result, ok, err, ◌>>=◌, ok-injective, err-ok}
use crypt_controller.Api.{scheme_group_version}
use crypt_controller.Clientset.{
  Library, Conf, Clientset, set_config_defaults, core_for_config, with_limiter, new_for_config,
  new_for_config_or_die, or_die,
}

-- Two calls that both have to succeed.
both_ok {ℓ κ μ} :
    {A : Type ℓ} {B : Type κ} {C : Type μ} (r : Result A) (s : Result B) (make : A → B → C) (x : C)
    → (r >>= (λ a. s >>= (λ b. ok (make a b)))) ≡ ok x
    → (a : A) × (b : B) × (r ≡ ok a) × (s ≡ ok b) × (make a b ≡ x)
both_ok (ok a) (ok b) make x h = (a, b, refl, refl, ok-injective h)
both_ok (ok a) (err e) make x h = absurd (err-ok h)
both_ok (err e) s make x h = absurd (err-ok h)

module _ (L : Library) where
  -- The limiter of the configuration, or a new one if its rate is positive, with the limiters that have
  -- been made by then.
  abbrev pub expected : Conf L → L.Limiters → Option L.Limiter × L.Limiters
  expected c made = elim c.rate_limiter [
    | some limiter ↦ (some limiter, made)
    | none ↦
        if L.is_positive c.qps
        then (
          some (L.new_token_bucket c.qps c.burst made).0,
          (L.new_token_bucket c.qps c.burst made).1,
        )
        else (none, made)
  ]

  -- `core` and `discovery`: the configurations that the two clients of a clientset were made of.
  pub record IsMadeOf (c : Conf L) (made : L.Limiters) (cs : Clientset L) (core discovery : Conf L)
      : Type 1 where
    pub core_made : L.rest_client_for core ≡ ok cs.core_v1alpha1
    pub discovery_made : L.discovery_for discovery ≡ ok cs.discovery_client
    pub core_limiter : core.rate_limiter ≡ (expected c made).0
    pub discovery_limiter : discovery.rate_limiter ≡ (expected c made).0
    pub core_version : core.group_version ≡ some scheme_group_version
    pub discovery_version : discovery.group_version ≡ c.group_version

  with_limiter_lem :
      (c : Conf L) (made : L.Limiters)
      → ((with_limiter L c made).0.rate_limiter ≡ (expected c made).0)
        × ((with_limiter L c made).1 ≡ (expected c made).1)
        × ((with_limiter L c made).0.group_version ≡ c.group_version)
  with_limiter_lem c made = elim (Option-cases c.rate_limiter) [
    | inr (l, e) ↦ rw (with_limiter, expected, e) (e, refl, refl)
    | inl e ↦
        rw (with_limiter, expected, e)
          (elim (Bool-cases (L.is_positive c.qps)) [
            | inl above ↦ rw above (refl, refl, refl)
            | inr zero_rate ↦ rw zero_rate (e, refl, refl)
          ])
  ]

  -- NewForConfigOrDie, given the configuration with the limiter that NewForConfig would choose, gives the
  -- clientset of NewForConfig, and panics just where that fails.
  new_for_config_or_die-with_limiter :
      (c : Conf L) (made : L.Limiters)
      → new_for_config_or_die L (with_limiter L c made).0 ≡ or_die (new_for_config L c made).0
  unfolding new_for_config_or_die new_for_config
  new_for_config_or_die-with_limiter c made =
      dying (core_for_config L (with_limiter L c made).0)
        (L.discovery_for (with_limiter L c made).0)
    where
      dying :
          (r : Result RestClient) (s : Result L.Discovery)
          → elim (or_die r) [
            | panicked ↦ panicked
            | returned core ↦ elim (or_die s) [
              | panicked ↦ panicked
              | returned d ↦ returned (record { discovery_client = d; core_v1alpha1 = core })
            ]
          ]
            ≡ or_die {A = Clientset L} (
                r >>= (λ core.
                  s >>= (λ d. ok (record { discovery_client = d; core_v1alpha1 = core }))))
      dying (ok core) (ok d) = refl
      dying (ok core) (err e) = refl
      dying (err e) s = refl

  -- Where NewForConfig succeeds, it has made one limiter, if the configuration has none and its rate is
  -- positive, and none otherwise. Both clients were made with that limiter, or with the one of the
  -- configuration, or with none if there is none; the typed client is made for the version of the
  -- Crypts, and the discovery client for the version of the configuration. NewForConfigOrDie gives the
  -- same clientset of the configuration with that limiter, and does not panic.
  pub new_for_config-IsMadeOf :
      (c : Conf L) (made : L.Limiters) (cs : Clientset L)
      → (new_for_config L c made).0 ≡ ok cs
      → ((new_for_config L c made).1 ≡ (expected c made).1)
        × ((core : Conf L) × (discovery : Conf L) × IsMadeOf c made cs core discovery)
        × (new_for_config_or_die L (with_limiter L c made).0 ≡ returned cs)
  unfolding new_for_config
  new_for_config-IsMadeOf c made cs h =
      let limited = (with_limiter L c made).0 in
      let (core, discovery, got, found, same) =
        both_ok (core_for_config L limited) (L.discovery_for limited) _ cs h in
      let (limiter, count, version) = with_limiter_lem c made in
      (
        count,
        (
          set_config_defaults L limited,
          limited,
          record {
            core_made = got ∙ ap (λ x. ok (x.core_v1alpha1)) same;
            discovery_made = found ∙ ap (λ x. ok (x.discovery_client)) same;
            core_limiter = limiter;
            discovery_limiter = limiter;
            core_version = refl;
            discovery_version = version;
          },
        ),
        new_for_config_or_die-with_limiter c made ∙ ap or_die h,
      )
