-- ===== src/Clientset.antt =====
-- pkg/client/clientset/versioned/clientset.go and typed/crypt/v1alpha1/crypt_client.go: the clients that
-- are made of one configuration. client-go's constructors are parameters.
pub mod Limiter
use crypt_controller.Base.{
  ℕ, String, Bool, ◌&&◌, ◌==◌, string_eq, if◌then◌else◌, Option, none, some,
}
use crypt_controller.Base.Outcome.{Error, Result, ok, err, ◌>>=◌, Outcome, returned, panicked}
use crypt_controller.Kube.{GroupVersion}
use crypt_controller.Api.{scheme_group_version}
use crypt_controller.Client.{RestClient, Crypts}

-- The fields of `rest.Config` that are read or set; `Others` stands for the rest of them.
pub record Config (Limiter Qps Others : Type 0) : Type 0 where
  pub rate_limiter : Option Limiter
  pub qps : Qps
  pub burst : ℕ
  pub group_version : Option GroupVersion
  pub api_path : String
  pub user_agent : String
  pub others : Others

-- client-go: `rest`, `discovery` and `flowcontrol`.
pub record Library : Type 1 where
  pub Limiter : Type 0
  -- The limiters that have been made.
  pub Limiters : Type 0
  pub Qps : Type 0
  pub Others : Type 0
  pub Discovery : Type 0
  pub is_positive : Qps → Bool
  pub new_token_bucket : Qps → ℕ → Limiters → Limiter × Limiters
  pub default_user_agent : String
  pub rest_client_for : Config Limiter Qps Others → Result RestClient
  pub discovery_for : Config Limiter Qps Others → Result Discovery
  -- `discovery.NewDiscoveryClient`
  pub discovery_over : RestClient → Discovery

-- `NewForConfigOrDie` of the typed client and of `discovery`: a panic in place of an error.
abbrev pub or_die {ℓ} : {A : Type ℓ} → Result A → Outcome A
or_die (ok a) = returned a
or_die (err e) = panicked

module _ (L : Library) where
  abbrev pub Conf : Type 0
  Conf = Config L.Limiter L.Qps L.Others

  pub record Clientset : Type 1 where
    pub discovery_client : L.Discovery
    pub core_v1alpha1 : RestClient

  -- `setConfigDefaults`, which also sets the serializer.
  abbrev pub set_config_defaults : Conf → Conf
  set_config_defaults config = record config {
    group_version = some scheme_group_version;
    api_path = "/apis";
    user_agent = if config.user_agent == "" then L.default_user_agent else config.user_agent;
  }

  -- `NewForConfig` of the typed client, over a copy of its own.
  abbrev pub core_for_config : Conf → Result RestClient
  core_for_config c = L.rest_client_for (set_config_defaults c)

  -- A new limiter, where there is none and the rate is positive.
  abbrev pub with_limiter : Conf → L.Limiters → Conf × L.Limiters
  with_limiter c made = elim c.rate_limiter [
    | some limiter ↦ (c, made)
    | none ↦
        if L.is_positive c.qps
        then (
          record c { rate_limiter = some (L.new_token_bucket c.qps c.burst made).0 },
          (L.new_token_bucket c.qps c.burst made).1,
        )
        else (c, made)
  ]

  -- The two clients of one configuration.
  abbrev pub clients_of : Conf → Result Clientset
  clients_of c = do
    core ← core_for_config c
    discovery ← L.discovery_for c
    ok (record { discovery_client = discovery; core_v1alpha1 = core })

  -- `NewForConfig`, over the shallow copy of the configuration.
  unfoldable pub new_for_config : Conf → L.Limiters → Result Clientset × L.Limiters
  new_for_config c made = let limited = with_limiter c made in (clients_of limited.0, limited.1)

  -- `NewForConfigOrDie` of the typed client.
  abbrev pub core_for_config_or_die : Conf → Outcome RestClient
  core_for_config_or_die c = or_die (core_for_config c)

  -- `NewForConfigOrDie`, which sets no limiter.
  unfoldable pub new_for_config_or_die : Conf → Outcome Clientset
  new_for_config_or_die c = elim (core_for_config_or_die c) [
    | panicked ↦ panicked
    | returned core ↦ elim (or_die (L.discovery_for c)) [
      | panicked ↦ panicked
      | returned discovery ↦
          returned (record { discovery_client = discovery; core_v1alpha1 = core })
    ]
  ]

  -- `New` of the typed client is the client itself.
  unfoldable pub new : RestClient → Clientset
  new c = record { discovery_client = L.discovery_over c; core_v1alpha1 = c }

  -- `Discovery()` and `RESTClient()`, which stand a nil receiver.
  abbrev pub discovery : Option Clientset → Option L.Discovery
  discovery none = none
  discovery (some cs) = some cs.discovery_client

  abbrev pub rest_client : Option RestClient → Option RestClient
  rest_client none = none
  rest_client (some c) = some c

  -- `CoreV1alpha1().Crypts(namespace)`
  abbrev pub crypts : Clientset → String → Crypts
  crypts cs namespace = record { client = cs.core_v1alpha1; ns = namespace }
