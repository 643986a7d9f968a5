-- ===== src/Store/Factory.antt =====
-- pkg/store/factory/factory.go. A text is the list of its runes.
--
-- `to_lower` is `unicode.ToLower` as far as the `switch` of `Make` can tell: the runes A to Z, U+0130
-- and U+212A are all that have an ASCII lower case, and every other rune stays outside ASCII or is
-- unchanged. `is_space` is `unicode.IsSpace`.
pub mod Trim
pub mod Laws
use Prim.Native.Char.{code}
use crypt_controller.Base.{
  ℕ, ◌+◌, String, Bool, ◌&&◌, ◌||◌, List, [], ◌∷◌, map, some, ◌==◌, nat_eq, if◌then◌else◌, leb,
  true, false,
}
use crypt_controller.Base.Outcome.{Result, err, invalid_store_type}
use crypt_controller.Kube.{Bytes}
use crypt_controller.Store.{Object, Store}
use crypt_controller.Store.Consul as Consul
use crypt_controller.Store.Vault as Vault

abbrev pub Runes : Type 0
Runes = List ℕ

abbrev pub codes : String → Runes
codes String.[] = []
codes (String.◌∷◌ c s) = code c ∷ codes s

unfoldable pub to_lower : ℕ → ℕ
to_lower c =
    if leb b'A' c && leb c b'Z'
    then c + 32
    else if c == 0x130
    then b'i'
    else if c == 0x212a
    then b'k'
    else c

unfoldable pub is_space : ℕ → Bool
is_space c =
    (leb 0x9 c && leb c 0xd)
    || c == 0x20
    || c == 0x85
    || c == 0xa0
    || c == 0x1680
    || (leb 0x2000 c && leb c 0x200a)
    || c == 0x2028
    || c == 0x2029
    || c == 0x202f
    || c == 0x205f
    || c == 0x3000

trim_left : Runes → Runes
trim_left [] = []
trim_left (c ∷ s) = let rest = trim_left s in if is_space c then rest else c ∷ s

-- A space is kept where something that is no space follows.
keep : ℕ → Runes → Runes
keep c [] = if is_space c then [] else c ∷ []
keep c (d ∷ s) = c ∷ d ∷ s

trim_right : Runes → Runes
trim_right [] = []
trim_right (c ∷ s) = keep c (trim_right s)

-- `strings.TrimSpace`
pub trim_space : Runes → Runes
unfolding trim_left trim_right keep
trim_space s = trim_right (trim_left s)

same : Runes → Runes → Bool
same [] [] = true
same (c ∷ s) (d ∷ t) = c == d && same s t
same _ _ = false

abbrev pub consul_store_type : Runes
consul_store_type = codes "consul"

abbrev pub vault_store_type : Runes
vault_store_type = codes "vault"

pub record Factory : Type 0 where
  pub config : String

unfoldable pub new_store_factory : String → Factory
new_store_factory config_file_path = record { config = config_file_path }

module _ (consul : Consul.Api) (unmarshal : Bytes → Result Object) (vault : Vault.Api) where
  -- The `switch` of `Make`, over the normalised name.
  choose : Runes → Result Store
  unfolding same
  choose name =
      if same name consul_store_type
      then Consul.new consul unmarshal (some consul.default_config)
      else if same name vault_store_type
      then Vault.new vault (some vault.default_config)
      else err invalid_store_type

  unfoldable pub make : Factory → Runes → Result Store
  unfolding choose trim_space to_lower is_space
  make f store_type = choose (trim_space (map to_lower store_type))
