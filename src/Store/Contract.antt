-- ===== src/Store/Contract.antt =====
-- What the stores of pkg/store have in common: the objects that a store holds, by their keys.
use mathlib.Core.Path.{fun_ext}
use crypt_controller.Base.{
  String, ◌≡◌, refl, sym, ap, ◌∙◌, subst, Option, none, some, [], ◌∷◌, inl, inr, ◌==◌, string_eq,
  arith, Bool-cases, Option-cases,
}
use crypt_controller.Base.Dict.{Entries, lookup, index}
use crypt_controller.Base.Outcome.{
  Result, ok, err, key_not_found, invalid_data, ok-injective, err-ok, ◌>>=◌,
}
use crypt_controller.Kube.{Bytes}
use crypt_controller.Store.{Object, Store}
use crypt_controller.Store.Memory as Memory
use crypt_controller.Store.Consul as Consul

abbrev pub found_or_error : Option Object → Result Object
found_or_error none = err key_not_found
found_or_error (some o) = ok o

-- A store that holds these objects, and nothing else.
abbrev pub IsSourceOf : Entries Object → Store → Type 0
IsSourceOf contents s = (key : String) → s.get key ≡ found_or_error (lookup key contents)

-- A store is known by what it holds.
pub IsSourceOf-unique :
    (contents : Entries Object) (s t : Store)
    → IsSourceOf contents s
    → IsSourceOf contents t
    → s ≡ t
IsSourceOf-unique contents s t h k =
    ap {B = Store} (λ g. record { get = g }) (fun_ext (λ key. h key ∙ sym (k key)))

-- What `New` of a client-backed store gives, once the client is made.
new_lem :
    {C : Type 0} (P : Store → Type 0) (r : Result C) (get : C → String → Result Object) (s : Store)
    → ((client : C) → P (record { get = get client }))
    → (r >>= (λ client. ok (record { get = get client }))) ≡ ok s
    → P s
new_lem P (ok client) get s h e = subst P (ok-injective e) (h client)
new_lem P (err x) get s h e = absurd (err-ok e)

pub new-IsSourceOf_memory :
    (contents : Entries Object) (s : Store)
    → Memory.new (some contents) ≡ ok s
    → IsSourceOf contents s
unfolding Memory.new Memory.get index
new-IsSourceOf_memory contents s e = subst (IsSourceOf contents) (ok-injective e) held
  where
    held : (key : String) → Memory.get (some contents) key ≡ found_or_error (lookup key contents)
    held key = elim (Option-cases (lookup key contents)) [
      | inl none_there ↦ rw (Memory.get, none_there) refl
      | inr (o, there) ↦ rw (Memory.get, there) refl
    ]

-- The entries of a key-value server, each decoded; nothing if one cannot be.
module _ {V : Type 0} (decode : V → Result Object) where
  abbrev with_entry : String → Result Object → Option (Entries Object) → Option (Entries Object)
  with_entry k (ok o) (some rest) = some ((k, o) ∷ rest)
  with_entry k _ _ = none

  abbrev pub decode_all : Entries V → Option (Entries Object)
  decode_all [] = some []
  decode_all ((k, v) ∷ entries) = with_entry k (decode v) (decode_all entries)

  with_entry_lem :
      (k : String) (r : Result Object) (rest : Option (Entries Object)) (contents : Entries Object)
      → with_entry k r rest ≡ some contents
      → (o : Object) × (later : Entries Object) × (r ≡ ok o)
        × (rest ≡ some later)
        × ((k, o) ∷ later ≡ contents)
  with_entry_lem k (ok o) (some later) contents e = (o, later, refl, refl, ground (arith, e))
  with_entry_lem k (ok o) none contents e = absurd (ground (arith, e))
  with_entry_lem k (err x) rest contents e = absurd (ground (arith, e))

  -- `answer`: what a store makes of the entry under a key.
  module _ (answer : Option V → Result Object) (answers_none : answer none ≡ err key_not_found)
      (answers_some : (v : V) (o : Object) → decode v ≡ ok o → answer (some v) ≡ ok o) where
    answer-lookup :
        (entries : Entries V) (contents : Entries Object)
        → decode_all entries ≡ some contents
        → (key : String) → answer (lookup key entries) ≡ found_or_error (lookup key contents)
    unfolding lookup
    answer-lookup [] contents e key =
        subst (λ c. answer none ≡ found_or_error (lookup key c)) {x = []} {y = contents}
          (ground (arith, e)) answers_none
    answer-lookup ((k, v) ∷ entries) contents e key =
        let (o, later, made, rest, same) =
          with_entry_lem k (decode v) (decode_all entries) contents e in
        subst (λ c. answer (lookup key ((k, v) ∷ entries)) ≡ found_or_error (lookup key c)) same
          (elim (Bool-cases (key == k)) [
            | inl here ↦ rw (lookup, here) (answers_some v o made)
            | inr there ↦ rw (lookup, there) (answer-lookup entries later rest key)
          ])

-- Documented behaviour of `KV().Get`: the entries of the server.
abbrev pub KeepsPairs : (api : Consul.Api) → Entries Bytes → Type 0
KeepsPairs api raw =
    (client : api.Client) (key : String) → api.kv_get client key ≡ ok (lookup key raw)

module _ (api : Consul.Api) (unmarshal : Bytes → Result Object) where
  pair_answer : Option Bytes → Result Object
  pair_answer none = err key_not_found
  pair_answer (some v) = elim (unmarshal v) [ err e ↦ err invalid_data | ok o ↦ ok o ]

  get-pair_answer :
      (client : api.Client) (key : String) (pair : Option Bytes)
      → api.kv_get client key ≡ ok pair
      → Consul.get api unmarshal client key ≡ pair_answer pair
  unfolding Consul.get pair_answer
  get-pair_answer client key none h = rw (Consul.get, h) refl
  get-pair_answer client key (some v) h = rw (Consul.get, h) refl

  pub new-IsSourceOf_consul :
      (config : Option api.Config) (raw : Entries Bytes) (contents : Entries Object) (s : Store)
      → KeepsPairs api raw
      → decode_all unmarshal raw ≡ some contents
      → Consul.new api unmarshal config ≡ ok s
      → IsSourceOf contents s
  unfolding Consul.new pair_answer
  new-IsSourceOf_consul config raw contents s keeps all made =
      new_lem (IsSourceOf contents) _ (Consul.get api unmarshal) s
        (λ client key.
          get-pair_answer client key _ (keeps client key)
          ∙ answer-lookup unmarshal pair_answer refl (λ v o e. rw (pair_answer, e) refl) raw
              contents all key)
        made

  -- The Consul store over a server that keeps these pairs, each value of which decodes, is the store in
  -- memory that has the decoded objects: a key is found in both or in neither, under the same value, and
  -- one that is not found is the same error.
  pub new_consul-new_memory :
      (config : Option api.Config) (raw : Entries Bytes) (contents : Entries Object)
      (consul_store memory_store : Store)
      → KeepsPairs api raw
      → decode_all unmarshal raw ≡ some contents
      → Consul.new api unmarshal config ≡ ok consul_store
      → Memory.new (some contents) ≡ ok memory_store
      → consul_store ≡ memory_store
  new_consul-new_memory config raw contents s m keeps all made made' =
      IsSourceOf-unique contents s m (new-IsSourceOf_consul config raw contents s keeps all made)
        (new-IsSourceOf_memory contents m made')
