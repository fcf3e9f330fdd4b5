-- ===== src/Consul/Json.antt =====
-- What src/consul/mod.rs uses of the crate `serde_json`: the accessors of a value, the keys and the
-- lookup of an object, and the parser. The crate is a parameter, with what it documents of these.
use probes.Prelude.{ℕ, ◌^◌, ◌<◌, ◌≡◌, List, In, Option, none, some}
use probes.Prelude.Text.{Text}

pub record Json : Type 1 where
  pub Value : Type 0
  pub Object : Type 0
  pub null : Value
  pub from_str : Text → Option Value
  pub as_str : Value → Option Text
  pub as_u64 : Value → Option ℕ
  pub as_array : Value → Option (List Value)
  pub as_object : Value → Option Object
  pub object_keys : Object → List Text
  pub object_get : Object → Text → Option Value
  -- `value[key]`
  pub index : Value → Text → Value
  pub object_get-keys :
      (o : Object) (k : Text) → In k (object_keys o) → (x : Value) × (object_get o k ≡ some x)
  pub index-object :
      (v : Value) (o : Object) (k : Text) (x : Value)
      → as_object v ≡ some o
      → object_get o k ≡ some x
      → index v k ≡ x
  pub as_u64-lt : (v : Value) (n : ℕ) → as_u64 v ≡ some n → n < 2 ^ 64
  pub null-as_array : as_array null ≡ none
  pub null-as_object : as_object null ≡ none
