-- ===== src/Tests/Instances.antt =====
-- Concrete functions for the parameters: a buffer, whole-number division, a table of counts, a JSON value.
use native.Mathlib.Nat.{mul-div_cancel}
use probes.Prelude.{
  ℕ, suc, ◌*◌, ◌/◌, ◌≤◌, ◌<◌, ◌^◌, ◌≡◌, refl, List, [], ◌∷◌, In, Option, none, some, true, leb, ltb,
  if◌then◌else◌, length, take, drop, Outcome, returns, panics, arith, inl, inr, Bool-cases,
}
use probes.Prelude.Bytes.{Bytes, be_value, bytes_eq, bytes_eq_refl}
use probes.Prelude.Float.{Float}
use probes.Prelude.Map
use probes.Prelude.Map.{Map}
use probes.Prelude.Text.{Text, text}
use probes.Metrics.{SeriesVec, labels_eq}
use probes.Memcached.Cursor.{Read, Buf, rest, skip}
use probes.Consul.Json.{Json}

-- Bytes off the front of the cursor, or a panic where they are too few.
taken : ℕ → Read Bytes
taken n c = if leb n (length (rest c)) then returns (take n (rest c), skip n c) else panics

number : ℕ → Read ℕ
number n c =
    if leb n (length (rest c)) then returns (be_value (take n (rest c)), skip n c) else panics

skipped : ℕ → Read (Unit {0})
skipped n c = if leb n (length (rest c)) then returns (tt, skip n c) else panics

advanced : ℕ → Bytes → Outcome Bytes
advanced n buffer = if leb n (length buffer) then returns (drop n buffer) else panics

pub leb-true : (m n : ℕ) → m ≤ n → leb m n ≡ true
leb-true m n h = ground arith

unfoldable pub cursor_buf : Buf
unfolding taken number skipped advanced
cursor_buf = record {
  remaining = λ c. length (rest c);
  copy_to_bytes = taken;
  get_u8 = number 1;
  get_u16 = number 2;
  get_u32 = number 4;
  advance = skipped;
  advance_mut = advanced;
  remaining_lem = λ c. refl;
  copy_to_bytes_lem = λ n c h. rw (leb-true n (length (rest c)) h);
  get_u8_lem = λ c h. rw (leb-true 1 (length (rest c)) h);
  get_u16_lem = λ c h. rw (leb-true 2 (length (rest c)) h);
  get_u32_lem = λ c h. rw (leb-true 4 (length (rest c)) h);
  advance_lem = λ n c h. rw (leb-true n (length (rest c)) h);
  advance_mut_lem = λ n b h. rw (leb-true n (length b) h);
}

-- Whole seconds.
abbrev pub whole_float : Float
whole_float = record {
  F64 = ℕ;
  of_u64 = λ n. n;
  div = λ m n. m / n;
  from_secs_f64 = λ n. some (n * 10 ^ 9);
  div_exact = λ m q h k. mul-div_cancel m h;
  secs_exact = λ m h. refl;
}

abbrev pub count_table : SeriesVec
count_table = record {
  Vec = List Text → ℕ;
  count = λ v ls. v ls;
  record_one = λ ls v ms. if labels_eq ls ms then suc (v ms) else v ms;
  remove_label_values = λ ls v ms. if labels_eq ls ms then 0 else v ms;
  count-record_one = λ ls ms v. refl;
  count-remove = λ ls ms v. refl;
}

-- A JSON value; arrays and objects are chains of their elements and fields.
pub data Value : Type 0 where
  null_value : Value
  string_value : Text → Value
  number_value : ℕ → Value
  empty_array : Value
  item : Value → Value → Value
  empty_object : Value
  field : Text → Value → Value → Value

unfoldable pub items : Value → List Value
items (item x more) = x ∷ items more
items _ = []

unfoldable pub fields : Value → Map Value
fields (field k x more) = (k, x) ∷ fields more
fields _ = []

unfoldable pub as_array : Value → Option (List Value)
as_array empty_array = some []
as_array (item x more) = some (x ∷ items more)
as_array _ = none

unfoldable pub as_object : Value → Option (Map Value)
as_object empty_object = some []
as_object (field k x more) = some ((k, x) ∷ fields more)
as_object _ = none

unfoldable pub as_str : Value → Option Text
as_str (string_value t) = some t
as_str _ = none

unfoldable pub as_u64 : Value → Option ℕ
as_u64 (number_value n) = if ltb n (2 ^ 64) then some n else none
as_u64 _ = none

unfoldable pub or_null : Option Value → Value
or_null (some x) = x
or_null none = null_value

unfoldable pub get_of : Option (Map Value) → Text → Value
get_of (some o) k = or_null (Map.get k o)
get_of none k = null_value

pub get-keys : (o : Map Value) (k : Text) → In k (Map.keys o) → (x : Value) × (Map.get k o ≡ some x)
unfolding Map.get
get-keys [] k h = absurd h
get-keys ((j, x) ∷ o) k (inl e) = (x, rw e (rw (bytes_eq_refl j, Map.get)))
get-keys ((j, x) ∷ o) k (inr h) = elim (Bool-cases (bytes_eq j k)) [
  | inl hit ↦ (x, rw (hit, Map.get))
  | inr miss ↦ let (y, e) = get-keys o k h in (y, rw (miss, Map.get) e)
]

pub as_u64_word : (v : Value) (n : ℕ) → as_u64 v ≡ some n → n < 2 ^ 64
unfolding as_u64
as_u64_word v n h = ground arith

-- The parser knows two documents: a catalog of services, and the nodes of a service.
abbrev pub catalog_text : Text
catalog_text = text "{\"web\":[\"probed\"],\"db\":[]}"

abbrev pub catalog : Value
catalog =
    field (text "web") (item (string_value (text "probed")) empty_array)
      (field (text "db") empty_array empty_object)

abbrev pub node_text : Text
node_text = text "[{\"ServiceAddress\":\"10.0.0.1\",\"ServicePort\":11213}]"

abbrev pub node_value : Value
node_value =
    field (text "ServiceAddress") (string_value (text "10.0.0.1"))
      (field (text "ServicePort") (number_value 11213) empty_object)

unfoldable pub from_str : Text → Option Value
from_str t =
    if bytes_eq t catalog_text
    then some catalog
    else if bytes_eq t node_text
    then some (item node_value empty_array)
    else none

unfoldable pub value_at : Value → Text → Value
unfolding get_of or_null
value_at v k = get_of (as_object v) k

pub value_at-object :
    (v : Value) (o : Map Value) (k : Text) (x : Value)
    → as_object v ≡ some o
    → Map.get k o ≡ some x
    → value_at v k ≡ x
unfolding value_at
value_at-object v o k x e f = rw (e, f)

pub null_is_no_array : as_array null_value ≡ none
unfolding as_array
null_is_no_array = refl

pub null_is_no_object : as_object null_value ≡ none
unfolding as_object
null_is_no_object = refl

abbrev pub simple_json : Json
simple_json = record {
  Value = Value;
  Object = Map Value;
  null = null_value;
  from_str = from_str;
  as_str = as_str;
  as_u64 = as_u64;
  as_array = as_array;
  as_object = as_object;
  object_keys = Map.keys;
  object_get = λ o k. Map.get k o;
  index = value_at;
  object_get-keys = get-keys;
  index-object = value_at-object;
  as_u64-lt = as_u64_word;
  null-as_array = null_is_no_array;
  null-as_object = null_is_no_object;
}
