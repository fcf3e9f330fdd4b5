-- ===== src/Memcached/Command/Decode.antt =====
-- How a server reads a request of the binary protocol, written from the protocol's layout alone, and
-- that it reads back what src/memcached/command.rs wrote.
use probes.Prelude.{
  ℕ, ◌+◌, ◌%◌, ◌^◌, ◌<◌, ◌≡◌, refl, false, [], ◌∷◌, ◌++◌, append_assoc, length, take, drop,
  length-append, take-append_length, drop-append_length, drop-drop, append-nil, Option, none, some,
  ltb, if◌then◌else◌, arith, le→ltb,
}
use probes.Prelude.Bytes.{
  Bytes, be_bytes, be_value, bytes_eq, length-be_bytes, be_value-be_bytes_2, be_value-be_bytes_4,
  be_value_one,
}
use probes.Memcached.Header
use probes.Memcached.Command.Set
use probes.Memcached.Command.Get

pub record Request : Type 0 where
  pub opcode : Bytes
  pub extras : Bytes
  pub key : Bytes
  pub value : Bytes

-- The body of `total` bytes: extras, key, value.
split_body : Bytes → ℕ → ℕ → Bytes → Request
split_body opcode extra_length key_length body = record {
  opcode = opcode;
  extras = take extra_length body;
  key = take key_length (drop extra_length body);
  value = drop (extra_length + key_length) body;
}

-- One request off the front of the stream, and what follows it.
unfoldable pub decode : Bytes → Option (Request × Bytes)
unfolding split_body
decode bs =
    let key_length = be_value (take 2 (drop 2 bs)) in
    let extra_length = be_value (take 1 (drop 4 bs)) in
    let total = be_value (take 4 (drop 8 bs)) in
    let body = drop 24 bs in
    if ltb (length bs) 24
    then none
    else if bytes_eq (take 1 bs) (0x80 ∷ [])
    then (if ltb (length body) total
        then none
        else some (
          split_body (take 1 (drop 1 bs)) extra_length key_length (take total body),
          drop total body,
        ))
    else none

-- What `decode` finds behind a header that `Header.new` made.
decode-new :
    (opcode k e v : ℕ) (body rest : Bytes)
    → k < 2 ^ 16
    → k + e + v < 2 ^ 32
    → length body ≡ k + e + v
    → decode (Header.as_bytes (Header.new opcode k e v) ++ (body ++ rest))
      ≡ some (split_body (opcode ∷ []) e k body, rest)
unfolding decode Header.as_bytes Header.new be_bytes bytes_eq
decode-new opcode k e v body rest hk ht hb =
    let long : ltb (length (Header.as_bytes (Header.new opcode k e v) ++ (body ++ rest))) 24
        ≡ false =
      le→ltb (length (Header.as_bytes (Header.new opcode k e v) ++ (body ++ rest))) 24
        (omega arith) in
    let left : ltb (length (body ++ rest)) (k + e + v) ≡ false =
      le→ltb (length (body ++ rest)) (k + e + v) (omega (arith, length-append body rest)) in
    let total : (k + e + v) % 2 ^ 32 ≡ k + e + v = omega arith in
    rw (
      be_value-be_bytes_2 k hk,
      be_value_one e,
      total,
      be_value-be_bytes_4 (k + e + v) ht,
      long,
      left,
      take-append_length body rest _ hb,
      drop-append_length body rest _ hb,
    )

-- A `ttl` of 64 bits fills the two fields of a set request: no flags, and the expiration.
flags_and_expiration : (ttl : ℕ) → ttl < 2 ^ 32 → be_bytes 8 ttl ≡ be_bytes 4 0 ++ be_bytes 4 ttl
unfolding be_bytes
flags_and_expiration ttl h = ground arith

split_body_lem :
    (opcode extras key value : Bytes) (e k : ℕ)
    → length extras ≡ e
    → length key ≡ k
    → split_body opcode e k (extras ++ (key ++ value))
      ≡ record { opcode = opcode; extras = extras; key = key; value = value }
split_body_lem opcode extras key value e k he hk =
    unfold split_body in
    rw (
      take-append_length extras (key ++ value) e he,
      ← drop-drop e k (extras ++ (key ++ value)),
      drop-append_length extras (key ++ value) e he,
      take-append_length key value k hk,
      drop-append_length key value k hk,
    )

body_length :
    (key value : Bytes) (ttl : ℕ)
    → length (be_bytes 8 ttl ++ (key ++ value)) ≡ length key + 8 + length value
body_length key value ttl = omega (
  arith,
  length-append (be_bytes 8 ttl) (key ++ value),
  length-append key value,
  length-be_bytes 8 ttl,
)

-- A server that decodes what `Set::new(key, value, ttl)` puts on the wire, with any bytes behind it,
-- finds the opcode, no flags, the expiration `ttl`, the key and the value, and then those bytes; the
-- key fits its 16 bits, the body its 32 bits, and the ttl is below 2 ^ 32.
pub decode-set :
    (key value rest : Bytes) (ttl : ℕ)
    → length key < 2 ^ 16
    → length key + 8 + length value < 2 ^ 32
    → ttl < 2 ^ 32
    → decode (Set.as_bytes (Set.new key value ttl) ++ rest)
      ≡ some (
        record {
          opcode = Set.set_opcode ∷ [];
          extras = be_bytes 4 0 ++ be_bytes 4 ttl;
          key = key;
          value = value;
        },
        rest,
      )
decode-set key value rest ttl hk hb ht =
    let k : length key % 2 ^ 16 ≡ length key = omega arith in
    let v : length value % 2 ^ 32 ≡ length value = omega arith in
    unfold Set.as_bytes Set.new in
    rw (
      k,
      v,
      append_assoc,
      decode-new Set.set_opcode (length key) 8 (length value) (be_bytes 8 ttl ++ (key ++ value))
          rest hk hb (body_length key value ttl),
      split_body_lem (Set.set_opcode ∷ []) (be_bytes 8 ttl) key value 8 (length key)
          (length-be_bytes 8 ttl) refl,
      flags_and_expiration ttl ht,
    )

-- A server that decodes what `Get::new(key)` puts on the wire, with any bytes behind it, finds the
-- opcode, no extras, the key and no value, and then those bytes; the key fits its 16 bits.
pub decode-get :
    (key rest : Bytes)
    → length key < 2 ^ 16
    → decode (Get.as_bytes (Get.new key) ++ rest)
      ≡ some (record { opcode = Get.get_opcode ∷ []; extras = []; key = key; value = [] }, rest)
decode-get key rest hk =
    let k : length key % 2 ^ 16 ≡ length key = omega arith in
    unfold Get.as_bytes Get.new in
    rw (
      k,
      append_assoc,
      decode-new Get.get_opcode (length key) 0 0 key rest hk (omega arith) (omega arith),
      whole_key,
    )
  where
    whole_key :
        split_body (Get.get_opcode ∷ []) 0 (length key) key
        ≡ record { opcode = Get.get_opcode ∷ []; extras = []; key = key; value = [] }
    whole_key =
        rw append-nil at (split_body_lem (Get.get_opcode ∷ []) [] key [] 0 (length key) refl refl)
