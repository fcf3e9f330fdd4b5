-- ===== src/Memcached/Header.antt =====
-- src/memcached/header.rs: the headers of the memcached binary protocol.
-- A `u8` is a number, an array of bytes is a list; `to_be_bytes` is `be_bytes` of the width.
pub mod Layout
use probes.Prelude.{
  ℕ, ◌+◌, ◌%◌, ◌^◌, not, List, [], ◌∷◌, ◌++◌, ltb, if◌then◌else◌, Result, ok, err, returns, Outcome,
}
use probes.Prelude.Bytes.{Bytes, be_bytes, bytes_eq}
use probes.Memcached.Cursor.{Cursor, Read, Buf, pure, set_position, ◌>>=◌, ◌>>◌}

pub data MemcachedError : Type 0 where
  incomplete other : MemcachedError

abbrev pub header_size : ℕ
header_size = 24

abbrev pub request_packet : ℕ
request_packet = 128

abbrev pub data_type_raw : ℕ
data_type_raw = 0

abbrev pub reserved_raw : ℕ
reserved_raw = 0

abbrev pub opaque_raw : ℕ
opaque_raw = 0

abbrev pub cas_raw : ℕ
cas_raw = 0

pub record RequestHeader : Type 0 where
  pub magic : ℕ
  pub opcode : ℕ
  pub key_length : Bytes
  pub extra_length : ℕ
  pub data_type : ℕ
  pub reserved : Bytes
  pub total_body_length : Bytes
  pub opaque : Bytes
  pub cas : Bytes

-- The sum of the lengths is a `u32`.
unfoldable pub new : ℕ → ℕ → ℕ → ℕ → RequestHeader
new opcode key_length extra_length value_length = record {
  magic = request_packet;
  opcode = opcode;
  key_length = be_bytes 2 key_length;
  extra_length = extra_length;
  data_type = data_type_raw;
  reserved = be_bytes 2 reserved_raw;
  total_body_length = be_bytes 4 ((key_length + extra_length + value_length) % 2 ^ 32);
  opaque = be_bytes 4 opaque_raw;
  cas = be_bytes 8 cas_raw;
}

unfoldable pub as_bytes : RequestHeader → Bytes
as_bytes h =
    h.magic
    ∷ h.opcode
    ∷ (h.key_length
        ++ h.extra_length
          ∷ h.data_type
          ∷ (h.reserved ++ (h.total_body_length ++ (h.opaque ++ h.cas))))

pub record ResponseHeader : Type 0 where
  pub magic : Bytes
  pub opcode : Bytes
  pub key_length : ℕ
  pub extra_length : ℕ
  pub data_type : Bytes
  pub status : ℕ
  pub total_body_length : ℕ
  pub opaque : Bytes
  pub cas : Bytes

-- The bytes of `b"\x81"`.
abbrev pub response_magic : Bytes
response_magic = 0x81 ∷ []

unfoldable pub parse : Buf → Read ResponseHeader
parse src = do
  magic ← src.copy_to_bytes 1
  opcode ← src.copy_to_bytes 1
  key_length ← src.get_u16
  extra_length ← src.get_u8
  data_type ← src.copy_to_bytes 1
  status ← src.get_u16
  total_body_length ← src.get_u32
  opaque ← src.copy_to_bytes 4
  cas ← src.copy_to_bytes 8
  pure (record {
    magic = magic;
    opcode = opcode;
    key_length = key_length;
    extra_length = extra_length;
    data_type = data_type;
    status = status;
    total_body_length = total_body_length;
    opaque = opaque;
    cas = cas;
  })

-- The rest of `check`, once the magic byte is right.
body_size : Buf → Read (Result ℕ MemcachedError)
body_size src = do
  src.advance 7
  total_body_size ← src.get_u32
  let total_len = (header_size + total_body_size) % 2 ^ 32
  set_position 0
  pure (ok total_len)

-- The rest of `check`, once there are enough bytes.
magic_and_size : Buf → Read (Result ℕ MemcachedError)
unfolding body_size
magic_and_size src = do
  magic ← src.copy_to_bytes 1
  if not (bytes_eq magic response_magic) then pure (err other) else body_size src

unfoldable pub check : Buf → Read (Result ℕ MemcachedError)
unfolding magic_and_size
check src c =
    if ltb (src.remaining c) header_size then returns (err incomplete, c) else magic_and_size src c
