-- ===== src/Memcached/Command/Set.antt =====
-- The `Set` command of src/memcached/command.rs.
use probes.Prelude.{ℕ, ◌++◌, ◌%◌, ◌^◌, length}
use probes.Prelude.Bytes.{Bytes, be_bytes}
use probes.Memcached.Header
use probes.Memcached.Header.{RequestHeader}

abbrev pub set_extra_len : ℕ
set_extra_len = 8

abbrev pub set_opcode : ℕ
set_opcode = 1

pub record Set : Type 0 where
  pub header : RequestHeader
  pub key : Bytes
  pub value : Bytes
  pub extra_field : Bytes

-- `ttl` is a `u64`; the lengths are cut to `u16` and `u32`.
unfoldable pub new : Bytes → Bytes → ℕ → Set
new key value ttl = record {
  header = Header.new set_opcode (length key % 2 ^ 16) set_extra_len (length value % 2 ^ 32);
  key = key;
  value = value;
  extra_field = be_bytes 8 ttl;
}

unfoldable pub as_bytes : Set → Bytes
as_bytes s = Header.as_bytes s.header ++ (s.extra_field ++ (s.key ++ s.value))
