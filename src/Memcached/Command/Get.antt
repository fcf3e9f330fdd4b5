-- ===== src/Memcached/Command/Get.antt =====
-- The `Get` command of src/memcached/command.rs.
use probes.Prelude.{ℕ, ◌++◌, ◌%◌, ◌^◌, length}
use probes.Prelude.Bytes.{Bytes}
use probes.Memcached.Header
use probes.Memcached.Header.{RequestHeader}

abbrev pub get_opcode : ℕ
get_opcode = 0

pub record Get : Type 0 where
  pub header : RequestHeader
  pub key : Bytes

unfoldable pub new : Bytes → Get
new key = record { header = Header.new get_opcode (length key % 2 ^ 16) 0 0; key = key }

unfoldable pub as_bytes : Get → Bytes
as_bytes g = Header.as_bytes g.header ++ g.key
