-- ===== src/Tests/Protocol.antt =====
-- The headers and the commands of src/memcached/ at concrete bytes.
use probes.Prelude.{◌≡◌, refl, [], ◌∷◌, ◌++◌, some, returns, arith}
use probes.Prelude.Bytes.{be_bytes}
use probes.Prelude.Text.{text}
use probes.Memcached.Cursor.{cursor}
use probes.Memcached.Header
use probes.Memcached.Header.{MemcachedError, incomplete, other}
use probes.Memcached.Header.Layout.{Wire, IsWire, wire_bytes, header_of, at, parse-wire_bytes}
use probes.Memcached.Command.Set
use probes.Memcached.Command.Get
use probes.Memcached.Command.Decode.{decode, decode-set, decode-get}
use probes.Tests.Instances.{cursor_buf}

get_as_bytes :
    Get.as_bytes (Get.new (text "my_key"))
    ≡ 0x80
      ∷ 0
      ∷ 0
      ∷ 6
      ∷ 0
      ∷ 0
      ∷ 0
      ∷ 0
      ∷ 0
      ∷ 0
      ∷ 0
      ∷ 6
      ∷ 0
      ∷ 0
      ∷ 0
      ∷ 0
      ∷ 0
      ∷ 0
      ∷ 0
      ∷ 0
      ∷ 0
      ∷ 0
      ∷ 0
      ∷ 0
      ∷ text "my_key"
unfolding Get.as_bytes Get.new Header.as_bytes Header.new be_bytes
get_as_bytes = refl

set_as_bytes :
    Set.as_bytes (Set.new (text "my_key") (text "my_value") 300)
    ≡ 0x80
      ∷ 1
      ∷ 0
      ∷ 6
      ∷ 8
      ∷ 0
      ∷ 0
      ∷ 0
      ∷ 0
      ∷ 0
      ∷ 0
      ∷ 22
      ∷ 0
      ∷ 0
      ∷ 0
      ∷ 0
      ∷ 0
      ∷ 0
      ∷ 0
      ∷ 0
      ∷ 0
      ∷ 0
      ∷ 0
      ∷ 0
      ∷ 0
      ∷ 0
      ∷ 0
      ∷ 0
      ∷ 0
      ∷ 0
      ∷ 1
      ∷ 44
      ∷ text "my_keymy_value"
unfolding Set.as_bytes Set.new Header.as_bytes Header.new be_bytes
set_as_bytes = refl

-- An answer to a get: no error, 4 bytes of extras, no key, a body of 9 bytes.
abbrev answer : Wire
answer = record {
  opcode = 0;
  key_length = 0;
  extra_length = 4;
  data_type = 0;
  status = 0;
  total_body_length = 9;
  opaque = 0;
  cas = 1;
}

answer-IsWire : IsWire answer
answer-IsWire = record { key_u16 = omega arith; status_u16 = omega arith; body_u32 = omega arith }

parse-wire_bytes_example :
    Header.parse cursor_buf (cursor (wire_bytes answer ++ text "12"))
    ≡ returns (header_of answer, at (wire_bytes answer ++ text "12") 24)
parse-wire_bytes_example = parse-wire_bytes cursor_buf answer (text "12") answer-IsWire

decode-set_example :
    decode (Set.as_bytes (Set.new (text "key") (text "value") 300) ++ text "next")
    ≡ some (
      record {
        opcode = Set.set_opcode ∷ [];
        extras = be_bytes 4 0 ++ be_bytes 4 300;
        key = text "key";
        value = text "value";
      },
      text "next",
    )
decode-set_example =
    decode-set (text "key") (text "value") (text "next") 300 (omega arith) (omega arith)
      (omega arith)

decode-get_example :
    decode (Get.as_bytes (Get.new (text "key")) ++ text "next")
    ≡ some (
      record { opcode = Get.get_opcode ∷ []; extras = []; key = text "key"; value = [] },
      text "next",
    )
decode-get_example = decode-get (text "key") (text "next") (omega arith)
