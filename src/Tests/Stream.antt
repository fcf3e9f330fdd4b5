-- ===== src/Tests/Stream.antt =====
-- `Connection` of src/memcached/mod.rs at concrete streams.
use probes.Prelude.{◌-◌, ◌^◌, ◌≡◌, refl, [], ◌∷◌, ◌++◌, drop, ok, returns, arith}
use probes.Prelude.Bytes.{Bytes, be_bytes}
use probes.Prelude.Text.{text}
use probes.Memcached.Header.Layout.{Wire, wire_bytes}
use probes.Memcached.Response.Verdict.{verdict}
use probes.Memcached.Connection.{Connection, received, Reading, parse_response, read_response}
use probes.Memcached.Connection.Parsing.{parsed_as, parse_response-verdict, read_response-total}
use probes.Memcached.Connection.Framing.{IsFrame, response_of, Delivers, read_response-frame}
use probes.Memcached.Connection.Ending.{parse_response-wraps}
use probes.Tests.Instances.{cursor_buf}

abbrev stored : Wire
stored = record {
  opcode = 1;
  key_length = 0;
  extra_length = 0;
  data_type = 0;
  status = 5;
  total_body_length = 3;
  opaque = 0;
  cas = 7;
}

abbrev body : Bytes
body = text "abc"

pub stored-IsFrame : IsFrame stored body
stored-IsFrame = record {
  wire = record { key_u16 = omega arith; status_u16 = omega arith; body_u32 = omega arith };
  announced = refl;
  small = omega arith;
}

-- The header as the server sends it, in two parts.
abbrev front : Bytes
front = 0x81 ∷ 1 ∷ 0 ∷ 0 ∷ 0 ∷ []

abbrev back : Bytes
back = 0 ∷ 0 ∷ 5 ∷ 0 ∷ 0 ∷ 0 ∷ 3 ∷ 0 ∷ 0 ∷ 0 ∷ 0 ∷ 0 ∷ 0 ∷ 0 ∷ 0 ∷ 0 ∷ 0 ∷ 0 ∷ 7 ∷ []

abbrev waiting_part : Connection
waiting_part = record { sent = text "sent"; buffer = front }

parse_response-verdict_example :
    parse_response cursor_buf waiting_part ≡ returns (parsed_as (verdict front) waiting_part)
parse_response-verdict_example = parse_response-verdict cursor_buf waiting_part

read_response-total_example :
    (r : Reading) × (read_response cursor_buf waiting_part (received back ∷ received body ∷ [])
      ≡ returns r)
read_response-total_example =
    read_response-total cursor_buf waiting_part (received back ∷ received body ∷ [])

-- The response in three chunks, the last of which begins the next response.
read_response-frame_example :
    Delivers cursor_buf stored (0x81 ∷ []) waiting_part (back ∷ (body ++ 0x81 ∷ []) ∷ [])
read_response-frame_example =
    read_response-frame cursor_buf stored body (0x81 ∷ []) waiting_part
      (back ∷ (body ++ 0x81 ∷ []) ∷ []) stored-IsFrame (cc, (cc, tt))
      (unfold wire_bytes be_bytes in refl)

abbrev cut_off : Connection
cut_off = record waiting_part { buffer = front ++ back }

-- A body of 2 ^ 32 - 20 bytes is announced, and two bytes have come.
abbrev huge : Wire
huge = record stored { total_body_length = 2 ^ 32 - 20 }

parse_response-wraps_example :
    parse_response cursor_buf (record { sent = []; buffer = wire_bytes huge ++ text "ab" })
    ≡ returns (
      ok (response_of huge),
      record { sent = []; buffer = drop 4 (wire_bytes huge ++ text "ab") },
    )
parse_response-wraps_example =
    parse_response-wraps cursor_buf huge (text "ab")
      (record { sent = []; buffer = wire_bytes huge ++ text "ab" })
      (record { key_u16 = omega arith; status_u16 = omega arith; body_u32 = omega arith })
      (omega arith) refl
