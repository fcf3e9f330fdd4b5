-- ===== src/Tests/Requests.antt =====
-- `Client` of src/memcached/mod.rs at concrete exchanges.
use probes.Prelude.{◌↔◌, ℕ, ◌≡◌, refl, [], ◌∷◌, Result, ok, panics, arith}
use probes.Prelude.Bytes.{be_bytes}
use probes.Prelude.Text.{text}
use probes.Metrics.{inc_number_of_requests, observe_response_time}
use probes.Memcached.Header.Layout.{Wire, wire_bytes}
use probes.Memcached.Connection.{MemcachedClientError, received, written}
use probes.Memcached.Connection.Framing.{IsFrame}
use probes.Memcached.Client.{Client, Exchange, ProbeScript, Ran, status_code, handler_with_timeout}
use probes.Memcached.Client.Accounting.{ProbeAccounts, probe-Accounts}
use probes.Memcached.Client.Panics.{HasUnknownStatus, handler_with_timeout-panics}
use probes.Memcached.Client.Service.{
  Answers, IsIdle, after_request, set_command, get_command, probe_answered,
}
use probes.Tests.Instances.{cursor_buf}

abbrev pub client : Client
client = record {
  cluster_name = text "cluster";
  addr = text "10.0.0.1:11213";
  connection = record { sent = []; buffer = [] };
  unread = [];
}

client-IsIdle : IsIdle client
client-IsIdle = record { no_bytes = refl; none_unread = refl }

-- An answer with a status and no body.
abbrev pub answer_of : ℕ → Wire
answer_of status = record {
  opcode = 1;
  key_length = 0;
  extra_length = 0;
  data_type = 0;
  status = status;
  total_body_length = 0;
  opaque = 0;
  cas = 0;
}

-- The bytes of the answer in two chunks.
abbrev pub exchange_of : ℕ → Exchange
exchange_of status = record {
  writes = record { write_all = written; flush = written };
  reads =
      received (0x81 ∷ 1 ∷ 0 ∷ 0 ∷ [])
      ∷ received
          (0 ∷ 0 ∷ 0 ∷ status ∷ 0 ∷ 0 ∷ 0 ∷ 0 ∷ 0 ∷ 0 ∷ 0 ∷ 0 ∷ 0 ∷ 0 ∷ 0 ∷ 0 ∷ 0 ∷ 0 ∷ 0 ∷ 0 ∷ [])
      ∷ [];
  elapsed = 1500;
}

pub not_found-IsFrame : IsFrame (answer_of 1) []
not_found-IsFrame = record {
  wire = record { key_u16 = omega arith; status_u16 = omega arith; body_u32 = omega arith };
  announced = refl;
  small = omega arith;
}

pub answered_not_found : Answers (exchange_of 1) (answer_of 1)
answered_not_found = record {
  body = [];
  chunks =
      (0x81 ∷ 1 ∷ 0 ∷ 0 ∷ [])
      ∷ (0 ∷ 0 ∷ 0 ∷ 1 ∷ 0 ∷ 0 ∷ 0 ∷ 0 ∷ 0 ∷ 0 ∷ 0 ∷ 0 ∷ 0 ∷ 0 ∷ 0 ∷ 0 ∷ 0 ∷ 0 ∷ 0 ∷ 0 ∷ [])
      ∷ [];
  whole = not_found-IsFrame;
  full = (cc, (cc, tt));
  arrives = unfold wire_bytes be_bytes in refl;
  accepted = refl;
  reads = refl;
}

answered_busy : Answers (exchange_of 0x85) (answer_of 0x85)
answered_busy = record {
  body = [];
  chunks =
      (0x81 ∷ 1 ∷ 0 ∷ 0 ∷ [])
      ∷ (0 ∷ 0 ∷ 0 ∷ 0x85 ∷ 0 ∷ 0 ∷ 0 ∷ 0 ∷ 0 ∷ 0 ∷ 0 ∷ 0 ∷ 0 ∷ 0 ∷ 0 ∷ 0 ∷ 0 ∷ 0 ∷ 0 ∷ 0 ∷ [])
      ∷ [];
  whole = record {
    wire = record { key_u16 = omega arith; status_u16 = omega arith; body_u32 = omega arith };
    announced = refl;
    small = omega arith;
  };
  full = (cc, (cc, tt));
  arrives = unfold wire_bytes be_bytes in refl;
  accepted = refl;
  reads = refl;
}

-- 0x85, the status "busy" of the protocol, is not in the table.
handler_with_timeout-panics_example :
    (handler_with_timeout cursor_buf client (text "get") get_command (exchange_of 0x85) ≡ panics)
    ↔ HasUnknownStatus cursor_buf client (text "get") get_command (exchange_of 0x85)
handler_with_timeout-panics_example =
    handler_with_timeout-panics cursor_buf client (text "get") get_command (exchange_of 0x85)

abbrev script : ProbeScript
script = record { set_exchange = exchange_of 1; get_exchange = exchange_of 1 }

abbrev after_probe : Ran (Result (Unit {0}) MemcachedClientError)
after_probe = record {
  client = after_request (after_request client set_command) get_command;
  calls =
      inc_number_of_requests (text "cluster") (text "10.0.0.1:11213") (text "KeyNotFound")
        (text "set")
      ∷ observe_response_time (text "cluster") (text "10.0.0.1:11213") (text "set") 1500
      ∷ inc_number_of_requests (text "cluster") (text "10.0.0.1:11213") (text "KeyNotFound")
          (text "get")
      ∷ observe_response_time (text "cluster") (text "10.0.0.1:11213") (text "get") 1500
      ∷ [];
  result = ok tt;
}

probe-Accounts_example : ProbeAccounts cursor_buf client script after_probe
probe-Accounts_example = probe-Accounts cursor_buf client script (
    probe_answered cursor_buf client script (answer_of 1) (answer_of 1) (text "KeyNotFound")
      (text "KeyNotFound") client-IsIdle answered_not_found answered_not_found
      (unfold status_code in refl) (unfold status_code in refl))
