-- ===== src/Memcached/Client.antt =====
-- `Client` of src/memcached/mod.rs: one probe is a set and a get, each under a timeout.
pub mod Accounting
pub mod Service
pub mod Failing
pub mod Polite
pub mod Panics
pub mod Verdict
pub mod Wire
use probes.Prelude.{
  ℕ, ◌*◌, ◌^◌, ◌==◌, if◌then◌else◌, List, [], ◌∷◌, ◌++◌, replicate, Option, none, some, Result, ok,
  err, Outcome, returns, panics, ◌>>=◌, unwrap,
}
use probes.Prelude.Bytes.{Bytes}
use probes.Prelude.Text.{Text, text}
use probes.Metrics.{MetricCall, inc_number_of_requests, observe_response_time}
use probes.Memcached.Cursor.{Buf}
use probes.Memcached.Response.{Response}
use probes.Memcached.Command.{Command, set, get}
use probes.Memcached.Command.Set
use probes.Memcached.Command.Get
use probes.Memcached.Connection
use probes.Memcached.Connection.{
  Connection, IoError, MemcachedClientError, io, timeout, Poll, ready, pending, ReadEvent,
  WriteScript, Reading, send_request, read_response,
}

abbrev pub key : Bytes
key = text "mempoke_key"

pub value : Bytes
value = replicate 1024 b'a'

abbrev pub ttl : ℕ
ttl = 300

-- `TIMEOUT`, 100 ms in nanoseconds.
abbrev pub timeout_nanos : ℕ
timeout_nanos = 100 * 10 ^ 6

abbrev pub status_table : List (ℕ × Text)
status_table =
    (0, text "NoError")
    ∷ (1, text "KeyNotFound")
    ∷ (2, text "KeyExists")
    ∷ (3, text "ValueTooLarge")
    ∷ (4, text "InvalidArguments")
    ∷ (5, text "ItemNotStored")
    ∷ (6, text "IncrDecrOnNonNumericValue")
    ∷ (129, text "UnknownCommand")
    ∷ (130, text "OutOfMemory")
    ∷ []

lookup_status : ℕ → List (ℕ × Text) → Option Text
lookup_status n [] = none
lookup_status n ((k, name) ∷ table) = if k == n then some name else lookup_status n table

-- `STATUS_CODE.get`
unfoldable pub status_code : ℕ → Option Text
unfolding lookup_status
status_code n = lookup_status n status_table

-- `unread` is what the stream has delivered and the client has not read.
pub record Client : Type 0 where
  pub cluster_name : Text
  pub addr : Text
  pub connection : Connection
  pub unread : List ReadEvent

-- `answer` is what `TcpStream::connect` gives.
unfoldable pub connect :
    Text → Text → Result (Unit {0}) IoError → Result Client MemcachedClientError
connect cluster_name addr (ok _) =
    ok (record {
      cluster_name = cluster_name;
      addr = addr;
      connection = Connection.new;
      unread = [];
    })
connect cluster_name addr (err e) = err (io e)

-- What the stream answers to one request before the deadline, and how long the request takes.
pub record Exchange : Type 0 where
  pub writes : WriteScript
  pub reads : List ReadEvent
  pub elapsed : ℕ

-- A method that has run: the client, the calls on the metrics, and the result.
pub record Ran {ℓ} (A : Type ℓ) : Type ℓ where
  pub client : Client
  pub calls : List MetricCall
  pub result : A

-- The arm for a response: count it under the name of its status, and observe its time.
count_response : Client → Text → ℕ → Response → Outcome (List MetricCall)
count_response c cmd_type elapsed result = do
  status ← unwrap (status_code result.header.status)
  returns (
      inc_number_of_requests c.cluster_name c.addr status cmd_type
      ∷ observe_response_time c.cluster_name c.addr cmd_type elapsed
      ∷ [])

-- The `match` on the result of `read_response`.
pub after_read :
    Client
    → Text
    → ℕ
    → Poll (Result Response MemcachedClientError)
    → Outcome (Ran (Poll (Result (Unit {0}) MemcachedClientError)))
after_read c cmd_type elapsed (ready (ok result)) = do
  calls ← count_response c cmd_type elapsed result
  returns (record { client = c; calls = calls; result = ready (ok tt) })
after_read c cmd_type elapsed (ready (err issue)) =
    returns (record { client = c; calls = []; result = ready (err issue) })
after_read c cmd_type elapsed pending =
    returns (record { client = c; calls = []; result = pending })

-- `?` on the result of `send_request`, and the rest of `handle_request`.
pub after_send :
    Buf
    → Client
    → Text
    → Exchange
    → Connection × Poll (Result (Unit {0}) MemcachedClientError)
    → Outcome (Ran (Poll (Result (Unit {0}) MemcachedClientError)))
after_send src c cmd_type ex (conn, ready (ok _)) = do
  reading ← read_response src conn (c.unread ++ ex.reads)
  after_read (record c { connection = reading.connection; unread = reading.left }) cmd_type
      ex.elapsed reading.result
after_send src c cmd_type ex (conn, ready (err e)) =
    returns (record { client = record c { connection = conn }; calls = []; result = ready (err e) })
after_send src c cmd_type ex (conn, pending) =
    returns (record { client = record c { connection = conn }; calls = []; result = pending })

unfoldable pub handle_request :
    Buf
    → Client
    → Text
    → Command
    → Exchange
    → Outcome (Ran (Poll (Result (Unit {0}) MemcachedClientError)))
unfolding after_send after_read count_response
handle_request src c cmd_type cmd ex =
    after_send src c cmd_type ex (send_request c.connection cmd ex.writes)

-- The `match` on the result under the timeout; what is still pending has run into it.
pub after_deadline :
    Text
    → Ran (Poll (Result (Unit {0}) MemcachedClientError))
    → Poll (Result (Unit {0}) MemcachedClientError)
    → Ran (Result (Unit {0}) MemcachedClientError)
after_deadline cmd_type r (ready result) = record {
  client = r.client;
  calls = r.calls;
  result = result;
}
after_deadline cmd_type r pending = record {
  client = r.client;
  calls =
      r.calls
      ++ observe_response_time r.client.cluster_name r.client.addr cmd_type timeout_nanos ∷ [];
  result = err timeout;
}

unfoldable pub handler_with_timeout :
    Buf
    → Client
    → Text
    → Command
    → Exchange
    → Outcome (Ran (Result (Unit {0}) MemcachedClientError))
unfolding after_deadline
handler_with_timeout src c cmd_type cmd ex = do
  r ← handle_request src c cmd_type cmd ex
  returns (after_deadline cmd_type r r.result)

unfoldable pub set_call :
    Buf → Client → Exchange → Outcome (Ran (Result (Unit {0}) MemcachedClientError))
set_call src c ex = handler_with_timeout src c (text "set") (set (Set.new key value ttl)) ex

unfoldable pub get_call :
    Buf → Client → Exchange → Outcome (Ran (Result (Unit {0}) MemcachedClientError))
get_call src c ex = handler_with_timeout src c (text "get") (get (Get.new key)) ex

-- The two exchanges of a probe; the second is used only if the first succeeds.
pub record ProbeScript : Type 0 where
  pub set_exchange : Exchange
  pub get_exchange : Exchange

-- `?` on the result of the set, and the get.
after_set :
    Buf
    → Exchange
    → Ran (Result (Unit {0}) MemcachedClientError)
    → Result (Unit {0}) MemcachedClientError
    → Outcome (Ran (Result (Unit {0}) MemcachedClientError))
after_set src ex r (ok _) = do
  r' ← get_call src r.client ex
  returns (record { client = r'.client; calls = r.calls ++ r'.calls; result = r'.result })
after_set src ex r (err e) = returns r

unfoldable pub probe :
    Buf → Client → ProbeScript → Outcome (Ran (Result (Unit {0}) MemcachedClientError))
unfolding after_set
probe src c script = do
  r ← set_call src c script.set_exchange
  after_set src script.get_exchange r r.result
