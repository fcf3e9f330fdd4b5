-- ===== src/Memcached/Connection.antt =====
-- `Connection` and the errors of src/memcached/mod.rs.
-- The TCP stream is the environment: what its calls answer is a script, and what the code hands to it
-- is collected in `sent`. A script that has run out stands for a call that is not answered.
pub mod Parsing
pub mod Framing
pub mod Ending
use probes.Prelude.{ℕ, List, [], ◌∷◌, ◌++◌, Result, ok, err, Outcome, returns, panics, ◌>>=◌}
use probes.Prelude.Bytes.{Bytes}
use probes.Memcached.Cursor.{Cursor, Buf, cursor}
use probes.Memcached.Header.{MemcachedError, incomplete, other}
use probes.Memcached.Response
use probes.Memcached.Response.{Response}
use probes.Memcached.Command
use probes.Memcached.Command.{Command}

-- `std::io::Error`: which one it is does not matter to the code.
abbrev pub IoError : Type 0
IoError = ℕ

pub data MemcachedClientError : Type 0 where
  empty_or_incomplete_response : MemcachedClientError
  io : IoError → MemcachedClientError
  connection_reset : MemcachedClientError
  memcached_error : MemcachedError → MemcachedClientError
  timeout : MemcachedClientError

-- What awaiting a future gives: a value, or nothing for as long as one cares to wait.
pub data Poll {ℓ} (A : Type ℓ) : Type ℓ where
  ready : A → Poll A
  pending : Poll A

pub record Connection : Type 0 where
  pub sent : Bytes
  pub buffer : Bytes

unfoldable pub new : Connection
new = record { sent = []; buffer = [] }

-- What the stream answers to a `read_buf`: some bytes (none at the end of the stream), or an error.
pub data ReadEvent : Type 0 where
  received : Bytes → ReadEvent
  failed : IoError → ReadEvent

-- What the stream answers to `write_all` or `flush`.
pub data WriteEvent : Type 0 where
  written : WriteEvent
  refused : IoError → WriteEvent
  stalled : WriteEvent

pub record WriteScript : Type 0 where
  pub write_all : WriteEvent
  pub flush : WriteEvent

-- A `WriteEvent` awaited under `?`, and what is done after it.
then_write :
    WriteEvent
    → Connection × Poll (Result (Unit {0}) MemcachedClientError)
    → Connection
    → Connection × Poll (Result (Unit {0}) MemcachedClientError)
then_write written next c = next
then_write (refused e) next c = (c, ready (err (io e)))
then_write stalled next c = (c, pending)

unfoldable pub send_request :
    Connection → Command → WriteScript → Connection × Poll (Result (Unit {0}) MemcachedClientError)
unfolding then_write
send_request c cmd script =
    let c' : Connection = record c { sent = c.sent ++ Command.as_bytes cmd } in
    then_write script.write_all (then_write script.flush (c', ready (ok tt)) c') c

-- The `match` of `parse_response` on the verdict of `Response::check`.
after_check :
    Buf
    → Connection
    → Result ℕ MemcachedError × Cursor
    → Outcome (Result Response MemcachedError × Connection)
after_check src c (ok len, buf) = do
  (response, _) ← Response.parse src buf
  buffer ← src.advance_mut len c.buffer
  returns (ok response, record c { buffer = buffer })
after_check src c (err issue, buf) = returns (err issue, c)

unfoldable pub parse_response :
    Buf → Connection → Outcome (Result Response MemcachedError × Connection)
unfolding after_check
parse_response src c = do checked ← Response.check src (cursor c.buffer); after_check src c checked

-- Where a `read_response` has got to: its result, the connection, and what is left of the script.
pub record Reading : Type 0 where
  pub result : Poll (Result Response MemcachedClientError)
  pub connection : Connection
  pub left : List ReadEvent

-- The `match` of `read_response` on the result of `parse_response`; `more` is the arm that reads on.
after_parse :
    List ReadEvent
    → (Connection → Outcome Reading)
    → Result Response MemcachedError × Connection
    → Outcome Reading
after_parse left more (ok response, c) =
    returns (record { result = ready (ok response); connection = c; left = left })
after_parse left more (err incomplete, c) = more c
after_parse left more (err other, c) =
    returns (record { result = ready (err (memcached_error other)); connection = c; left = left })

-- Why a stream that has ended is an error: was anything received?
pub end_of_stream : Bytes → MemcachedClientError
end_of_stream [] = empty_or_incomplete_response
end_of_stream (b ∷ bs) = connection_reset

-- `read_buf` gave no byte.
at_end : List ReadEvent → Connection → Outcome Reading
unfolding end_of_stream
at_end left c =
    returns (record { result = ready (err (end_of_stream c.buffer)); connection = c; left = left })

unfoldable pub read_response : Buf → Connection → List ReadEvent → Outcome Reading
unfolding after_parse at_end
read_response src c [] =
    parse_response src c
    >>= after_parse [] (λ c'. returns (record { result = pending; connection = c'; left = [] }))
read_response src c (received [] ∷ events) =
    parse_response src c >>= after_parse (received [] ∷ events) (at_end events)
read_response src c (received (b ∷ bs) ∷ events) =
    parse_response src c
    >>= after_parse (received (b ∷ bs) ∷ events)
        (λ c'. read_response src (record c' { buffer = c'.buffer ++ b ∷ bs }) events)
read_response src c (failed e ∷ events) =
    parse_response src c
    >>= after_parse (failed e ∷ events)
        (λ c'. returns (record { result = ready (err (io e)); connection = c'; left = events }))
