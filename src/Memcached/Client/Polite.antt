-- ===== src/Memcached/Client/Polite.antt =====
-- What one request of src/memcached/mod.rs leaves for the next one on the same connection.
use probes.Prelude.{
  ◌≡◌, ◌≢◌, refl, List, [], ◌++◌, concat, All, Option-cases, Result, ok, err, Outcome-cases, inl,
  inr,
}
use probes.Prelude.Bytes.{Bytes}
use probes.Prelude.Text.{Text}
use probes.Memcached.Cursor.{Buf}
use probes.Memcached.Header.Layout.{Wire}
use probes.Memcached.Command
use probes.Memcached.Command.{Command}
use probes.Memcached.Connection.{Connection, MemcachedClientError, ReadEvent, written, send_request}
use probes.Memcached.Connection.Framing.{IsFrame, chunks_of}
use probes.Memcached.Connection.Ending.{IsCut}
use probes.Memcached.Client.{
  Client, Exchange, ProbeScript, Ran, status_code, handle_request, handler_with_timeout, after_send,
  set_call, get_call, probe, after_set,
}
use probes.Memcached.Client.Service.{
  Answers, IsIdle, after_request, request_answered, request_unknown_status,
}
use probes.Memcached.Client.Failing.{
  Breaks, Returned, Returned-eq, Gives, accepts, send_request-Fails, Failed, after_send-Failed,
  read-cut, after_read-Failed, after_deadline-err,
}

-- A server that answers with one response, or with less: the request may also not reach it.
pub data Polite (ex : Exchange) : Type 0 where
  whole : (w : Wire) → Answers ex w → Polite ex
  unsent : ex.writes ≢ record { write_all = written; flush = written } → Polite ex
  cut :
      (w : Wire) (body missing : Bytes) (chunks : List Bytes) (rest : List ReadEvent)
      → ex.writes ≡ record { write_all = written; flush = written }
      → IsFrame w body
      → All (λ xs. xs ≢ []) chunks
      → IsCut w body (concat chunks) missing
      → ex.reads ≡ chunks_of chunks ++ rest
      → Breaks rest
      → Polite ex

-- Where a request succeeds, the client is idle again.
abbrev pub IdleIfOk : Ran (Result (Unit {0}) MemcachedClientError) → Type 0
IdleIfOk r = r.result ≡ ok tt → IsIdle r.client

after_request-IsIdle : (c : Client) (cmd : Command) → IsIdle (after_request c cmd)
after_request-IsIdle c cmd = record { no_bytes = refl; none_unread = refl }

module _ (src : Buf) (c : Client) (t : Text) (cmd : Command) (ex : Exchange) where
  pub unsent-Failed : ex.writes ≢ accepts → Gives Failed (handle_request src c t cmd ex)
  unfolding handle_request
  unsent-Failed h =
      after_send-Failed src c t ex (send_request c.connection cmd ex.writes)
        (send_request-Fails ex.writes c.connection cmd h)

  pub cut-Failed :
      (w : Wire) (body missing : Bytes) (chunks : List Bytes) (rest : List ReadEvent)
      → IsIdle c
      → ex.writes ≡ accepts
      → IsFrame w body
      → All (λ xs. xs ≢ []) chunks
      → IsCut w body (concat chunks) missing
      → ex.reads ≡ chunks_of chunks ++ rest
      → Breaks rest
      → Gives Failed (handle_request src c t cmd ex)
  unfolding handle_request send_request after_send accepts
  cut-Failed w body missing chunks rest idle sent f full part e breaks =
      let conn : Connection = record {
        sent = c.connection.sent ++ Command.as_bytes cmd;
        buffer = [];
      } in
      let (r, read, fails) = read-cut src w body missing conn chunks rest f full part breaks in
      rw (sent, idle.none_unread, idle.no_bytes, e)
        (rw read (
          after_read-Failed (record c { connection = r.connection; unread = r.left }) t ex.elapsed
            r.result fails))

  Failed-IdleIfOk :
      Gives Failed (handle_request src c t cmd ex)
      → Returned IdleIfOk (handler_with_timeout src c t cmd ex)
  unfolding handler_with_timeout
  Failed-IdleIfOk h = elim (Outcome-cases (handle_request src c t cmd ex)) [
    | inl p ↦ absurd (rw p at h)
    | inr (r, e) ↦ rw e (λ good. absurd (after_deadline-err t r r.result tt (rw e at h) good))
  ]

  -- A request with nothing unread before it, of a server that answers with one response or less, leaves
  -- nothing unread where it succeeds.
  pub handler_with_timeout-IdleIfOk :
      IsIdle c → Polite ex → Returned IdleIfOk (handler_with_timeout src c t cmd ex)
  unfolding accepts
  handler_with_timeout-IdleIfOk idle (whole w a) = elim (Option-cases (status_code w.status)) [
    | inl unknown ↦ rw (request_unknown_status src c t cmd ex w idle a unknown) tt
    | inr (status, known) ↦
        rw (request_answered src c t cmd ex w status idle a known)
          (λ good. after_request-IsIdle c cmd)
  ]
  handler_with_timeout-IdleIfOk idle (unsent h) = Failed-IdleIfOk (unsent-Failed h)
  handler_with_timeout-IdleIfOk idle (cut w body missing chunks rest sent f full part e breaks) =
      Failed-IdleIfOk (cut-Failed w body missing chunks rest idle sent f full part e breaks)

-- Both exchanges of a probe are with such a server.
pub record PoliteProbe (script : ProbeScript) : Type 0 where
  pub to_set : Polite script.set_exchange
  pub to_get : Polite script.get_exchange

module _ (src : Buf) (c : Client) (script : ProbeScript) where
  after_set-IdleIfOk :
      (r : Ran (Result (Unit {0}) MemcachedClientError))
      (o : Result (Unit {0}) MemcachedClientError)
      → r.result ≡ o
      → IdleIfOk r
      → Polite script.get_exchange
      → Returned IdleIfOk (after_set src script.get_exchange r o)
  unfolding after_set get_call
  after_set-IdleIfOk r (err x) same h polite = h
  after_set-IdleIfOk r (ok u) same h polite =
      elim (Outcome-cases (get_call src r.client script.get_exchange)) [
        | inl p ↦ rw p tt
        | inr (r', e) ↦ rw e (
            Returned-eq IdleIfOk (get_call src r.client script.get_exchange) e
              (handler_with_timeout-IdleIfOk src r.client _ _ script.get_exchange (h same) polite))
      ]

  -- A probe leaves the client with nothing unread where it succeeds.
  pub probe-IdleIfOk : IsIdle c → PoliteProbe script → Returned IdleIfOk (probe src c script)
  unfolding probe set_call
  probe-IdleIfOk idle polite = elim (Outcome-cases (set_call src c script.set_exchange)) [
    | inl p ↦ rw p tt
    | inr (r, e) ↦ rw e (
        after_set-IdleIfOk r r.result refl
          (Returned-eq IdleIfOk (set_call src c script.set_exchange) e
            (handler_with_timeout-IdleIfOk src c _ _ script.set_exchange idle polite.to_set))
          polite.to_get)
  ]
