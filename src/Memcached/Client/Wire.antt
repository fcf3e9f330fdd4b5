-- ===== src/Memcached/Client/Wire.antt =====
-- What the requests of src/memcached/mod.rs put on the wire.
use probes.Prelude.{
  ◌≡◌, refl, ap, ◌∙◌, ◌++◌, append_assoc, Result, ok, err, Outcome-cases, inl, inr,
}
use probes.Prelude.Bytes.{Bytes}
use probes.Prelude.Text.{Text, text}
use probes.Memcached.Cursor.{Buf}
use probes.Memcached.Response.{Response}
use probes.Memcached.Command
use probes.Memcached.Command.{Command}
use probes.Memcached.Connection.{
  Connection, MemcachedClientError, Poll, ready, pending, WriteEvent, written, refused, stalled,
  send_request,
}
use probes.Memcached.Connection.Parsing.{read_response-sent}
use probes.Memcached.Client.{
  Client, Exchange, ProbeScript, Ran, count_response, after_read, after_send, after_deadline,
  handle_request, handler_with_timeout, set_call, get_call, after_set, probe,
}
use probes.Memcached.Client.Service.{set_command, get_command}
use probes.Memcached.Client.Failing.{Returned, Returned-eq}

-- Where it succeeds, just these bytes have gone out behind those before.
abbrev SentIfReady : Bytes → Ran (Poll (Result (Unit {0}) MemcachedClientError)) → Type 0
SentIfReady bytes r = r.result ≡ ready (ok tt) → r.client.connection.sent ≡ bytes

abbrev pub SentIfOk : Bytes → Ran (Result (Unit {0}) MemcachedClientError) → Type 0
SentIfOk bytes r = r.result ≡ ok tt → r.client.connection.sent ≡ bytes

module _ (src : Buf) (c : Client) (t : Text) (cmd : Command) (ex : Exchange) where
  abbrev sent_after : Bytes
  sent_after = c.connection.sent ++ Command.as_bytes cmd

  after_read-Sent :
      (c' : Client) (p : Poll (Result Response MemcachedClientError))
      → c'.connection.sent ≡ sent_after
      → Returned (SentIfReady sent_after) (after_read c' t ex.elapsed p)
  unfolding after_read
  after_read-Sent c' (ready (ok r)) e = elim (Outcome-cases (count_response c' t ex.elapsed r)) [
    | inl p ↦ rw p tt
    | inr (calls, q) ↦ rw q (λ good. e)
  ]
  after_read-Sent c' (ready (err x)) e = λ good. e
  after_read-Sent c' pending e = λ good. e

  after_send-Sent :
      (conn : Connection) (p : Poll (Result (Unit {0}) MemcachedClientError))
      → (p ≡ ready (ok tt) → conn.sent ≡ sent_after)
      → Returned (SentIfReady sent_after) (after_send src c t ex (conn, p))
  unfolding after_send
  after_send-Sent conn (ready (ok _)) h =
      let (r, e, same) = read_response-sent src conn (c.unread ++ ex.reads) in
      rw e (
        after_read-Sent (record c { connection = r.connection; unread = r.left }) r.result
          (same ∙ h refl))
  after_send-Sent conn (ready (err x)) h = λ good. absurd (cc)
  after_send-Sent conn pending h = λ good. absurd (cc)

  send_request-Sent :
      (send_request c.connection cmd ex.writes).1 ≡ ready (ok tt)
      → (send_request c.connection cmd ex.writes).0.sent ≡ sent_after
  unfolding send_request
  send_request-Sent = by_answers ex.writes.write_all ex.writes.flush
    where
      by_answers :
          (a f : WriteEvent)
          → (send_request c.connection cmd (record { write_all = a; flush = f })).1 ≡ ready (ok tt)
          → (send_request c.connection cmd (record { write_all = a; flush = f })).0.sent
            ≡ sent_after
      by_answers written written e = refl
      by_answers written (refused x) e = absurd (cc)
      by_answers written stalled e = absurd (cc)
      by_answers (refused x) f e = absurd (cc)
      by_answers stalled f e = absurd (cc)

  handle_request-Sent : Returned (SentIfReady sent_after) (handle_request src c t cmd ex)
  unfolding handle_request
  handle_request-Sent =
      after_send-Sent (send_request c.connection cmd ex.writes).0
        (send_request c.connection cmd ex.writes).1 send_request-Sent

  deadline-Sent :
      (r : Ran (Poll (Result (Unit {0}) MemcachedClientError)))
      (p : Poll (Result (Unit {0}) MemcachedClientError))
      → r.result ≡ p
      → SentIfReady sent_after r
      → SentIfOk sent_after (after_deadline t r p)
  unfolding after_deadline
  deadline-Sent r (ready o) e h good = h (e ∙ ap ready good)
  deadline-Sent r pending e h good = absurd (cc)

  -- A request that succeeds has sent just its command, whatever the stream does.
  pub handler_with_timeout-Sent :
      Returned (SentIfOk sent_after) (handler_with_timeout src c t cmd ex)
  unfolding handler_with_timeout
  handler_with_timeout-Sent = elim (Outcome-cases (handle_request src c t cmd ex)) [
    | inl p ↦ rw p tt
    | inr (r, e) ↦ rw e (
        deadline-Sent r r.result refl (
          Returned-eq (SentIfReady sent_after) (handle_request src c t cmd ex) e
            handle_request-Sent))
  ]

-- The bytes of the two requests of a probe.
unfoldable pub probe_bytes : Bytes
probe_bytes = Command.as_bytes set_command ++ Command.as_bytes get_command

module _ (src : Buf) (c : Client) (script : ProbeScript) where
  after_set-Sent :
      (r : Ran (Result (Unit {0}) MemcachedClientError))
      (o : Result (Unit {0}) MemcachedClientError)
      → r.result ≡ o
      → SentIfOk (c.connection.sent ++ Command.as_bytes set_command) r
      → Returned
          (SentIfOk (c.connection.sent ++ probe_bytes))
          (after_set src script.get_exchange r o)
  unfolding after_set get_call probe_bytes
  after_set-Sent r (err x) same h = λ good. absurd (cc)
  after_set-Sent r (ok u) same h =
      elim (Outcome-cases (get_call src r.client script.get_exchange)) [
        | inl p ↦ rw p tt
        | inr (r', e) ↦ rw e (λ good.
            Returned-eq (SentIfOk (r.client.connection.sent ++ Command.as_bytes get_command))
              (get_call src r.client script.get_exchange) e
              (handler_with_timeout-Sent src r.client (text "get") get_command script.get_exchange)
              good
            ∙ ap (λ bytes. bytes ++ Command.as_bytes get_command) (h same)
            ∙ append_assoc c.connection.sent (Command.as_bytes set_command)
                (Command.as_bytes get_command))
      ]

  -- A probe that succeeds has sent just its set and its get.
  pub probe-Sent : Returned (SentIfOk (c.connection.sent ++ probe_bytes)) (probe src c script)
  unfolding probe set_call
  probe-Sent = elim (Outcome-cases (set_call src c script.set_exchange)) [
    | inl p ↦ rw p tt
    | inr (r, e) ↦ rw e (
        after_set-Sent r r.result refl (
          Returned-eq (SentIfOk (c.connection.sent ++ Command.as_bytes set_command))
            (set_call src c script.set_exchange) e
            (handler_with_timeout-Sent src c (text "set") set_command script.set_exchange)))
  ]
