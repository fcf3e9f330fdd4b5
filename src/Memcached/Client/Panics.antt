-- ===== src/Memcached/Client/Panics.antt =====
-- Where a request of src/memcached/mod.rs panics.
use probes.Prelude.{
  ◌≡◌, refl, ◌++◌, none, Option-cases, Result, ok, err, Outcome-cases, returns, panics, inl, inr,
  ◌↔◌,
}
use probes.Prelude.Text.{Text}
use probes.Memcached.Cursor.{Buf}
use probes.Memcached.Response.{Response}
use probes.Memcached.Command.{Command}
use probes.Memcached.Connection.{
  Connection, MemcachedClientError, Poll, ready, pending, Reading, send_request, read_response,
}
use probes.Memcached.Connection.Parsing.{read_response-total}
use probes.Memcached.Client.{
  Client, Exchange, status_code, count_response, after_read, after_send, handle_request,
  handler_with_timeout,
}

module _ (src : Buf) (c : Client) (t : Text) (cmd : Command) (ex : Exchange) where
  -- The request goes out, and a whole response comes whose status is not in the table.
  pub record HasUnknownStatus : Type 0 where
    pub connection : Connection
    pub reading : Reading
    pub response : Response
    pub sent : send_request c.connection cmd ex.writes ≡ (connection, ready (ok tt))
    pub read : read_response src connection (c.unread ++ ex.reads) ≡ returns reading
    pub whole : reading.result ≡ ready (ok response)
    pub unknown : status_code response.header.status ≡ none

  after_read-panics :
      (c' : Client) (p : Poll (Result Response MemcachedClientError))
      → after_read c' t ex.elapsed p ≡ panics
      → (r : Response) × (p ≡ ready (ok r)) × (status_code r.header.status ≡ none)
  unfolding after_read count_response
  after_read-panics c' (ready (ok r)) h = elim (Option-cases (status_code r.header.status)) [
    | inl e ↦ (r, refl, e)
    | inr (s, e) ↦ absurd (cc (rw e at h))
  ]
  after_read-panics c' (ready (err e)) h = absurd (cc)
  after_read-panics c' pending h = absurd (cc)

  after_send-panics :
      (conn : Connection) (p : Poll (Result (Unit {0}) MemcachedClientError))
      → send_request c.connection cmd ex.writes ≡ (conn, p)
      → after_send src c t ex (conn, p) ≡ panics
      → HasUnknownStatus
  unfolding after_send
  after_send-panics conn (ready (ok tt)) sent h =
      let (reading, e) = read_response-total src conn (c.unread ++ ex.reads) in
      let (r, whole, unknown) = after_read-panics _ reading.result (rw e at h) in
      record {
        connection = conn;
        reading = reading;
        response = r;
        sent = sent;
        read = e;
        whole = whole;
        unknown = unknown;
      }
  after_send-panics conn (ready (err e)) sent h = absurd (cc)
  after_send-panics conn pending sent h = absurd (cc)

  handle_request-panics : handle_request src c t cmd ex ≡ panics → HasUnknownStatus
  unfolding handle_request
  handle_request-panics h =
      after_send-panics (send_request c.connection cmd ex.writes).0
        (send_request c.connection cmd ex.writes).1 refl h

  HasUnknownStatus-panics : HasUnknownStatus → handle_request src c t cmd ex ≡ panics
  unfolding handle_request after_send after_read count_response
  HasUnknownStatus-panics u = rw (u.sent, u.read) (rw (u.whole, u.unknown) refl)

  -- A request panics exactly where it goes out and a whole response comes whose status is not in the table,
  -- which is the `unwrap` of the name; no other answer of the stream makes it panic.
  pub handler_with_timeout-panics :
      (handler_with_timeout src c t cmd ex ≡ panics) ↔ HasUnknownStatus
  unfolding handler_with_timeout
  handler_with_timeout-panics = (
    λ h. elim (Outcome-cases (handle_request src c t cmd ex)) [
      | inl p ↦ handle_request-panics p
      | inr (r, e) ↦ absurd (cc (rw e at h))
    ],
    λ u. rw (HasUnknownStatus-panics u) refl,
  )
