-- ===== src/Memcached/Connection/Parsing.antt =====
-- `parse_response` of src/memcached/mod.rs against the layout of the protocol.
use probes.Prelude.{
  ℕ, ◌≡◌, refl, List, [], ◌∷◌, ◌++◌, ◌≤◌, length, drop, Result, ok, err, Outcome, returns, ◌>>=◌,
}
use probes.Prelude.Bytes.{Bytes}
use probes.Memcached.Cursor
use probes.Memcached.Cursor.{Cursor, Buf, cursor}
use probes.Memcached.Header.{MemcachedError, incomplete, other}
use probes.Memcached.Header.Layout.{at, header_at, parse_lem}
use probes.Memcached.Response
use probes.Memcached.Response.{Response}
use probes.Memcached.Response.Verdict.{verdict, check-verdict}
use probes.Memcached.Connection.{
  Connection, ReadEvent, received, failed, Reading, after_check, parse_response, after_parse,
  read_response,
}

abbrev pub response_at : Bytes → Response
response_at bs = record { header = header_at bs }

-- The result of a parse and the buffer that it leaves, by the offsets of the protocol.
abbrev pub parsed_as :
    Result ℕ MemcachedError → Connection → Result Response MemcachedError × Connection
parsed_as (ok n) c = (ok (response_at c.buffer), record c { buffer = drop n c.buffer })
parsed_as (err e) c = (err e, c)

response-parse_lem :
    (src : Buf) (bs : Bytes)
    → 24 ≤ length bs
    → Response.parse src (cursor bs) ≡ returns (response_at bs, at bs 24)
response-parse_lem src bs h =
    unfold Response.parse in rw (parse_lem src bs h, Response.parse, Cursor.◌>>=◌)

after_check-parsed_as :
    (src : Buf) (c : Connection) (v : Result ℕ MemcachedError) (k : Cursor)
    → ((n : ℕ) → v ≡ ok n → (k ≡ cursor c.buffer) × (24 ≤ length c.buffer) × (n ≤ length c.buffer))
    → after_check src c (v, k) ≡ returns (parsed_as v c)
after_check-parsed_as src c (err e) k back = unfold after_check in refl
after_check-parsed_as src c (ok n) k back =
    let (start, whole, enough) = back n refl in
    unfold after_check in
    rw (
      start,
      response-parse_lem src c.buffer whole,
      src.advance_mut_lem n c.buffer enough,
      after_check,
      ◌>>=◌,
    )

-- On every buffer `parse_response` returns: with the header read off its offsets and just the verdict's
-- bytes dropped, or with the verdict's error and the buffer as it was.
pub parse_response-verdict :
    (src : Buf) (c : Connection) → parse_response src c ≡ returns (parsed_as (verdict c.buffer) c)
parse_response-verdict src c =
    let (k, checked, back) = check-verdict src c.buffer in
    unfold parse_response in
    rw (checked, parse_response, ◌>>=◌) (after_check-parsed_as src c (verdict c.buffer) k back)

-- It returns, on a connection that has sent what it had.
abbrev Returns : Bytes → Outcome Reading → Type 0
Returns sent out = (r : Reading) × (out ≡ returns r) × (r.connection.sent ≡ sent)

after_parse-Returns :
    (left : List ReadEvent) (more : Connection → Outcome Reading) (c : Connection)
    (v : Result ℕ MemcachedError)
    → Returns c.sent (more c)
    → Returns c.sent (after_parse left more (parsed_as v c))
unfolding after_parse
after_parse-Returns left more c (ok n) h = (_, refl, refl)
after_parse-Returns left more c (err incomplete) h = h
after_parse-Returns left more c (err other) h = (_, refl, refl)

-- Reading sends nothing.
pub read_response-sent :
    (src : Buf) (c : Connection) (events : List ReadEvent)
    → (r : Reading) × (read_response src c events ≡ returns r) × (r.connection.sent ≡ c.sent)
unfolding read_response
read_response-sent src c [] =
    rw (parse_response-verdict src c) (after_parse-Returns _ _ c (verdict c.buffer) (_, refl, refl))
read_response-sent src c (received [] ∷ events) =
    rw (parse_response-verdict src c) (after_parse-Returns _ _ c (verdict c.buffer) (_, refl, refl))
read_response-sent src c (received (b ∷ bs) ∷ events) = rw (parse_response-verdict src c) (
    after_parse-Returns _ _ c (verdict c.buffer)
      (read_response-sent src (record c { buffer = c.buffer ++ b ∷ bs }) events))
read_response-sent src c (failed e ∷ events) =
    rw (parse_response-verdict src c) (after_parse-Returns _ _ c (verdict c.buffer) (_, refl, refl))

-- `read_response` never panics: whatever is in the buffer and whatever the stream answers, it returns an
-- answer or is left waiting.
pub read_response-total :
    (src : Buf) (c : Connection) (events : List ReadEvent)
    → (r : Reading) × (read_response src c events ≡ returns r)
read_response-total src c events = let (r, e, _) = read_response-sent src c events in (r, e)
