-- ===== src/Memcached/Connection/Framing.antt =====
-- Whole responses in the stream, however it is cut: `read_response` of src/memcached/mod.rs.
use probes.Prelude.{
  ℕ, ◌+◌, ◌%◌, ◌^◌, ◌≤◌, ◌<◌, ◌≡◌, refl, false, List, [], ◌∷◌, ◌++◌, append_assoc, map, length,
  length-append, drop-append_length, append_split, concat, ltb, le→ltb, lt→ltb, ltb→lt, ltb→le,
  if◌then◌else◌, Bool-cases, inl, inr, ok, err, returns, ap, ◌∙◌, arith, ◌≢◌, All,
}
use probes.Prelude.Bytes.{Bytes, be_bytes, bytes_eq, be_value-be_bytes_4}
use probes.Memcached.Cursor.{Buf}
use probes.Memcached.Header.{incomplete}
use probes.Memcached.Header.Layout.{
  Wire, IsWire, wire_bytes, length-wire_bytes, header_of, header_at-wire_bytes, header_at,
}
use probes.Memcached.Response.{Response}
use probes.Memcached.Response.Verdict.{verdict}
use probes.Memcached.Connection.{
  Connection, ready, ReadEvent, received, failed, parse_response, read_response,
}
use probes.Memcached.Connection.Parsing.{parse_response-verdict}

-- A whole response: a header and the body that it announces.
abbrev pub frame : Wire → Bytes → Bytes
frame w body = wire_bytes w ++ body

pub record IsFrame (w : Wire) (body : Bytes) : Type 0 where
  pub wire : IsWire w
  pub announced : length body ≡ w.total_body_length
  pub small : 24 + w.total_body_length < 2 ^ 32

abbrev pub response_of : Wire → Response
response_of w = record { header = header_of w }

pub verdict-wire :
    (w : Wire) (t : Bytes)
    → IsWire w
    → verdict (wire_bytes w ++ t) ≡ (
        if ltb (24 + length t) ((24 + w.total_body_length) % 2 ^ 32)
        then err incomplete
        else ok ((24 + w.total_body_length) % 2 ^ 32))
unfolding verdict wire_bytes be_bytes bytes_eq
verdict-wire w t h =
    let all : length (wire_bytes w ++ t) ≡ 24 + length t = omega arith in
    let long : ltb (length (wire_bytes w ++ t)) 24 ≡ false =
      le→ltb (length (wire_bytes w ++ t)) 24 (omega arith) in
    rw (be_value-be_bytes_4 w.total_body_length h.body_u32, long, all)

verdict-short : (bs : Bytes) → length bs < 24 → verdict bs ≡ err incomplete
unfolding verdict
verdict-short bs h = rw (lt→ltb _ _ h)

-- What is received is a proper part of the frame.
verdict-part :
    (w : Wire) (body bs more rest : Bytes)
    → IsFrame w body
    → bs ++ more ≡ frame w body ++ rest
    → length bs < 24 + w.total_body_length
    → verdict bs ≡ err incomplete
verdict-part w body bs more rest f e h = elim (Bool-cases (ltb (length bs) 24)) [
  | inl short ↦ verdict-short bs (ltb→lt _ _ short)
  | inr long ↦
      let (t, p, q) =
        append_split bs more (wire_bytes w) (body ++ rest)
          (e ∙ append_assoc (wire_bytes w) body rest)
          (omega (arith, length-wire_bytes w, ltb→le (length bs) 24 long)) in
      let size : (24 + w.total_body_length) % 2 ^ 32 ≡ 24 + w.total_body_length = omega arith in
      let short : 24 + length t < 24 + w.total_body_length =
        omega (arith, ap length p, length-append (wire_bytes w) t, length-wire_bytes w) in
      rw (p, verdict-wire w t f.wire, size, lt→ltb _ _ short)
]

-- The frame is all there.
verdict-frame :
    (w : Wire) (body rest : Bytes)
    → IsFrame w body
    → verdict (frame w body ++ rest) ≡ ok (24 + w.total_body_length)
verdict-frame w body rest f =
    let size : (24 + w.total_body_length) % 2 ^ 32 ≡ 24 + w.total_body_length = omega arith in
    let long : 24 + w.total_body_length ≤ 24 + length (body ++ rest) =
      omega (arith, length-append body rest) in
    rw (append_assoc, verdict-wire w (body ++ rest) f.wire, size, le→ltb _ _ long)

pub parse-frame :
    (src : Buf) (w : Wire) (body rest : Bytes) (c : Connection)
    → IsFrame w body
    → c.buffer ≡ frame w body ++ rest
    → parse_response src c ≡ returns (ok (response_of w), record c { buffer = rest })
parse-frame src w body rest c f e =
    let size : length (frame w body) ≡ 24 + w.total_body_length =
      omega (arith, length-append (wire_bytes w) body, length-wire_bytes w) in
    let header : header_at (frame w body ++ rest) ≡ header_of w =
      rw append_assoc (header_at-wire_bytes w (body ++ rest) f.wire) in
    parse_response-verdict src c
    ∙ rw (
      e,
      verdict-frame w body rest f,
      header,
      drop-append_length (frame w body) rest (24 + w.total_body_length) size,
    )

pub parse-part :
    (src : Buf) (w : Wire) (body more rest : Bytes) (c : Connection)
    → IsFrame w body
    → c.buffer ++ more ≡ frame w body ++ rest
    → length c.buffer < 24 + w.total_body_length
    → parse_response src c ≡ returns (err incomplete, c)
parse-part src w body more rest c f e h =
    parse_response-verdict src c ∙ rw (verdict-part w body c.buffer more rest f e h)

-- A response that is parsed is returned, whatever is to come.
read-found :
    (src : Buf) (c : Connection) (events : List ReadEvent) {r : Response} {c' : Connection}
    → parse_response src c ≡ returns (ok r, c')
    → read_response src c events
      ≡ returns (record { result = ready (ok r); connection = c'; left = events })
unfolding read_response
read-found src c [] e = rw e
read-found src c (received [] ∷ events) e = rw e
read-found src c (received (b ∷ bs) ∷ events) e = rw e
read-found src c (failed x ∷ events) e = rw e

-- While a response is incomplete, a chunk goes behind the buffer.
pub read-more :
    (src : Buf) (c : Connection) (b : ℕ) (bs : Bytes) (events : List ReadEvent)
    → parse_response src c ≡ returns (err incomplete, c)
    → read_response src c (received (b ∷ bs) ∷ events)
      ≡ read_response src (record c { buffer = c.buffer ++ b ∷ bs }) events
unfolding read_response
read-more src c b bs events e = rw e

abbrev pub chunks_of : List Bytes → List ReadEvent
chunks_of = map received

-- `read_response` over these chunks returns the header of `w`, and what is left, in the buffer and in the
-- chunks not yet read, is `rest`; none of those chunks is empty.
abbrev pub Delivers : Buf → Wire → Bytes → Connection → List Bytes → Type 0
Delivers src w rest c chunks =
    (buffer : Bytes) × (left : List Bytes) × (read_response src c (chunks_of chunks)
      ≡ returns (record {
        result = ready (ok (response_of w));
        connection = record c { buffer = buffer };
        left = chunks_of left;
      }))
    × (buffer ++ concat left ≡ rest)
    × All (λ xs. xs ≢ []) left

deliver_now :
    (src : Buf) (w : Wire) (body rest : Bytes) (c : Connection) (chunks : List Bytes)
    → IsFrame w body
    → All (λ xs. xs ≢ []) chunks
    → c.buffer ++ concat chunks ≡ frame w body ++ rest
    → 24 + w.total_body_length ≤ length c.buffer
    → Delivers src w rest c chunks
deliver_now src w body rest c chunks f full e h =
    let (t, p, q) =
      append_split c.buffer (concat chunks) (frame w body) rest e
        (omega (arith, length-append (wire_bytes w) body, length-wire_bytes w)) in
    (t, chunks, read-found src c (chunks_of chunks) (parse-frame src w body t c f p), q, full)

-- However the stream is cut into chunks that are not empty, once what is in the buffer and what
-- arrives hold a whole response of less than 2 ^ 32 bytes, `read_response` returns its header;
-- exactly its bytes are gone, and what followed them is still there, in the buffer or in the chunks
-- not yet read.
pub read_response-frame :
    (src : Buf) (w : Wire) (body rest : Bytes) (c : Connection) (chunks : List Bytes)
    → IsFrame w body
    → All (λ xs. xs ≢ []) chunks
    → c.buffer ++ concat chunks ≡ frame w body ++ rest
    → Delivers src w rest c chunks
read_response-frame src w body rest c [] f full e = deliver_now src w body rest c [] f full e (
    omega (
      arith,
      ap length e,
      length-append c.buffer [],
      length-append (frame w body) rest,
      length-append (wire_bytes w) body,
      length-wire_bytes w,
    ))
read_response-frame src w body rest c ([] ∷ chunks) f full e = absurd (full.0 refl)
read_response-frame src w body rest c ((b ∷ bs) ∷ chunks) f full e =
    elim (Bool-cases (ltb (length c.buffer) (24 + w.total_body_length))) [
      | inl part ↦
          let (k, left, result, same, rest_full) =
            read_response-frame src w body rest (record c { buffer = c.buffer ++ b ∷ bs }) chunks f
              full.1 (append_assoc c.buffer (b ∷ bs) (concat chunks) ∙ e) in
          let more =
            read-more src c b bs (chunks_of chunks)
              (parse-part src w body (b ∷ bs ++ concat chunks) rest c f e (ltb→lt _ _ part)) in
          (k, left, more ∙ result, same, rest_full)
      | inr whole ↦ deliver_now src w body rest c ((b ∷ bs) ∷ chunks) f full e (ltb→le _ _ whole)
    ]
