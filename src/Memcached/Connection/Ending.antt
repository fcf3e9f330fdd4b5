-- ===== src/Memcached/Connection/Ending.antt =====
-- Streams that end, fail or fall silent inside a response, and a length field that wraps:
-- `read_response` of src/memcached/mod.rs.
use probes.Prelude.{
  ◌+◌, ◌-◌, ◌%◌, ◌^◌, ◌≤◌, ◌<◌, ◌≡◌, ◌≢◌, refl, List, [], ◌∷◌, ◌++◌, append_assoc, append-nil, drop,
  length, length-append, concat, All, le→ltb, ok, err, returns, ap, sym, ◌∙◌, arith,
}
use probes.Prelude.Bytes.{Bytes}
use probes.Memcached.Cursor.{Buf}
use probes.Memcached.Header.{incomplete}
use probes.Memcached.Header.Layout.{
  Wire, IsWire, wire_bytes, length-wire_bytes, header_at-wire_bytes,
}
use probes.Memcached.Connection.{
  Connection, IoError, ready, pending, ReadEvent, received, failed, parse_response, read_response,
  end_of_stream, io,
}
use probes.Memcached.Connection.Parsing.{parse_response-verdict}
use probes.Memcached.Connection.Framing.{
  frame, IsFrame, response_of, parse-part, read-more, chunks_of, verdict-wire,
}

-- All that arrives is a proper front of one response.
abbrev pub IsCut : Wire → Bytes → Bytes → Bytes → Type 0
IsCut w body front missing = (front ++ missing ≡ frame w body) × (0 < length missing)

part_of_cut :
    (src : Buf) (w : Wire) (body more missing : Bytes) (c : Connection)
    → IsFrame w body
    → IsCut w body (c.buffer ++ more) missing
    → parse_response src c ≡ returns (err incomplete, c)
part_of_cut src w body more missing c f (e, left) =
    parse-part src w body (more ++ missing) [] c f
      (sym (append_assoc c.buffer more missing) ∙ e ∙ sym (append-nil (frame w body)))
      (omega (
        arith,
        ap length e,
        length-append (c.buffer ++ more) missing,
        length-append c.buffer more,
        length-append (wire_bytes w) body,
        length-wire_bytes w,
      ))

-- Chunks inside one response go to the buffer, one after another.
read-chunks :
    (src : Buf) (w : Wire) (body missing : Bytes) (c : Connection) (chunks : List Bytes)
    (events : List ReadEvent)
    → IsFrame w body
    → All (λ xs. xs ≢ []) chunks
    → IsCut w body (c.buffer ++ concat chunks) missing
    → read_response src c (chunks_of chunks ++ events)
      ≡ read_response src (record c { buffer = c.buffer ++ concat chunks }) events
read-chunks src w body missing c [] events f full cut =
    ap (λ t. read_response src (record c { buffer = t }) events) (sym (append-nil c.buffer))
read-chunks src w body missing c ([] ∷ chunks) events f full cut = absurd (full.0 refl)
read-chunks src w body missing c ((b ∷ bs) ∷ chunks) events f full cut =
    let same : (c.buffer ++ b ∷ bs) ++ concat chunks ≡ c.buffer ++ (b ∷ bs ++ concat chunks) =
      append_assoc c.buffer (b ∷ bs) (concat chunks) in
    read-more src c b bs (chunks_of chunks ++ events)
      (part_of_cut src w body (b ∷ bs ++ concat chunks) missing c f cut)
    ∙ read-chunks src w body missing (record c { buffer = c.buffer ++ b ∷ bs }) chunks events f
        full.1 (rw same cut)
    ∙ ap (λ t. read_response src (record c { buffer = t }) events) same

pub read_response-cut :
    (src : Buf) (w : Wire) (body missing : Bytes) (c : Connection) (chunks : List Bytes)
    (events : List ReadEvent) (e : IoError)
    → IsFrame w body
    → All (λ xs. xs ≢ []) chunks
    → IsCut w body (c.buffer ++ concat chunks) missing
    → let c' : Connection = record c { buffer = c.buffer ++ concat chunks } in
      (read_response src c (chunks_of chunks ++ received [] ∷ events)
        ≡ returns (record {
          result = ready (err (end_of_stream c'.buffer));
          connection = c';
          left = events;
        }))
      × (read_response src c (chunks_of chunks ++ failed e ∷ events)
          ≡ returns (record { result = ready (err (io e)); connection = c'; left = events }))
      × (read_response src c (chunks_of chunks)
          ≡ returns (record { result = pending; connection = c'; left = [] }))
read_response-cut src w body missing c chunks events e f full cut = (
  along (received [] ∷ events) ∙ unfold read_response in rw last,
  along (failed e ∷ events) ∙ unfold read_response in rw last,
  ap (read_response src c) (sym (append-nil (chunks_of chunks)))
      ∙ along []
      ∙ unfold read_response in rw last,
)
  where
    c' : Connection
    c' = record c { buffer = c.buffer ++ concat chunks }

    along :
        (es : List ReadEvent)
        → read_response src c (chunks_of chunks ++ es) ≡ read_response src c' es
    along es = read-chunks src w body missing c chunks es f full cut

    last : parse_response src c' ≡ returns (err incomplete, c')
    last = part_of_cut src w body [] missing c' f (rw (append-nil (c.buffer ++ concat chunks)) cut)

-- A header at the start of the buffer that announces a body of 2 ^ 32 - 24 bytes or more is taken
-- for a whole response on its own: the size wraps, and only what is left of it after the wrap is
-- dropped from the buffer.
pub parse_response-wraps :
    (src : Buf) (w : Wire) (rest : Bytes) (c : Connection)
    → IsWire w
    → 2 ^ 32 ≤ 24 + w.total_body_length
    → c.buffer ≡ wire_bytes w ++ rest
    → parse_response src c
      ≡ returns (
        ok (response_of w),
        record c { buffer = drop (24 + w.total_body_length - 2 ^ 32) (wire_bytes w ++ rest) },
      )
parse_response-wraps src w rest c h big e =
    let size : (24 + w.total_body_length) % 2 ^ 32 ≡ 24 + w.total_body_length - 2 ^ 32 =
      omega (arith, h.body_u32) in
    parse_response-verdict src c
    ∙ rw (
      e,
      verdict-wire w rest h,
      size,
      le→ltb (24 + length rest) (24 + w.total_body_length - 2 ^ 32) (omega (arith, h.body_u32)),
      header_at-wire_bytes w rest h,
    )
