-- ===== src/Memcached/Response/Verdict.antt =====
-- What `Response::check` of src/memcached/response.rs answers on each buffer.
use probes.Prelude.{
  ℕ, ◌≤◌, ◌≡◌, refl, true, take, length, ltb, if◌then◌else◌, Result, ok, err, returns, arith,
  Bool-cases, inl, inr, ltb→le, ltb→lt,
}
use probes.Prelude.Bytes.{Bytes, bytes_eq}
use probes.Memcached.Cursor.{Cursor, Buf, cursor, ◌>>=◌}
use probes.Memcached.Header
use probes.Memcached.Header.{MemcachedError, incomplete, other, ResponseHeader, response_magic}
use probes.Memcached.Header.Layout.{
  at, total_size, header_at, parse_lem, check_short, check_magic, check_size,
}
use probes.Memcached.Response.{check}

-- The verdict on a buffer, by its length, its first byte and its length field alone.
unfoldable pub verdict : Bytes → Result ℕ MemcachedError
verdict bs =
    if ltb (length bs) 24
    then err incomplete
    else if bytes_eq (take 1 bs) response_magic
    then (if ltb (length bs) (total_size bs) then err incomplete else ok (total_size bs))
    else err other

-- After a good header `check` leaves the cursor at the start, where `parse` begins.
pub check_whole :
    (src : Buf) (bs : Bytes)
    → 24 ≤ length bs
    → bytes_eq (take 1 bs) response_magic ≡ true
    → check src (cursor bs)
      ≡ returns (
        (if ltb (length bs) (total_size bs) then err incomplete else ok (total_size bs)),
        cursor bs,
      )
check_whole src bs h good = elim (Bool-cases (ltb (length bs) (total_size bs))) [
  | inl more ↦
      unfold check in
      rw (Header.Layout.check_size src bs h good, src.remaining_lem (cursor bs), more, check, ◌>>=◌)
  | inr all ↦
      unfold check in
      rw (Header.Layout.check_size src bs h good, src.remaining_lem (cursor bs), all, check, ◌>>=◌)
]

abbrev Checked : Buf → Bytes → Type 0
Checked src bs =
    (c : Cursor) × (check src (cursor bs) ≡ returns (verdict bs, c))
    × ((n : ℕ) → verdict bs ≡ ok n → (c ≡ cursor bs) × (24 ≤ length bs) × (n ≤ length bs))

-- On every buffer `check` returns, and answers the verdict. Where that is a size, the cursor is back at
-- the start, and the buffer holds a whole header and that many bytes.
pub check-verdict : (src : Buf) (bs : Bytes) → Checked src bs
check-verdict src bs = elim (Bool-cases (ltb (length bs) 24)) [
  | inl short ↦ (
    cursor bs,
    unfold check verdict in
        rw (Header.Layout.check_short src bs (ltb→lt _ _ short), short, check, ◌>>=◌),
    λ n e. absurd (unfold verdict in ground arith),
  )
  | inr long ↦ elim (Bool-cases (bytes_eq (take 1 bs) response_magic)) [
    | inl good ↦ (
      cursor bs,
      unfold verdict in rw (long, good) (check_whole src bs (ltb→le _ _ long) good),
      λ n e. (refl, ltb→le _ _ long, unfold verdict in ground arith),
    )
    | inr bad ↦ (
      at bs 1,
      unfold check verdict in
          rw (Header.Layout.check_magic src bs (ltb→le _ _ long) bad, long, bad, check, ◌>>=◌),
      λ n e. absurd (unfold verdict in ground arith),
    )
  ]
]
