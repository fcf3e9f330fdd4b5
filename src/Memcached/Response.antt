-- ===== src/Memcached/Response.antt =====
-- src/memcached/response.rs: is a whole response there, and what is its header.
pub mod Verdict
use probes.Prelude.{
  ℕ, ◌≤◌, ◌<◌, ◌≡◌, refl, true, false, Bool, take, length, ltb, if◌then◌else◌, Result, ok, err,
  Outcome, returns, Bool-cases, inl, inr, le→ltb, lt→ltb, ltb→le, ltb→lt, ap,
}
use probes.Prelude.Bytes.{Bytes, bytes_eq}
use probes.Memcached.Cursor.{Cursor, Read, Buf, cursor, pure, ◌>>=◌}
use probes.Memcached.Header
use probes.Memcached.Header.{MemcachedError, incomplete, other, ResponseHeader, response_magic}
use probes.Memcached.Header.Layout.{
  at, total_size, header_at, parse_lem, check_short, check_magic, check_size,
}

pub record Response : Type 0 where
  pub header : ResponseHeader

-- `?` on the result of the header's check, then the test of what remains.
check_remaining : Buf → Result ℕ MemcachedError → Read (Result ℕ MemcachedError)
check_remaining src (err issue) = pure (err issue)
check_remaining src (ok total_len) = λ c.
    if ltb (src.remaining c) total_len
    then returns (err incomplete, c)
    else returns (ok total_len, c)

unfoldable pub check : Buf → Read (Result ℕ MemcachedError)
unfolding check_remaining
check src = do total ← Header.check src; check_remaining src total

unfoldable pub parse : Buf → Read Response
parse src = do header ← Header.parse src; pure (record { header = header })
