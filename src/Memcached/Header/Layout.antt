-- ===== src/Memcached/Header/Layout.antt =====
-- Response headers on the wire: what `parse` and `check` of src/memcached/header.rs read.
use probes.Prelude.{
  ℕ, ◌+◌, ◌%◌, ◌^◌, ◌≤◌, ◌<◌, ◌≡◌, refl, true, false, [], ◌∷◌, ◌++◌, length, take, drop,
  length-drop, length-append, ok, err, returns, arith, le→ltb, lt→ltb,
}
use probes.Prelude.Bytes.{Bytes, be_bytes, be_value, bytes_eq}
use probes.Memcached.Cursor.{Cursor, Buf, cursor, ◌>>=◌}
use probes.Memcached.Header.{
  incomplete, other, ResponseHeader, response_magic, header_size, parse, check,
}

abbrev pub at : Bytes → ℕ → Cursor
at bs n = record { inner = bs; position = n }

-- The fields of a header, by their offsets in the protocol.
pub header_at : Bytes → ResponseHeader
header_at bs = record {
  magic = take 1 bs;
  opcode = take 1 (drop 1 bs);
  key_length = be_value (take 2 (drop 2 bs));
  extra_length = be_value (take 1 (drop 4 bs));
  data_type = take 1 (drop 5 bs);
  status = be_value (take 2 (drop 6 bs));
  total_body_length = be_value (take 4 (drop 8 bs));
  opaque = take 4 (drop 12 bs);
  cas = take 8 (drop 16 bs);
}

-- The size of a whole response, as the code computes it from the length field.
abbrev pub total_size : Bytes → ℕ
total_size bs = (header_size + be_value (take 4 (drop 8 bs))) % 2 ^ 32

module _ (src : Buf) (bs : Bytes) where
  drop-le : (n k : ℕ) → k + n ≤ length bs → n ≤ length (drop k bs)
  drop-le n k h = omega (arith, length-drop k bs)

  pub parse_lem : 24 ≤ length bs → parse src (cursor bs) ≡ returns (header_at bs, at bs 24)
  unfolding parse header_at
  parse_lem h = rw (
    src.copy_to_bytes_lem 1 (at bs 0) (drop-le 1 0 (omega arith)),
    src.copy_to_bytes_lem 1 (at bs 1) (drop-le 1 1 (omega arith)),
    src.get_u16_lem (at bs 2) (drop-le 2 2 (omega arith)),
    src.get_u8_lem (at bs 4) (drop-le 1 4 (omega arith)),
    src.copy_to_bytes_lem 1 (at bs 5) (drop-le 1 5 (omega arith)),
    src.get_u16_lem (at bs 6) (drop-le 2 6 (omega arith)),
    src.get_u32_lem (at bs 8) (drop-le 4 8 (omega arith)),
    src.copy_to_bytes_lem 4 (at bs 12) (drop-le 4 12 (omega arith)),
    src.copy_to_bytes_lem 8 (at bs 16) (drop-le 8 16 (omega arith)),
    parse,
    ◌>>=◌,
  )

  pub check_short : length bs < 24 → check src (cursor bs) ≡ returns (err incomplete, cursor bs)
  check_short h = unfold check in rw (src.remaining_lem (cursor bs), lt→ltb _ _ h)

  pub check_magic :
      24 ≤ length bs
      → bytes_eq (take 1 bs) response_magic ≡ false
      → check src (cursor bs) ≡ returns (err other, at bs 1)
  check_magic h bad =
      unfold check in
      rw (
        src.remaining_lem (cursor bs),
        le→ltb _ _ h,
        src.copy_to_bytes_lem 1 (at bs 0) (drop-le 1 0 (omega arith)),
        bad,
        check,
        ◌>>=◌,
      )

  pub check_size :
      24 ≤ length bs
      → bytes_eq (take 1 bs) response_magic ≡ true
      → check src (cursor bs) ≡ returns (ok (total_size bs), cursor bs)
  check_size h good =
      unfold check in
      rw (
        src.remaining_lem (cursor bs),
        le→ltb _ _ h,
        src.copy_to_bytes_lem 1 (at bs 0) (drop-le 1 0 (omega arith)),
        good,
        src.advance_lem 7 (at bs 1) (drop-le 7 1 (omega arith)),
        src.get_u32_lem (at bs 8) (drop-le 4 8 (omega arith)),
        check,
        ◌>>=◌,
      )

-- A response header as a server sends it, in numbers.
pub record Wire : Type 0 where
  pub opcode : ℕ
  pub key_length : ℕ
  pub extra_length : ℕ
  pub data_type : ℕ
  pub status : ℕ
  pub total_body_length : ℕ
  pub opaque : ℕ
  pub cas : ℕ

pub record IsWire (w : Wire) : Type 0 where
  pub key_u16 : w.key_length < 2 ^ 16
  pub status_u16 : w.status < 2 ^ 16
  pub body_u32 : w.total_body_length < 2 ^ 32

-- The 24 bytes of the protocol.
unfoldable pub wire_bytes : Wire → Bytes
wire_bytes w =
    0x81
    ∷ w.opcode
    ∷ (be_bytes 2 w.key_length
        ++ w.extra_length
          ∷ w.data_type
          ∷ (be_bytes 2 w.status
              ++ (be_bytes 4 w.total_body_length ++ (be_bytes 4 w.opaque ++ be_bytes 8 w.cas))))

unfoldable pub header_of : Wire → ResponseHeader
header_of w = record {
  magic = response_magic;
  opcode = w.opcode ∷ [];
  key_length = w.key_length;
  extra_length = w.extra_length;
  data_type = w.data_type ∷ [];
  status = w.status;
  total_body_length = w.total_body_length;
  opaque = be_bytes 4 w.opaque;
  cas = be_bytes 8 w.cas;
}

pub header_at-wire_bytes :
    (w : Wire) (body : Bytes) → IsWire w → header_at (wire_bytes w ++ body) ≡ header_of w
unfolding header_at wire_bytes header_of be_bytes be_value
header_at-wire_bytes w body h = ground arith

pub length-wire_bytes : (w : Wire) → length (wire_bytes w) ≡ 24
unfolding wire_bytes be_bytes
length-wire_bytes w = refl

-- `parse` reads back the header that a server wrote, its lengths and its status within their widths,
-- whatever follows it, and stops behind it.
pub parse-wire_bytes :
    (src : Buf) (w : Wire) (body : Bytes)
    → IsWire w
    → parse src (cursor (wire_bytes w ++ body))
      ≡ returns (header_of w, at (wire_bytes w ++ body) 24)
parse-wire_bytes src w body h = rw (header_at-wire_bytes w body h) at (
    parse_lem src (wire_bytes w ++ body)
      (omega (arith, length-append (wire_bytes w) body, length-wire_bytes w)))
