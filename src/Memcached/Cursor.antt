-- ===== src/Memcached/Cursor.antt =====
-- `std::io::Cursor<&[u8]>`, and the part of the crate `bytes` that reads from it. The crate is not part
-- of the repository: its operations are a parameter, with their documented effect on a cursor that
-- has enough bytes left.
use probes.Prelude.{ℕ, ◌+◌, ◌≤◌, ◌≡◌, length, take, drop, Outcome, returns, panics}
use probes.Prelude.Bytes.{Bytes, be_value}

pub record Cursor : Type 0 where
  pub inner : Bytes
  pub position : ℕ

-- `Cursor::new`
abbrev pub cursor : Bytes → Cursor
cursor bytes = record { inner = bytes; position = 0 }

abbrev pub rest : Cursor → Bytes
rest c = drop c.position c.inner

abbrev pub skip : ℕ → Cursor → Cursor
skip n c = record c { position = c.position + n }

-- Code that reads through `&mut Cursor`.
abbrev pub Read {ℓ} : Type ℓ → Type ℓ
Read A = Cursor → Outcome (A × Cursor)

infixl 5 ◌>>=◌ ◌>>◌
abbrev pub ◌>>=◌ {ℓ κ} : {A : Type ℓ} {B : Type κ} → Read A → (A → Read B) → Read B
◌>>=◌ m f c = elim (m c) [ returns (a, c') ↦ f a c' | panics ↦ panics ]

abbrev pub ◌>>◌ {ℓ} : {B : Type ℓ} → Read (Unit {0}) → Read B → Read B
m >> k = m >>= λ _. k

abbrev pub pure {ℓ} : {A : Type ℓ} → A → Read A
pure a c = returns (a, c)

-- `Cursor::set_position`
abbrev pub set_position : ℕ → Read (Unit {0})
set_position n c = returns (tt, record c { position = n })

pub record Buf : Type 0 where
  pub remaining : Cursor → ℕ
  pub copy_to_bytes : ℕ → Read Bytes
  pub get_u8 : Read ℕ
  pub get_u16 : Read ℕ
  pub get_u32 : Read ℕ
  pub advance : ℕ → Read (Unit {0})
  -- `Buf::advance` of the receive buffer, a `BytesMut`
  pub advance_mut : ℕ → Bytes → Outcome Bytes
  pub remaining_lem : (c : Cursor) → remaining c ≡ length (rest c)
  pub copy_to_bytes_lem :
      (n : ℕ) (c : Cursor)
      → n ≤ length (rest c)
      → copy_to_bytes n c ≡ returns (take n (rest c), skip n c)
  pub get_u8_lem :
      (c : Cursor) → 1 ≤ length (rest c) → get_u8 c ≡ returns (be_value (take 1 (rest c)), skip 1 c)
  pub get_u16_lem :
      (c : Cursor)
      → 2 ≤ length (rest c)
      → get_u16 c ≡ returns (be_value (take 2 (rest c)), skip 2 c)
  pub get_u32_lem :
      (c : Cursor)
      → 4 ≤ length (rest c)
      → get_u32 c ≡ returns (be_value (take 4 (rest c)), skip 4 c)
  pub advance_lem :
      (n : ℕ) (c : Cursor) → n ≤ length (rest c) → advance n c ≡ returns (tt, skip n c)
  pub advance_mut_lem :
      (n : ℕ) (buffer : Bytes) → n ≤ length buffer → advance_mut n buffer ≡ returns (drop n buffer)
