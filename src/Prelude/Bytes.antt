-- ===== src/Prelude/Bytes.antt =====
-- Big-endian bytes: `to_be_bytes` of the unsigned integers, and the value that such bytes stand for.
use probes.Prelude.{
  ℕ, zero, suc, ◌+◌, ◌*◌, ◌/◌, ◌%◌, ◌^◌, ◌<◌, ◌≡◌, refl, ap, List, [], ◌∷◌, length, arith, Bool,
  true, false, ◌&&◌, ◌==◌, ◌↔◌,
}

abbrev pub Bytes : Type 0
Bytes = List ℕ

abbrev pub IsByte : ℕ → Type 0
IsByte b = b < 256

-- `n` bytes, the highest first.
unfoldable pub be_bytes : ℕ → ℕ → Bytes
be_bytes zero v = []
be_bytes (suc n) v = (v / 256 ^ n % 256) ∷ be_bytes n v

be_from : ℕ → Bytes → ℕ
be_from acc [] = acc
be_from acc (b ∷ bs) = be_from (acc * 256 + b) bs

unfoldable pub be_value : Bytes → ℕ
unfolding be_from
be_value = be_from 0

pub length-be_bytes : (n v : ℕ) → length (be_bytes n v) ≡ n
unfolding be_bytes
length-be_bytes zero v = refl
length-be_bytes (suc n) v = ap suc (length-be_bytes n v)

pub be_value-be_bytes_2 : (v : ℕ) → v < 2 ^ 16 → be_value (be_bytes 2 v) ≡ v
unfolding be_bytes be_value
be_value-be_bytes_2 v h = omega arith

pub be_value-be_bytes_4 : (v : ℕ) → v < 2 ^ 32 → be_value (be_bytes 4 v) ≡ v
unfolding be_bytes be_value
be_value-be_bytes_4 v h = omega arith

pub be_value-be_bytes_8 : (v : ℕ) → v < 2 ^ 64 → be_value (be_bytes 8 v) ≡ v
unfolding be_bytes be_value
be_value-be_bytes_8 v h = omega arith

-- Equality of byte strings, as Rust's `==` on slices, `Bytes` and `String`.
unfoldable pub bytes_eq : Bytes → Bytes → Bool
bytes_eq [] [] = true
bytes_eq [] (y ∷ ys) = false
bytes_eq (x ∷ xs) [] = false
bytes_eq (x ∷ xs) (y ∷ ys) = x == y && bytes_eq xs ys

pub bytes_eq→eq : (s t : Bytes) → bytes_eq s t ≡ true → s ≡ t
unfolding bytes_eq
bytes_eq→eq [] [] h = refl
bytes_eq→eq [] (y ∷ ys) h = cc
bytes_eq→eq (x ∷ xs) [] h = cc
bytes_eq→eq (x ∷ xs) (y ∷ ys) h = ground (arith, bytes_eq→eq xs ys)

pub bytes_eq_refl : (s : Bytes) → bytes_eq s s ≡ true
unfolding bytes_eq
bytes_eq_refl [] = refl
bytes_eq_refl (x ∷ xs) = ground (arith, bytes_eq_refl xs)

pub bytes_eq_iff : (s t : Bytes) → (bytes_eq s t ≡ true) ↔ (s ≡ t)
bytes_eq_iff s t = (bytes_eq→eq s t, λ e. rw (← e) (bytes_eq_refl s))

pub be_value_one : (b : ℕ) → be_value (b ∷ []) ≡ b
unfolding be_value
be_value_one b = omega arith
