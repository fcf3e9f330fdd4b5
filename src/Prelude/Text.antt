-- ===== src/Prelude/Text.antt =====
-- Texts as lists of bytes, and numbers in decimal, as `format!` writes them.
use Prim.Native.Char.{code}
use Prim.Native.String.{String}
use native.Mathlib.Nat.{pow-suc}
use probes.Prelude.{
  ℕ, zero, suc, ◌+◌, ◌-◌, ◌*◌, ◌/◌, ◌%◌, ◌^◌, ◌≤◌, ◌<◌, ◌≡◌, refl, [], ◌∷◌, ◌++◌, All, All-append,
  ltb, if◌then◌else◌, arith, Bool-cases, inl, inr, ltb→lt,
}
use probes.Prelude.Bytes.{Bytes}

abbrev pub Text : Type 0
Text = Bytes

-- The bytes of a literal, which is ASCII wherever this is used.
abbrev pub text : String → Text
text String.[] = []
text (String.◌∷◌ c s) = code c ∷ text s

abbrev pub digit : ℕ → ℕ
digit d = 48 + d

-- At most `fuel` digits.
decimal_digits : ℕ → ℕ → Text
decimal_digits zero n = []
decimal_digits (suc fuel) n =
    let higher = decimal_digits fuel (n / 10) ++ digit (n % 10) ∷ [] in
    if ltb n 10 then digit n ∷ [] else higher

-- An unsigned number of 64 bits has at most 20 digits.
unfoldable pub decimal : ℕ → Text
unfolding decimal_digits
decimal = decimal_digits 20

unfoldable pub read_digits : ℕ → Text → ℕ
read_digits acc [] = acc
read_digits acc (c ∷ cs) = read_digits (acc * 10 + (c - 48)) cs

-- The number that a row of digits stands for.
unfoldable pub decimal_value : Text → ℕ
unfolding read_digits
decimal_value = read_digits 0

abbrev pub IsDigit : ℕ → Type 0
IsDigit c = (48 ≤ c) × (c ≤ 57)

read_digits-append :
    (acc : ℕ) (xs ys : Text) → read_digits acc (xs ++ ys) ≡ read_digits (read_digits acc xs) ys
unfolding read_digits
read_digits-append acc [] ys = refl
read_digits-append acc (x ∷ xs) ys = read_digits-append (acc * 10 + (x - 48)) xs ys

decimal_digits_value : (fuel n : ℕ) → n < 10 ^ fuel → decimal_value (decimal_digits fuel n) ≡ n
unfolding decimal_digits decimal_value
decimal_digits_value zero n h = omega arith
decimal_digits_value (suc fuel) n h = elim (Bool-cases (ltb n 10)) [
  | inl small ↦ rw small (omega arith)
  | inr big ↦
      let front : read_digits 0 (decimal_digits fuel (n / 10)) ≡ n / 10 =
        decimal_digits_value fuel (n / 10) (tenth fuel n h) in
      rw (big, read_digits-append 0 (decimal_digits fuel (n / 10)) (digit (n % 10) ∷ []), front)
        (omega arith)
]
  where
    tenth : (fuel n : ℕ) → n < 10 ^ suc fuel → n / 10 < 10 ^ fuel
    tenth fuel n h = omega (arith, pow-suc 10 fuel)

pub decimal_value-decimal : (n : ℕ) → n < 10 ^ 20 → decimal_value (decimal n) ≡ n
unfolding decimal
decimal_value-decimal n h = decimal_digits_value 20 n h

decimal_digits-IsDigit : (fuel n : ℕ) → All IsDigit (decimal_digits fuel n)
unfolding decimal_digits
decimal_digits-IsDigit zero n = tt
decimal_digits-IsDigit (suc fuel) n = elim (Bool-cases (ltb n 10)) [
  | inl small ↦ rw small (omega (arith, ltb→lt n 10 small))
  | inr big ↦ rw big (
      All-append IsDigit (decimal_digits fuel (n / 10)) (digit (n % 10) ∷ [])
        (decimal_digits-IsDigit fuel (n / 10)) (omega arith))
]

pub decimal-IsDigit : (n : ℕ) → All IsDigit (decimal n)
unfolding decimal
decimal-IsDigit = decimal_digits-IsDigit 20

decimal_digits_cons : (fuel n : ℕ) → (c : ℕ) × (cs : Text) × (decimal_digits (suc fuel) n ≡ c ∷ cs)
unfolding decimal_digits
decimal_digits_cons fuel n = elim (Bool-cases (ltb n 10)) [
  | inl small ↦ (digit n, [], rw small)
  | inr big ↦
      let (c, cs, e) = append_cons (decimal_digits fuel (n / 10)) (digit (n % 10)) in
      (c, cs, rw (big, decimal_digits) e)
]
  where
    append_cons : (xs : Text) (y : ℕ) → (c : ℕ) × (cs : Text) × (xs ++ y ∷ [] ≡ c ∷ cs)
    append_cons [] y = (y, [], refl)
    append_cons (x ∷ xs) y = (x, xs ++ y ∷ [], refl)

-- There is at least one digit.
pub decimal_cons : (n : ℕ) → (c : ℕ) × (cs : Text) × (decimal n ≡ c ∷ cs)
unfolding decimal
decimal_cons = decimal_digits_cons 19
