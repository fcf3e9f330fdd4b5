-- ===== src/Prelude/Numbers.antt =====
-- `i64` as text: `format!`, and `str::parse`.
use probes.Prelude.{
  ℕ, zero, suc, ◌+◌, ◌-◌, ◌*◌, ◌^◌, ◌<◌, ◌≡◌, refl, [], ◌∷◌, All, ◌&&◌, leb, ltb, ◌==◌,
  if◌then◌else◌, Option, none, some, arith, ◌∙◌, lt→ltb, ap, false,
}
use probes.Prelude.Int.{ℤ, pos, negsuc}
use probes.Prelude.Text.{
  Text, decimal, decimal_value, read_digits, IsDigit, decimal_value-decimal, decimal-IsDigit,
  decimal_cons,
}

unfoldable pub show_ℤ : ℤ → Text
show_ℤ (pos n) = decimal n
show_ℤ (negsuc n) = b'-' ∷ decimal (suc n)

digits_from : ℕ → Text → Option ℕ
digits_from acc [] = some acc
digits_from acc (c ∷ cs) =
    let rest = digits_from (acc * 10 + (c - 48)) cs in if leb 48 c && leb c 57 then rest else none

-- A row of digits, which must not be empty.
digits : Text → Option ℕ
unfolding digits_from
digits [] = none
digits (c ∷ cs) = digits_from 0 (c ∷ cs)

positive : Option ℕ → Option ℤ
positive none = none
positive (some n) = if ltb n (2 ^ 63) then some (pos n) else none

negative : Option ℕ → Option ℤ
negative none = none
negative (some zero) = some (pos 0)
negative (some (suc n)) = if ltb n (2 ^ 63) then some (negsuc n) else none

-- `str::parse::<i64>`; `none` is its error.
unfoldable pub parse_i64 : Text → Option ℤ
unfolding digits positive negative
parse_i64 [] = none
parse_i64 (c ∷ cs) =
    if c == b'-'
    then negative (digits cs)
    else if c == b'+'
    then positive (digits cs)
    else positive (digits (c ∷ cs))

digits_from-read_digits :
    (acc : ℕ) (cs : Text) → All IsDigit cs → digits_from acc cs ≡ some (read_digits acc cs)
unfolding digits_from read_digits
digits_from-read_digits acc [] h = refl
digits_from-read_digits acc (c ∷ cs) h =
    ground (arith, digits_from-read_digits (acc * 10 + (c - 48)) cs h.1)

digits-decimal : (n : ℕ) → n < 10 ^ 20 → digits (decimal n) ≡ some n
digits-decimal n h =
    let (c, cs, e) = decimal_cons n in
    let all : All IsDigit (c ∷ cs) = rw e at (decimal-IsDigit n) in
    let value : decimal_value (c ∷ cs) ≡ n = rw e at (decimal_value-decimal n h) in
    rw e (unfold digits decimal_value in digits_from-read_digits 0 (c ∷ cs) all ∙ ap some value)

-- The values of the type.
abbrev pub IsI64 : ℤ → Type 0
IsI64 (pos n) = n < 2 ^ 63
IsI64 (negsuc n) = n < 2 ^ 63

first_digit :
    (c : ℕ) (cs : Text) (n : ℕ)
    → IsDigit c
    → digits (c ∷ cs) ≡ some n
    → n < 2 ^ 63
    → parse_i64 (c ∷ cs) ≡ some (pos n)
first_digit c cs n d read h =
    let not_minus : (c == b'-') ≡ false = ground arith in
    let not_plus : (c == b'+') ≡ false = ground arith in
    unfold parse_i64 in rw (not_minus, not_plus, read) (rw (lt→ltb _ _ h))

-- A number that has been printed is read back.
pub parse_i64-show_ℤ : (i : ℤ) → IsI64 i → parse_i64 (show_ℤ i) ≡ some i
parse_i64-show_ℤ (negsuc n) h =
    unfold parse_i64 show_ℤ in
    rw (digits-decimal (suc n) (omega arith), negative) (rw (lt→ltb _ _ h))
parse_i64-show_ℤ (pos n) h =
    let (c, cs, e) = decimal_cons n in
    let digit_first : IsDigit c = (rw e at (decimal-IsDigit n)).0 in
    let read : digits (c ∷ cs) ≡ some n = rw e at (digits-decimal n (omega arith)) in
    unfold show_ℤ in rw e (first_digit c cs n digit_first read h)
