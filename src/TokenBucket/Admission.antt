-- ===== src/TokenBucket/Admission.antt =====
-- What one call of src/token_bucket/mod.rs decides, in exact arithmetic.
use Prim.Native.Nat.{min}
use probes.Prelude.{
  ℕ, ◌+◌, ◌-◌, ◌*◌, ◌^◌, ◌≤◌, ◌<◌, ◌≡◌, Bool, true, false, ltb, leb, ◌==◌, Result, ok, err, arith,
  inl, inr, Bool-cases, ltb→lt, ltb→le,
}
use probes.TokenBucket.{
  TokenBucket, BucketError, greater_than_capacity, Readings, elapsed_secs, available_token_since,
  update_counter, need_to_wait,
}

pub record IsValid (b : TokenBucket) : Type 0 where
  pub within : b.available ≤ b.capacity
  pub word : b.capacity < 2 ^ 64

-- The tokens at hand when the clock reads `now`, with no wrap-around.
abbrev pub refilled : TokenBucket → ℕ → ℕ
refilled b now = min b.capacity (b.available + elapsed_secs b.last now * b.quantum)

-- The refill does not leave the machine word.
abbrev pub Fits : TokenBucket → ℕ → Type 0
Fits b now = b.available + elapsed_secs b.last now * b.quantum < 2 ^ 64

-- What a call may decide, where `r` tokens are at hand.
pub data Decision (b : TokenBucket) (r token : ℕ) (at : Readings)
    (out : TokenBucket × Result Bool BucketError) : Type 0 where
  too_many :
      b.capacity < token
      → out ≡ (b, err (greater_than_capacity token b.capacity))
      → Decision b r token at out
  nothing : token ≡ 0 → out ≡ (b, ok false) → Decision b r token at out
  enough :
      0 < token
      → token ≤ r
      → out ≡ (record b { available = r - token; last = at.taken }, ok false)
      → Decision b r token at out
  short :
      token ≤ b.capacity
      → r < token
      → out ≡ (record b { available = r }, ok true)
      → Decision b r token at out

available_token_since-refilled :
    (b : TokenBucket) (now : ℕ)
    → Fits b now
    → available_token_since b (elapsed_secs b.last now) ≡ refilled b now
unfolding available_token_since
available_token_since-refilled b now h = omega arith

update_counter_lem :
    (b : TokenBucket) (token now : ℕ)
    → b.available < 2 ^ 64
    → token ≤ b.available
    → update_counter b token now ≡ record b { available = b.available - token; last = now }
unfolding update_counter
update_counter_lem b token now h k = ground arith

-- The refill is capped, and never more than the exact one, also where it wraps.
pub available_token_since-le :
    (b : TokenBucket) (elapsed : ℕ)
    → (available_token_since b elapsed ≤ b.capacity)
      × (available_token_since b elapsed ≤ b.available + elapsed * b.quantum)
unfolding available_token_since
available_token_since-le b elapsed = (omega arith, omega arith)

module _ (b : TokenBucket) (token : ℕ) (at : Readings) where
  has_enough :
      b.capacity < 2 ^ 64
      → ltb b.capacity token ≡ false
      → (token == 0) ≡ false
      → leb token (available_token_since b (elapsed_secs b.last at.checked)) ≡ true
      → need_to_wait b token at ≡ (
        record b {
          available = available_token_since b (elapsed_secs b.last at.checked) - token;
          last = at.taken;
        },
        ok false,
      )
  unfolding need_to_wait
  has_enough word fits asked has = ground arith

  has_less :
      ltb b.capacity token ≡ false
      → (token == 0) ≡ false
      → leb token (available_token_since b (elapsed_secs b.last at.checked)) ≡ false
      → need_to_wait b token at ≡ (
        record b { available = available_token_since b (elapsed_secs b.last at.checked) },
        ok true,
      )
  unfolding need_to_wait
  has_less fits asked lacks = ground arith

pub need_to_wait-Decision :
    (b : TokenBucket) (token : ℕ) (at : Readings)
    → b.capacity < 2 ^ 64
    → Decision b
        (available_token_since b (elapsed_secs b.last at.checked))
        token
        at
        (need_to_wait b token at)
need_to_wait-Decision b token at word =
    let r : ℕ = available_token_since b (elapsed_secs b.last at.checked) in
    elim (Bool-cases (ltb b.capacity token)) [
      | inl big ↦ too_many (ltb→lt _ _ big) (unfold need_to_wait in rw big)
      | inr fits ↦ elim (Bool-cases (token == 0)) [
        | inl zero_asked ↦ nothing (ground arith) (unfold need_to_wait in rw (fits, zero_asked))
        | inr asked ↦ elim (Bool-cases (leb token r)) [
          | inl has ↦
              enough (ground arith) (ground arith) (has_enough b token at word fits asked has)
          | inr lacks ↦
              short (ltb→le _ _ fits) (ground arith) (has_less b token at fits asked lacks)
        ]
      ]
    ]

-- With the bucket valid and the refill inside the machine word, a call of `need_to_wait` takes exactly
-- one of four ways: it refuses more than the capacity, lets a request for nothing pass, takes the
-- tokens from the exact refill, or reports that the refill is too small and keeps it.
pub need_to_wait-exact :
    (b : TokenBucket) (token : ℕ) (at : Readings)
    → IsValid b
    → Fits b at.checked
    → Decision b (refilled b at.checked) token at (need_to_wait b token at)
need_to_wait-exact b token at v h =
    rw (available_token_since-refilled b at.checked h) at (need_to_wait-Decision b token at v.word)
