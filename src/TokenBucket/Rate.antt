-- ===== src/TokenBucket/Rate.antt =====
-- Whole calls of `wait_for`, one after another, for a bucket that regains one token a second, as the
-- discovery loop makes it.
use probes.Prelude.{
  ℕ, ◌+◌, ◌-◌, ◌*◌, ◌%◌, ◌^◌, ◌≤◌, ◌<◌, ◌≡◌, refl, ap, Bool, Result, ok, err, Outcome, returns,
  arith, ◌∙◌, ◌↔◌, some,
}
use probes.Prelude.Float.{Float}
use probes.TokenBucket.{
  TokenBucket, BucketError, greater_than_capacity, Readings, Waited, elapsed_secs, nanos_per_sec,
  available_token_since, compute_wait_duration, after_check, wait_for,
}
use probes.TokenBucket.Admission.{
  Decision, too_many, nothing, enough, short, need_to_wait-Decision, available_token_since-le,
}

-- One token a second, and a capacity that a double holds exactly.
pub record IsPerSecond (b : TokenBucket) : Type 0 where
  pub within : b.available ≤ b.capacity
  pub unit : b.quantum ≡ 1
  pub exact : b.capacity < 2 ^ 53

-- What a whole call does, where `r` tokens are at hand.
pub data Settled (b : TokenBucket) (r token : ℕ) (at : Readings) (out : Outcome Waited)
    : Type 0 where
  refused :
      b.capacity < token
      → out
        ≡ returns (record {
          bucket = b;
          slept = 0;
          result = err (greater_than_capacity token b.capacity);
        })
      → Settled b r token at out
  passed :
      token ≡ 0
      → out ≡ returns (record { bucket = b; slept = 0; result = ok tt })
      → Settled b r token at out
  served :
      0 < token
      → token ≤ r
      → out
        ≡ returns (record {
          bucket = record b { available = r - token; last = at.taken };
          slept = 0;
          result = ok tt;
        })
      → Settled b r token at out
  slept :
      token ≤ b.capacity
      → r < token
      → out
        ≡ returns (record {
          bucket = record b { available = 0; last = at.woken };
          slept = (token - r) * nanos_per_sec;
          result = ok tt;
        })
      → Settled b r token at out

module _ (float : Float) where
  whole_seconds :
      (m : ℕ)
      → m < 2 ^ 53
      → float.from_secs_f64 (float.div (float.of_u64 m) (float.of_u64 1)) ≡ some (m * nanos_per_sec)
  whole_seconds m h =
      let e : m * 1 ≡ m = omega arith in
      ap float.from_secs_f64 (rw e at (float.div_exact m 1 (omega arith) (omega arith)))
      ∙ float.secs_exact m h

  compute_wait_duration_lem :
      (b : TokenBucket) (token : ℕ)
      → b.quantum ≡ 1
      → b.available ≤ token
      → token < 2 ^ 53
      → compute_wait_duration float b token ≡ returns ((token - b.available) * nanos_per_sec)
  compute_wait_duration_lem b token unit le lt =
      let e : (token + 2 ^ 64 - b.available) % 2 ^ 64 ≡ token - b.available = omega arith in
      unfold compute_wait_duration in
      rw (e, unit, whole_seconds (token - b.available) (omega arith)) refl

  settle :
      (b : TokenBucket) (r token : ℕ) (at : Readings) (out : TokenBucket × Result Bool BucketError)
      → IsPerSecond b
      → Decision b r token at out
      → Settled b r token at (after_check float out token at.woken)
  settle b r token at out v (too_many big e) = refused big (unfold after_check in rw e)
  settle b r token at out v (nothing z e) = passed z (unfold after_check in rw e)
  settle b r token at out v (enough p le e) = served p le (unfold after_check in rw e)
  settle b r token at out v (short le lt e) = slept le lt (unfold after_check in rw (e, wait))
    where
      open v use {exact, unit}

      wait :
          compute_wait_duration float (record b { available = r }) token
          ≡ returns ((token - r) * nanos_per_sec)
      wait =
          compute_wait_duration_lem (record b { available = r }) token unit (omega arith)
            (omega arith)

  wait_for-Settled :
      (b : TokenBucket) (token : ℕ) (at : Readings)
      → IsPerSecond b
      → Settled b
          (available_token_since b (elapsed_secs b.last at.checked))
          token
          at
          (wait_for float b token at)
  wait_for-Settled b token at v =
      unfold wait_for in settle b _ token at _ v (need_to_wait-Decision b token at (omega arith))

  abbrev Total : TokenBucket → ℕ → Outcome Waited → Type 0
  Total b token out =
      (w : Waited) × (out ≡ returns w)
      × ((w.result ≡ ok tt) ↔ (token ≤ b.capacity))
      × (w.slept ≤ token * nanos_per_sec)
      × IsPerSecond w.bucket
      × (w.bucket.capacity ≡ b.capacity)

  Settled-Total :
      (b : TokenBucket) (r token : ℕ) (at : Readings) (out : Outcome Waited)
      → IsPerSecond b
      → r ≤ b.capacity
      → Settled b r token at out
      → Total b token out
  Settled-Total b r token at out v h (refused big e) =
      (_, e, (λ f. absurd (cc), λ le. absurd (omega arith)), omega arith, v, refl)
  Settled-Total b r token at out v h (passed z e) =
      (_, e, (λ f. omega arith, λ le. refl), omega arith, v, refl)
  Settled-Total b r token at out v h (served p le e) =
      (_, e, (λ f. omega arith, λ le. refl), omega arith, ground arith, refl)
  Settled-Total b r token at out v h (slept le lt e) =
      (_, e, (λ f. omega arith, λ le. refl), omega arith, ground arith, refl)

  -- For a bucket that regains one token a second, holds no more than its capacity, and has a
  -- capacity below 2 ^ 53: a call never panics, it fails exactly when it asks for more than the
  -- capacity, it sleeps at most one second for each token asked for, and it leaves such a bucket of
  -- the same capacity.
  pub wait_for-total :
      (b : TokenBucket) (token : ℕ) (at : Readings)
      → IsPerSecond b
      → (w : Waited) × (wait_for float b token at ≡ returns w)
        × ((w.result ≡ ok tt) ↔ (token ≤ b.capacity))
        × (w.slept ≤ token * nanos_per_sec)
        × IsPerSecond w.bucket
        × (w.bucket.capacity ≡ b.capacity)
  wait_for-total b token at v =
      Settled-Total b _ token at _ v (available_token_since-le b _).0
        (wait_for-Settled b token at v)

-- The tokens that a finished call has let through.
abbrev pub granted : ℕ → Waited → ℕ
granted token w = elim w.result [ ok _ ↦ token | err _ ↦ 0 ]

-- The clock goes on between the readings, and the task wakes no earlier than its sleep ends.
pub record IsTimely (b : TokenBucket) (at : Readings) (w : Waited) : Type 0 where
  pub before : b.last ≤ at.checked
  pub between : at.checked ≤ at.taken
  pub rested : at.checked + w.slept ≤ at.woken

-- Calls one after another: the tokens let through in all, and the bucket after them.
pub data Serves (float : Float) (b : TokenBucket) : ℕ → TokenBucket → Type 0 where
  start : Serves float b 0 b
  call :
      {n : ℕ} {c : TokenBucket} (token : ℕ) (at : Readings) (w : Waited)
      → Serves float b n c
      → wait_for float c token at ≡ returns w
      → IsTimely c at w
      → Serves float b (n + granted token w) w.bucket

Settled-balance :
    (b : TokenBucket) (r token : ℕ) (at : Readings) (w : Waited)
    → IsTimely b at w
    → (r - b.available) * nanos_per_sec + b.last ≤ at.checked
    → Settled b r token at (returns w)
    → (granted token w + w.bucket.available) * nanos_per_sec + b.last
      ≤ b.available * nanos_per_sec + w.bucket.last
Settled-balance b r token at w t h (refused big e) = ground arith
Settled-balance b r token at w t h (passed z e) = ground arith
Settled-balance b r token at w t h (served p le e) = ground arith
Settled-balance b r token at w t h (slept le lt e) = ground arith

module _ (float : Float) where
  call_balance :
      (c : TokenBucket) (token : ℕ) (at : Readings) (w : Waited)
      → IsPerSecond c
      → wait_for float c token at ≡ returns w
      → IsTimely c at w
      → IsPerSecond w.bucket
        × (w.bucket.capacity ≡ c.capacity)
        × ((granted token w + w.bucket.available) * nanos_per_sec + c.last
            ≤ c.available * nanos_per_sec + w.bucket.last)
  call_balance c token at w v e t =
      let (w', e', _, _, v', k) = wait_for-total float c token at v in
      let same : w' ≡ w = cc in
      let r : ℕ = available_token_since c (elapsed_secs c.last at.checked) in
      let refill : r ≤ c.available + elapsed_secs c.last at.checked * c.quantum =
        (available_token_since-le c (elapsed_secs c.last at.checked)).1 in
      let rate : elapsed_secs c.last at.checked * c.quantum ≡ elapsed_secs c.last at.checked * 1 =
        ap (λ q. elapsed_secs c.last at.checked * q) v.unit in
      (
        rw same at v',
        rw same at k,
        Settled-balance c r token at w t (omega arith)
            (rw e at (wait_for-Settled float c token at v)),
      )

  Serves-balance :
      (b : TokenBucket) {n : ℕ} {c : TokenBucket}
      → IsPerSecond b
      → Serves float b n c
      → IsPerSecond c
        × (c.capacity ≡ b.capacity)
        × ((n + c.available) * nanos_per_sec + b.last ≤ b.available * nanos_per_sec + c.last)
  Serves-balance b v start = (v, refl, omega arith)
  Serves-balance b v (call token at w before e t) =
      let (vc, kc, bc) = Serves-balance b v before in
      let (vw, kw, bw) = call_balance _ token at w vc e t in (vw, kw ∙ kc, omega arith)

  -- However many calls are made one after another, and whatever they ask for: the tokens that they
  -- let through, a second counted for each, are at most the capacity in seconds plus the time that
  -- passes between the first and the last state of the bucket. (The bucket regains one token a
  -- second, its capacity is below 2 ^ 53, and no sleep is cut short.)
  pub Serves-le-rate :
      (b : TokenBucket) {n : ℕ} {c : TokenBucket}
      → IsPerSecond b
      → Serves float b n c
      → n * nanos_per_sec ≤ b.capacity * nanos_per_sec + (c.last - b.last)
  Serves-le-rate b v s =
      let (_, _, balance) = Serves-balance b v s in
      let within : b.available ≤ b.capacity = v.within in omega arith
