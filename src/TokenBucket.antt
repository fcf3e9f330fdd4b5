-- ===== src/TokenBucket.antt =====
-- src/token_bucket/mod.rs: the token bucket that limits the discovery calls.
-- A `u64` is a number with its wrap-around written out, as in the release build. An `Instant` is a
-- number of nanoseconds; each reading of the clock is an argument, in the order of the readings.
pub mod Admission
pub mod Rate
use Prim.Native.Nat.{min}
use probes.Prelude.{
  ℕ, ◌+◌, ◌-◌, ◌*◌, ◌/◌, ◌%◌, ◌^◌, Bool, true, false, ltb, leb, ◌==◌, if◌then◌else◌, Result, ok,
  err, Outcome, returns, ◌>>=◌, unwrap,
}
use probes.Prelude.Float.{Float}

pub record TokenBucket : Type 0 where
  pub capacity : ℕ
  pub quantum : ℕ
  pub available : ℕ
  pub last : ℕ

-- The error text names the two numbers that it is built from.
pub data BucketError : Type 0 where
  greater_than_capacity : ℕ → ℕ → BucketError

abbrev pub nanos_per_sec : ℕ
nanos_per_sec = 10 ^ 9

-- `now.duration_since(last).as_secs()`, which is 0 where the clock reads earlier.
abbrev pub elapsed_secs : ℕ → ℕ → ℕ
elapsed_secs last now = (now - last) / nanos_per_sec

unfoldable pub new : ℕ → ℕ → ℕ → TokenBucket
new capacity quantum now = record {
  capacity = capacity;
  quantum = quantum;
  available = capacity;
  last = now;
}

unfoldable pub available_token_since : TokenBucket → ℕ → ℕ
available_token_since b elapsed =
    min b.capacity ((b.available + elapsed * b.quantum % 2 ^ 64) % 2 ^ 64)

unfoldable pub update_counter : TokenBucket → ℕ → ℕ → TokenBucket
update_counter b token now = record b {
  available = (b.available + 2 ^ 64 - token) % 2 ^ 64;
  last = now;
}

-- How long to wait, in nanoseconds.
unfoldable pub compute_wait_duration : Float → TokenBucket → ℕ → Outcome ℕ
compute_wait_duration float b token =
    let token_needed = (token + 2 ^ 64 - b.available) % 2 ^ 64 in
    unwrap (float.from_secs_f64 (float.div (float.of_u64 token_needed) (float.of_u64 b.quantum)))

-- The clock is read for the time since `last`, and again where tokens are taken.
pub record Readings : Type 0 where
  pub checked : ℕ
  pub taken : ℕ
  -- when the task runs again after its sleep
  pub woken : ℕ

unfoldable pub need_to_wait : TokenBucket → ℕ → Readings → TokenBucket × Result Bool BucketError
unfolding available_token_since update_counter
need_to_wait b token at =
    if ltb b.capacity token
    then (b, err (greater_than_capacity token b.capacity))
    else if token == 0
    then (b, ok false)
    else (let b' : TokenBucket = record b {
      available = available_token_since b (elapsed_secs b.last at.checked);
    } in
        if leb token b'.available
        then (update_counter b' token at.taken, ok false)
        else (b', ok true))

-- What a finished `wait_for` leaves: the bucket, and how long it slept.
pub record Waited : Type 0 where
  pub bucket : TokenBucket
  pub slept : ℕ
  pub result : Result (Unit {0}) BucketError

-- The `match` of `wait_for` on the result of `need_to_wait`.
after_check : Float → TokenBucket × Result Bool BucketError → ℕ → ℕ → Outcome Waited
after_check float (b, ok true) token woken = do
  wait ← compute_wait_duration float b token
  returns
      (record { bucket = record b { available = 0; last = woken }; slept = wait; result = ok tt })
after_check float (b, ok false) token woken =
    returns (record { bucket = b; slept = 0; result = ok tt })
after_check float (b, err issue) token woken =
    returns (record { bucket = b; slept = 0; result = err issue })

unfoldable pub wait_for : Float → TokenBucket → ℕ → Readings → Outcome Waited
unfolding after_check need_to_wait compute_wait_duration
wait_for float b token at = after_check float (need_to_wait b token at) token at.woken
