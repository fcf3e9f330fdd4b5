-- ===== src/Tests/Bucket.antt =====
-- src/token_bucket/mod.rs at the numbers of its unit tests, and the theorems about it at concrete ones.
use probes.Prelude.{ℕ, false, ◌-◌, ◌+◌, ◌*◌, ◌≤◌, ◌≡◌, refl, ok, err, returns, arith, ◌↔◌}
use probes.TokenBucket.{
  TokenBucket, greater_than_capacity, Readings, Waited, new, nanos_per_sec, need_to_wait,
  available_token_since, update_counter, compute_wait_duration, wait_for,
}
use probes.TokenBucket.Admission.{refilled, Decision, need_to_wait-exact}
use probes.TokenBucket.Rate.{IsPerSecond, Serves, start, call, wait_for-total, Serves-le-rate}
use probes.Tests.Instances.{whole_float}

abbrev second : ℕ → ℕ
second n = n * nanos_per_sec

-- The bucket of the discovery loop, made when the clock reads 10 seconds.
abbrev bucket : TokenBucket
bucket = record { capacity = 180; quantum = 1; available = 180; last = second 10 }

starts_full : new 180 1 (second 10) ≡ bucket
unfolding new
starts_full = refl

abbrev poor : TokenBucket
poor = record bucket { available = 20 }

abbrev later : ℕ → Readings
later n = record { checked = second n; taken = second n + 7; woken = second (n + 50) }

available_since : available_token_since (record poor { available = 4; capacity = 6 }) 1 ≡ 5
unfolding available_token_since
available_since = refl

full_since : available_token_since (record poor { available = 6; capacity = 6 }) 10 ≡ 6
unfolding available_token_since
full_since = refl

wait_duration : compute_wait_duration whole_float poor 60 ≡ returns (second 40)
unfolding compute_wait_duration
wait_duration = refl

refuses_more_than_capacity :
    need_to_wait bucket 181 (later 11) ≡ (bucket, err (greater_than_capacity 181 180))
unfolding need_to_wait
refuses_more_than_capacity = refl

passes_nothing : need_to_wait poor 0 (later 11) ≡ (poor, ok false)
unfolding need_to_wait
passes_nothing = refl

takes_tokens :
    need_to_wait poor 15 (later 15)
    ≡ (record poor { available = 10; last = second 15 + 7 }, ok false)
unfolding need_to_wait available_token_since update_counter
takes_tokens = refl

poor-IsPerSecond : IsPerSecond poor
poor-IsPerSecond = record { within = omega arith; unit = refl; exact = omega arith }

need_to_wait_example :
    Decision poor (refilled poor (second 15)) 60 (later 15) (need_to_wait poor 60 (later 15))
need_to_wait_example =
    need_to_wait-exact poor 60 (later 15) (record { within = omega arith; word = omega arith })
      (omega arith)

wait_for_example :
    (w : Waited) × (wait_for whole_float poor 60 (later 15) ≡ returns w)
    × ((w.result ≡ ok tt) ↔ (60 ≤ 180))
    × (w.slept ≤ 60 * nanos_per_sec)
    × IsPerSecond w.bucket
    × (w.bucket.capacity ≡ 180)
wait_for_example = wait_for-total whole_float poor 60 (later 15) poor-IsPerSecond

-- A call that has to sleep 35 seconds, woken in time, and one that is served at once.
abbrev first_wait : Waited
first_wait = record {
  bucket = record poor { available = 0; last = second 65 };
  slept = second 35;
  result = ok tt;
}

abbrev second_wait : Waited
second_wait = record {
  bucket = record poor { available = 40; last = second 165 + 7 };
  slept = 0;
  result = ok tt;
}

two_calls : Serves whole_float poor (60 + 60) (second_wait.bucket)
unfolding wait_for need_to_wait available_token_since compute_wait_duration update_counter
two_calls =
    call 60 (later 165) second_wait
      (call 60 (later 15) first_wait start refl
        (record { before = omega arith; between = omega arith; rested = omega arith }))
      refl (record { before = omega arith; between = omega arith; rested = omega arith })

Serves-le-rate_example :
    120 * nanos_per_sec ≤ 180 * nanos_per_sec + (second_wait.bucket.last - second 10)
Serves-le-rate_example = Serves-le-rate whole_float poor poor-IsPerSecond two_calls
