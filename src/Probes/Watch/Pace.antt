-- ===== src/Probes/Watch/Pace.antt =====
-- How often the discovery loop of src/probes/mod.rs asks the agent.
use probes.Prelude.{
  ℕ, suc, ◌+◌, ◌-◌, ◌*◌, ◌≤◌, ◌≡◌, refl, ap, Result, ok, err, returns, panics, arith, ◌∙◌, sym,
  returns-injective, >>=-eq-returns,
}
use probes.Prelude.Float.{Float}
use probes.TokenBucket.{Waited, nanos_per_sec, wait_for, BucketError}
use probes.TokenBucket.Rate.{IsPerSecond, IsTimely, Serves, granted, Serves-le-rate}
use probes.TokenBucket.Rate
use probes.Consul.Json.{Json}
use probes.Consul.Node.{ServiceNodes}
use probes.Consul.Http.{Agent, Try}
use probes.Probes.Watch.{Watching, Tick, turn_tokens, on_discovery, discover, after_wait, turn}

-- Turns one after another, each of them with a discovery, where no sleep is cut short.
pub data Turns (float : Float) (json : Json) (w : Watching) : ℕ → Watching → Type 0 where
  begun : Turns float json w 0 w
  turned :
      {n : ℕ} {v v' : Watching} (tick : Tick) (waited : Waited)
      → Turns float json w n v
      → wait_for float v.token_bucket turn_tokens tick.readings ≡ returns waited
      → IsTimely v.token_bucket tick.readings waited
      → turn float json v tick ≡ returns (ok v')
      → Turns float json w (suc n) v'

on_discovery-bucket :
    (w : Watching) (found : Try ServiceNodes) {w' : Watching}
    → on_discovery w found ≡ returns w'
    → w'.token_bucket ≡ w.token_bucket
unfolding on_discovery
on_discovery-bucket w (returns (ok nodes)) e = sym (ap (λ v. v.token_bucket) (returns-injective e))
on_discovery-bucket w (returns (err x)) e = sym (ap (λ v. v.token_bucket) (returns-injective e))
on_discovery-bucket w panics e = absurd (cc)

module _ (float : Float) (json : Json) where
  after_wait-bucket :
      (w : Watching) (agent : Agent) (r : Result (Unit {0}) BucketError) {w' : Watching}
      → after_wait float json w agent r ≡ returns (ok w')
      → (w'.token_bucket ≡ w.token_bucket) × (r ≡ ok tt)
  unfolding after_wait
  after_wait-bucket w agent (ok _) {w'} h =
      let (v, d, e) = >>=-eq-returns (on_discovery w (discover float json w agent)) _ h in
      let same : w' ≡ v = cc in
      (
        ap (λ (u : Watching). u.token_bucket) same
            ∙ on_discovery-bucket w (discover float json w agent) d,
        refl,
      )
  after_wait-bucket w agent (err x) h = absurd (cc)

  turn-bucket :
      (w : Watching) (tick : Tick) (waited : Waited) {w' : Watching}
      → wait_for float w.token_bucket turn_tokens tick.readings ≡ returns waited
      → turn float json w tick ≡ returns (ok w')
      → (w'.token_bucket ≡ waited.bucket) × (granted turn_tokens waited ≡ turn_tokens)
  unfolding turn
  turn-bucket w tick waited e h =
      let (same, granted_all) =
        after_wait-bucket (record w { token_bucket = waited.bucket }) tick.agent waited.result
          (rw e at h) in
      (same, rw granted_all)

  Turns-Serves :
      (w : Watching) {n : ℕ} {v : Watching}
      → Turns float json w n v
      → Serves float w.token_bucket (n * turn_tokens) v.token_bucket
  Turns-Serves w begun = Rate.start
  Turns-Serves w (turned {n} {v} {v'} tick waited before e timely h) =
      let (same, all) = turn-bucket v tick waited e h in
      let sum : n * turn_tokens + granted turn_tokens waited ≡ suc n * turn_tokens = omega arith in
      rw (same, ← sum) (Rate.call turn_tokens tick.readings waited (Turns-Serves w before) e timely)

  -- However many turns the loop makes and whatever the agent answers: 60 seconds for each turn are
  -- at most the capacity of the bucket in seconds plus the time that passes between the first and
  -- the last state of the bucket. (The bucket regains one token a second, its capacity is below 2 ^
  -- 53, and no sleep is cut short.)
  pub Turns-le-rate :
      (w : Watching) {n : ℕ} {v : Watching}
      → IsPerSecond w.token_bucket
      → Turns float json w n v
      → n * turn_tokens * nanos_per_sec
        ≤ w.token_bucket.capacity * nanos_per_sec + (v.token_bucket.last - w.token_bucket.last)
  Turns-le-rate w rate turns = Serves-le-rate float w.token_bucket rate (Turns-Serves w turns)
