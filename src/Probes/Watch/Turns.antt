-- ===== src/Probes/Watch/Turns.antt =====
-- What the turns of the discovery loop of src/probes/mod.rs do, and what state they go on from.
use probes.Prelude.{
  ℕ, ◌≤◌, ◌≡◌, ◌≢◌, refl, ok, err, returns, panics, ◌>>=◌, arith, ◌∙◌, ◌⊎◌, inl, inr, Outcome-cases,
}
use probes.Prelude.Float.{Float}
use probes.Prelude.Int.{ℤ}
use probes.Prelude.Text.{Text}
use probes.TokenBucket
use probes.TokenBucket.{TokenBucket, BucketError, Readings, Waited, wait_for}
use probes.TokenBucket.Rate.{IsPerSecond, wait_for-total}
use probes.Consul.Json.{Json}
use probes.Consul.Node.{ServiceNodes}
use probes.Consul.Http.{Agent, Try, list_matching_nodes}
use probes.Probes.Services.{ProbeServices, sync}
use probes.Probes.Services.Sync.{sync-contains}
use probes.Prelude.Map.{contains_key}
use probes.Probes.Services.Ledger.{Ledger, new-Ledger, sync-Ledger}
use probes.Probes.Watch.{
  Watching, Tick, turn_tokens, start, init_probing, on_discovery, discover, after_wait, turn,
}

-- The bucket regains one token a second and can give what a turn takes, and the stop channels are
-- accounted for.
pub record IsSound (w : Watching) : Type 0 where
  pub rate : IsPerSecond w.token_bucket
  pub room : turn_tokens ≤ w.token_bucket.capacity
  pub ledger : Ledger w.services

start-IsSound : (s : ProbeServices) (now : ℕ) → Ledger s → IsSound (start s now)
unfolding start TokenBucket.new
start-IsSound s now l = record {
  rate = record { within = omega arith; unit = refl; exact = omega arith };
  room = omega arith;
  ledger = l;
}

-- `init_probing` starts in a sound state.
pub init_probing-IsSound :
    (tag fqdn : Text) (interval now : ℕ) → IsSound (init_probing tag fqdn interval now)
unfolding init_probing
init_probing-IsSound tag fqdn interval now =
    start-IsSound _ now (new-Ledger (record { fqdn = fqdn }) tag interval)

-- The answers of the agent never make the discovery panic, whatever is asked.
abbrev pub IsCalm : Json → Agent → Type 0
IsCalm json agent =
    (fqdn tag : Text) (index : ℤ) → list_matching_nodes json agent fqdn index tag ≢ panics

-- What a turn comes to where the discovery found these nodes.
pub record Synced (w : Watching) (nodes : ServiceNodes) (w' : Watching) : Type 0 where
  pub monitored : (k : Text) → contains_key k w'.services.probe_nodes ≡ contains_key k nodes.nodes
  pub next_index : w'.index ≡ nodes.index
  pub no_call : w'.calls ≡ w.calls

module _ (float : Float) (json : Json) where
  -- In a sound state the bucket lets a turn through, and the turn is the match on its discovery.
  pub turn-on_discovery :
      (w : Watching) (tick : Tick)
      → IsSound w
      → (waited : Waited) × (wait_for float w.token_bucket turn_tokens tick.readings
          ≡ returns waited)
        × (waited.result ≡ ok tt)
        × IsPerSecond waited.bucket
        × (turn_tokens ≤ waited.bucket.capacity)
        × (turn float json w tick ≡ (
            on_discovery
              (record w { token_bucket = waited.bucket })
              (discover float json w tick.agent)
            >>= λ w'. returns (ok w')))
  unfolding turn after_wait discover
  turn-on_discovery w tick s =
      let (waited, e, fits, _, rate, same) =
        wait_for-total float w.token_bucket turn_tokens tick.readings s.rate in
      let granted : waited.result ≡ ok tt = fits.1 s.room in
      (waited, e, granted, rate, rw same s.room, rw (e, granted))

  -- From a sound state, a turn whose discovery finds nodes goes on, with exactly these nodes
  -- monitored and the index that the agent gave.
  pub turn-Synced :
      (w : Watching) (tick : Tick) (nodes : ServiceNodes)
      → IsSound w
      → discover float json w tick.agent ≡ returns (ok nodes)
      → (w' : Watching) × (turn float json w tick ≡ returns (ok w')) × Synced w nodes w'
  unfolding on_discovery
  turn-Synced w tick nodes s found =
      let (waited, _, _, _, _, e) = turn-on_discovery w tick s in
      (
        record w {
          token_bucket = waited.bucket;
          index = nodes.index;
          services = sync nodes.nodes w.services;
        },
        e ∙ rw found,
        record {
          monitored = λ k. sync-contains nodes.nodes w.services k;
          next_index = refl;
          no_call = refl;
        },
      )

  on_discovery-IsSound :
      (w : Watching) (found : Try ServiceNodes)
      → IsSound w
      → found ≢ panics
      → (w' : Watching) × (on_discovery w found ≡ returns w') × IsSound w'
  unfolding on_discovery
  on_discovery-IsSound w (returns (ok nodes)) s h = (
    _,
    refl,
    record { rate = s.rate; room = s.room; ledger = sync-Ledger nodes.nodes w.services s.ledger },
  )
  on_discovery-IsSound w (returns (err e)) s h =
      (_, refl, record { rate = s.rate; room = s.room; ledger = s.ledger })
  on_discovery-IsSound w panics s h = absurd (h refl)

  pub turn-IsSound :
      (w : Watching) (tick : Tick)
      → IsSound w
      → IsCalm json tick.agent
      → (w' : Watching) × (turn float json w tick ≡ returns (ok w')) × IsSound w'
  unfolding discover
  turn-IsSound w tick s calm =
      let (waited, _, _, rate, room, e) = turn-on_discovery w tick s in
      let (w', d, s') =
        on_discovery-IsSound (record w { token_bucket = waited.bucket })
          (discover float json w tick.agent)
          (record { rate = rate; room = room; ledger = s.ledger })
          (calm w.services.consul_client.fqdn w.services.tag w.index) in
      (w', e ∙ rw d refl, s')

  -- A turn from a sound state panics, or goes on.
  pub turn-cases :
      (w : Watching) (tick : Tick)
      → IsSound w
      → (turn float json w tick ≡ panics)
        ⊎ ((w' : Watching) × (turn float json w tick ≡ returns (ok w')) × IsSound w')
  unfolding discover on_discovery
  turn-cases w tick s =
      let (waited, _, _, rate, room, e) = turn-on_discovery w tick s in
      elim (Outcome-cases (discover float json w tick.agent)) [
        | inl p ↦ inl (e ∙ rw p refl)
        | inr (found, q) ↦
            let (w', d, s') =
              on_discovery-IsSound (record w { token_bucket = waited.bucket }) (returns found)
                (record { rate = rate; room = room; ledger = s.ledger }) (cc) in
            inr (w', e ∙ rw q (rw d refl), s')
      ]
