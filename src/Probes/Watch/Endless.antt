-- ===== src/Probes/Watch/Endless.antt =====
-- The discovery loop of src/probes/mod.rs does not end.
use probes.Prelude.{
  ℕ, ◌≡◌, refl, List, [], ◌∷◌, All, ok, err, returns, ◌∙◌, >>=-eq-returns, Result, Outcome, ap,
}
use probes.Prelude.Float.{Float}
use probes.Prelude.Text.{Text}
use probes.TokenBucket.{BucketError}
use probes.Consul.Json.{Json}
use probes.Probes.Watch.{Watching, Tick, init_probing, turn, next_turn, watch_matching_services}
use probes.Probes.Watch.Turns.{IsSound, IsCalm, init_probing-IsSound, turn-IsSound}

module _ (float : Float) (json : Json) where
  next_turn-ok :
      (more : Watching → Outcome (Result Watching BucketError)) (o : Result Watching BucketError)
      {w : Watching}
      → next_turn float json more o ≡ returns (ok w)
      → (w₁ : Watching) × (o ≡ ok w₁) × (more w₁ ≡ returns (ok w))
  unfolding next_turn
  next_turn-ok more (ok w₁) e = (w₁, refl, e)
  next_turn-ok more (err issue) e = absurd (cc)

  -- The first turn of the loop, and the rest.
  pub watch-split :
      (w : Watching) (tick : Tick) (ticks : List Tick) {w' : Watching}
      → watch_matching_services float json w (tick ∷ ticks) ≡ returns (ok w')
      → (w₁ : Watching) × (turn float json w tick ≡ returns (ok w₁))
        × (watch_matching_services float json w₁ ticks ≡ returns (ok w'))
  unfolding watch_matching_services
  watch-split w tick ticks e =
      let (o, made, rest) = >>=-eq-returns (turn float json w tick) _ e in
      let (w₁, is_ok, more) =
        next_turn-ok (λ w'. watch_matching_services float json w' ticks) o rest in
      (w₁, made ∙ ap returns is_ok, more)

  -- From a sound state the loop goes on over any number of turns in which no discovery panics, to a
  -- sound state.
  pub watch-goes_on :
      (w : Watching) (ticks : List Tick)
      → IsSound w
      → All (λ tick. IsCalm json tick.agent) ticks
      → (w' : Watching) × (watch_matching_services float json w ticks ≡ returns (ok w'))
        × IsSound w'
  unfolding watch_matching_services next_turn
  watch-goes_on w [] s calm = (w, refl, s)
  watch-goes_on w (tick ∷ ticks) s calm =
      let (w₁, e₁, s₁) = turn-IsSound float json w tick s calm.0 in
      let (w₂, e₂, s₂) = watch-goes_on w₁ ticks s₁ calm.1 in (w₂, rw e₁ e₂, s₂)

  -- The discovery loop that `init_probing` starts does not end: over any number of turns, whether
  -- the discoveries find nodes or fail, it never returns an error and never panics, as long as no
  -- discovery panics; after them the bucket can still give what a turn takes, and every stop channel
  -- is accounted for.
  pub init_probing-goes_on :
      (tag fqdn : Text) (interval now : ℕ) (ticks : List Tick)
      → All (λ tick. IsCalm json tick.agent) ticks
      → (w : Watching) × (watch_matching_services float json
            (init_probing tag fqdn interval now)
            ticks
          ≡ returns (ok w))
        × IsSound w
  init_probing-goes_on tag fqdn interval now ticks =
      watch-goes_on (init_probing tag fqdn interval now) ticks
        (init_probing-IsSound tag fqdn interval now)
