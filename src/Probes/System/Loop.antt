-- ===== src/Probes/System/Loop.antt =====
-- The discovery loop of src/probes/mod.rs beside the tasks: each run of both is a run of the system.
use probes.Prelude.{
  ℕ, ◌≡◌, ◌≢◌, refl, subst, sym, ap, ◌∙◌, List, [], ◌∷◌, Result, ok, err, Outcome, returns, panics,
  >>=-eq-returns, inl, inr,
}
use probes.Prelude.Float.{Float}
use probes.Memcached.Cursor.{Buf}
use probes.TokenBucket.{BucketError}
use probes.Consul.Json.{Json}
use probes.Consul.Node.{ServiceNodes}
use probes.Consul.Http.{Try}
use probes.Consul.Http.Keys.{IsKeyed, list_matching_nodes-IsKeyed}
use probes.Probes.Node.{World}
use probes.Probes.Services.{ProbeServices, sync}
use probes.Probes.Watch.{Watching, Tick, discover, on_discovery, turn, watch_matching_services}
use probes.Probes.Watch.Turns.{IsSound, turn-on_discovery, turn-cases}
use probes.Probes.Watch.Endless.{watch-split}
use probes.Probes.System.{System, Event, discovered, turned, apply, run}

-- What happens: a turn of the loop, or a turn of the task of a channel.
pub data Happening : Type 0 where
  looped : Tick → Happening
  task_turned : ℕ → World → Happening

abbrev pub loop_ticks : List Happening → List Tick
loop_ticks [] = []
loop_ticks (looped tick ∷ hs) = tick ∷ loop_ticks hs
loop_ticks (task_turned i w ∷ hs) = loop_ticks hs

-- The events of what a discovery gives, before those of the rest.
unfoldable pub found_then : Try ServiceNodes → List Event → List Event
found_then (returns (ok found)) es = discovered found.nodes ∷ es
found_then (returns (err e)) es = es
found_then panics es = []

-- What follows a turn of the loop.
unfoldable pub then_events :
    (Watching → List Event) → Outcome (Result Watching BucketError) → List Event
then_events more (returns (ok w)) = more w
then_events more (returns (err issue)) = []
then_events more panics = []

-- All discoveries have each node under its own key.
abbrev pub Keyed : List Event → Type 0
Keyed [] = Unit {0}
Keyed (discovered d ∷ es) = IsKeyed d × Keyed es
Keyed (turned i w ∷ es) = Keyed es

-- The probed nodes after a discovery.
services_after : ProbeServices → Try ServiceNodes → ProbeServices
services_after s (returns (ok found)) = sync found.nodes s
services_after s (returns (err e)) = s
services_after s panics = s

loop_services : Outcome (Result Watching BucketError) → ProbeServices → ProbeServices
loop_services (returns (ok w)) s = w.services
loop_services (returns (err issue)) s = s
loop_services panics s = s

services_of : Outcome Watching → ProbeServices → ProbeServices
services_of (returns w) s = w.services
services_of panics s = s

module _ (float : Float) (json : Json) where
  -- The events of the system, where the loop is at `w`.
  unfoldable pub events : Watching → List Happening → List Event
  unfolding found_then then_events
  events w [] = []
  events w (task_turned i x ∷ hs) = turned i x ∷ events w hs
  events w (looped tick ∷ hs) =
      found_then (discover float json w tick.agent)
        (then_events (λ w'. events w' hs) (turn float json w tick))

  on_discovery-services :
      (w w' : Watching) (found : Try ServiceNodes)
      → on_discovery w found ≡ returns w'
      → (w'.services ≡ services_after w.services found) × (found ≢ panics)
  unfolding services_after on_discovery services_of
  on_discovery-services w w' (returns (ok nodes)) e =
      (sym (ap (λ o. services_of o w.services) e), λ p. cc)
  on_discovery-services w w' (returns (err x)) e =
      (sym (ap (λ o. services_of o w.services) e), λ p. cc)
  on_discovery-services w w' panics e = absurd (cc)

  turn-services :
      (w : Watching) (tick : Tick) (w' : Watching)
      → IsSound w
      → turn float json w tick ≡ returns (ok w')
      → (w'.services ≡ services_after w.services (discover float json w tick.agent))
        × (discover float json w tick.agent ≢ panics)
  unfolding services_after
  turn-services w tick w' s e =
      let (waited, _, _, _, _, same) = turn-on_discovery float json w tick s in
      let (w₁, d, r) =
        >>=-eq-returns
          (on_discovery (record w { token_bucket = waited.bucket })
            (discover float json w tick.agent))
          _ (sym same ∙ e) in
      let is : w₁ ≡ w' = cc in
      let (after, sound) =
        on_discovery-services (record w { token_bucket = waited.bucket }) w₁
          (discover float json w tick.agent) d in
      (sym (ap (λ (x : Watching). x.services) is) ∙ after, sound)

  turn-next-IsSound :
      (w : Watching) (tick : Tick) (w' : Watching)
      → IsSound w
      → turn float json w tick ≡ returns (ok w')
      → IsSound w'
  turn-next-IsSound w tick w' s e = elim (turn-cases float json w tick s) [
    | inl p ↦ absurd (cc)
    | inr (w₁, q, s₁) ↦ let is : w₁ ≡ w' = cc in subst IsSound is s₁
  ]

  found_then-run :
      (src : Buf) (es : List Event) (s : System) (found : Try ServiceNodes)
      → found ≢ panics
      → ((n : ServiceNodes) → found ≡ returns (ok n) → IsKeyed n.nodes)
      → (s₁ : System) × (run src (found_then found es) s ≡ run src es s₁)
        × (s₁.services ≡ services_after s.services found)
        × (Keyed es → Keyed (found_then found es))
  unfolding found_then run services_after apply
  found_then-run src es s (returns (ok n)) sound keyed =
      (apply src (discovered n.nodes) s, refl, refl, λ k. (keyed n refl, k))
  found_then-run src es s (returns (err e)) sound keyed = (s, refl, refl, λ k. k)
  found_then-run src es s panics sound keyed = absurd (sound refl)

  discover-IsKeyed :
      (w : Watching) (tick : Tick) (n : ServiceNodes)
      → discover float json w tick.agent ≡ returns (ok n)
      → IsKeyed n.nodes
  unfolding discover
  discover-IsKeyed w tick n e =
      list_matching_nodes-IsKeyed json tick.agent w.services.consul_client.fqdn w.services.tag
        w.index n e

  -- The discovery loop beside the tasks is the system: from a sound state, after any turns of the loop and of
  -- tasks, in whatever order, that leave the loop going, the probed nodes of the loop are those of the system
  -- after the events that these turns are for it, and each of its discoveries has each node under its own key.
  pub run-events :
      (src : Buf) (w w' : Watching) (hs : List Happening) (s : System)
      → IsSound w
      → s.services ≡ w.services
      → watch_matching_services float json w (loop_ticks hs) ≡ returns (ok w')
      → ((run src (events w hs) s).services ≡ w'.services) × Keyed (events w hs)
  unfolding run events
  run-events src w w' [] s sound same e = (
    same
        ∙ unfold watch_matching_services loop_services in
          ap (λ (o : Outcome (Result Watching BucketError)). loop_services o w.services) e,
    tt,
  )
  run-events src w w' (task_turned i x ∷ hs) s sound same e =
      run-events src w w' hs (apply src (turned i x) s) sound (unfold apply in same) e
  run-events src w w' (looped tick ∷ hs) s sound same e =
      let (w₁, t, rest) = watch-split float json w tick (loop_ticks hs) e in
      let (after, fine) = turn-services w tick w₁ sound t in
      let found : Try ServiceNodes = discover float json w tick.agent in
      let (s₁, ran, so, keyed) =
        found_then-run src (events w₁ hs) s found fine (λ n. discover-IsKeyed w tick n) in
      let (same', all) =
        run-events src w₁ w' hs s₁ (turn-next-IsSound w tick w₁ sound t)
          (so ∙ ap (λ x. services_after x found) same ∙ sym after) rest in
      rw (t, then_events) (ap (λ (x : System). x.services) ran ∙ same', keyed all)
