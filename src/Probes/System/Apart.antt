-- ===== src/Probes/System/Apart.antt =====
-- The discoveries of an agent that keeps to its documentation tell nodes apart: src/probes/mod.rs.
use probes.Prelude.{
  some, ◌≡◌, ◌≢◌, refl, subst, sym, List, [], ◌∷◌, All, In, inl, inr, Result, ok, err, Outcome,
  returns, panics,
}
use probes.Prelude.Float.{Float}
use probes.Prelude.Int.{ℤ}
use probes.Prelude.Text.{Text}
use probes.TokenBucket.{BucketError}
use probes.Consul.Json.{Json}
use probes.Consul.Node.{ServiceNodes}
use probes.Consul.Node.Keys.{colon}
use probes.Consul.Extract.{extract_matching_services}
use probes.Consul.Extract.Matching.{extract_matching_services-keys}
use probes.Consul.Http.{Agent, Try, HttpCall, http_call}
use probes.Consul.Http.Calm.{IsBody, http_call-IsBody, Conforming, list_matching_nodes-returns}
use probes.Consul.Http.Ensures.{Ensures-ok}
use probes.Consul.Http.Keys.{list_matching_nodes-IsKeyed}
use probes.Consul.Http.Ranges.{list_matching_nodes-IsNodeIn}
use probes.Probes.Watch.{Watching, Tick, discover, turn}
use probes.Probes.Watch.Turns.{IsCalm}
use probes.Probes.System.{Event}
use probes.Probes.System.Latest.{ArePlain, Plain}
use probes.Probes.System.Loop.{
  Happening, looped, task_turned, loop_ticks, found_then, then_events, events,
}

module _ (json : Json) where
  -- An agent that keeps to what consul documents, and that has no colon in the keys of its objects: the
  -- names of its services.
  pub record Documented (agent : Agent) : Type 0 where
    pub conforming : Conforming json agent
    pub no_colon :
        (uri : Text) (v : json.Value) (o : json.Object) (name : Text)
        → IsBody json agent uri v
        → json.as_object v ≡ some o
        → In name (json.object_keys o)
        → All (λ c. c ≢ colon) name

  -- The names that match are keys of the catalog.
  extract_matching_services-no_colon :
      (agent : Agent) (uri : Text) (prev : ℤ) (tag : Text) (catalog : HttpCall json agent)
      (name : Text)
      → Documented agent
      → http_call json agent uri prev ≡ returns (ok catalog)
      → In name (extract_matching_services json tag catalog.body_json)
      → All (λ c. c ≢ colon) name
  extract_matching_services-no_colon agent uri prev tag catalog name doc called i =
      let (o, is, key) = extract_matching_services-keys json tag catalog.body_json name i in
      elim (Ensures-ok _ _ called (http_call-IsBody json agent uri prev)) [
        | inl e ↦ absurd (cc (rw e at is, json.null-as_object))
        | inr body ↦ doc.no_colon _ catalog.body_json o name body is key
      ]

  pub Documented-IsCalm : (agent : Agent) → Documented agent → IsCalm json agent
  Documented-IsCalm agent doc fqdn tag index h =
      let (r, e) = list_matching_nodes-returns json agent fqdn tag index doc.conforming in cc

  module _ (float : Float) where
    discover-ArePlain :
        (w : Watching) (tick : Tick) (n : ServiceNodes)
        → Documented tick.agent
        → discover float json w tick.agent ≡ returns (ok n)
        → ArePlain n.nodes
    unfolding discover
    discover-ArePlain w tick n doc e = record {
      keyed =
          list_matching_nodes-IsKeyed json tick.agent w.services.consul_client.fqdn w.services.tag
            w.index n e;
      plain = λ k node there.
          let (catalog, called, (name, i, of)) =
            list_matching_nodes-IsNodeIn json tick.agent w.services.consul_client.fqdn w.index
              w.services.tag n k node e there in
          record {
            name = subst (All (λ c. c ≢ colon)) (sym of.named) (
                extract_matching_services-no_colon tick.agent _ w.index w.services.tag catalog name
                  doc called i);
            port = of.port_fits;
          };
    }

    found_then-Plain :
        (found : Try ServiceNodes) (es : List Event)
        → ((n : ServiceNodes) → found ≡ returns (ok n) → ArePlain n.nodes)
        → Plain es
        → Plain (found_then found es)
    unfolding found_then
    found_then-Plain (returns (ok n)) es plain p = (plain n refl, p)
    found_then-Plain (returns (err e)) es plain p = p
    found_then-Plain panics es plain p = tt

    then_events-Plain :
        (more : Watching → List Event) (o : Outcome (Result Watching BucketError))
        → ((w : Watching) → Plain (more w))
        → Plain (then_events more o)
    unfolding then_events
    then_events-Plain more (returns (ok w)) h = h w
    then_events-Plain more (returns (err e)) h = tt
    then_events-Plain more panics h = tt

    pub events-Plain :
        (w : Watching) (hs : List Happening)
        → All (λ tick. Documented tick.agent) (loop_ticks hs)
        → Plain (events float json w hs)
    unfolding events
    events-Plain w [] all = tt
    events-Plain w (task_turned i x ∷ hs) all = events-Plain w hs all
    events-Plain w (looped tick ∷ hs) all =
        found_then-Plain (discover float json w tick.agent) _
          (λ n. discover-ArePlain w tick n all.0)
          (then_events-Plain (λ w'. events float json w' hs) (turn float json w tick)
            (λ w'. events-Plain w' hs all.1))
