-- ===== src/Consul/Http/Calm.antt =====
-- Where a discovery of src/consul/mod.rs can panic, and the agents with which it does not.
use probes.Prelude.{
  ◌≡◌, ◌≢◌, refl, List, [], ◌∷◌, ◌++◌, In, some, none, Option-cases, Result, ok, returns, panics,
  Outcome, Outcome-cases, ◌⊎◌, inl, inr,
}
use probes.Prelude.Bytes.{Bytes}
use probes.Prelude.Int.{ℤ, pos}
use probes.Prelude.Map.{Map}
use probes.Prelude.Text.{Text, text}
use probes.Prelude.Utf8.{from_utf8}
use probes.Consul.Json.{Json}
use probes.Consul.Node.{ServiceNode, ServiceNodes}
use probes.Consul.Extract.{extract_matching_services}
use probes.Consul.Extract.Panics.{IsEntry, HasOdd, extract_nodes-panics}
use probes.Consul.Http.Ensures.{bind-panics, Ensures, Ensures-bind, Ensures-ok}
use probes.Consul.Http.Panics.{Spoiled, panics-Spoiled, or_transport-ok, must-ok}
use probes.Consul.Http.{
  Agent, ConsulError, Response, or_transport, must, lift, HttpCall, http_call, query_uri_of,
  check_uri, check_status, index_of, list_nodes_for_service, insert_nodes, collect,
  list_matching_nodes,
}

module _ (json : Json) (agent : Agent) where
  -- Some entry that the code cannot read is in the answer about a service.
  pub record OddEntry (fqdn name : Text) : Type 0 where
    pub call : HttpCall json agent
    pub called :
        http_call json agent (fqdn ++ (text "/v1/catalog/service/" ++ name)) (pos 0)
        ≡ returns (ok call)
    pub entries : List json.Value
    pub is_array : json.as_array call.body_json ≡ some entries
    pub odd : HasOdd json entries

  abbrev service_uri : Text → Text → Text
  service_uri fqdn name = query_uri_of (fqdn ++ (text "/v1/catalog/service/" ++ name)) (pos 0)

  lift-panics {ℓ} : {A : Type ℓ} (o : Outcome A) → lift o ≡ panics → o ≡ panics
  lift-panics (returns a) h = absurd (cc)
  lift-panics panics h = refl

  list_nodes_for_service-panics :
      (fqdn name : Text)
      → list_nodes_for_service json agent fqdn name ≡ panics
      → Spoiled json agent (service_uri fqdn name) ⊎ OddEntry fqdn name
  unfolding list_nodes_for_service
  list_nodes_for_service-panics fqdn name h =
      elim (bind-panics
        (http_call json agent (fqdn ++ (text "/v1/catalog/service/" ++ name)) (pos 0)) _ h) [
          | inl p ↦ inl (panics-Spoiled json agent _ (pos 0) p)
          | inr (call, called, h₁) ↦
              let (vs, a, odd) =
                (extract_nodes-panics json name call.body_json).0 (lift-panics _ h₁) in
              inr (record { call = call; called = called; entries = vs; is_array = a; odd = odd })
        ]

  collect-panics :
      (fqdn : Text) (names : List Text) (m : Map ServiceNode)
      → collect json agent fqdn names m ≡ panics
      → (name : Text) × In name names
        × (Spoiled json agent (service_uri fqdn name) ⊎ OddEntry fqdn name)
  unfolding collect
  collect-panics fqdn [] m h = absurd (cc)
  collect-panics fqdn (name ∷ names) m h =
      elim (bind-panics (list_nodes_for_service json agent fqdn name) _ h) [
        | inl p ↦ (name, inl refl, list_nodes_for_service-panics fqdn name p)
        | inr (ns, _, h₁) ↦
            let (x, i, why) = collect-panics fqdn names (insert_nodes ns m) h₁ in (x, inr i, why)
      ]

  -- What can make a discovery panic.
  pub data Spoils (fqdn : Text) (prev : ℤ) (tag : Text) : Type 0 where
    in_catalog :
        Spoiled json agent (query_uri_of (fqdn ++ text "/v1/catalog/services") prev)
        → Spoils fqdn prev tag
    in_service :
        (catalog : HttpCall json agent) (name : Text)
        → http_call json agent (fqdn ++ text "/v1/catalog/services") prev ≡ returns (ok catalog)
        → In name (extract_matching_services json tag catalog.body_json)
        → Spoiled json agent (service_uri fqdn name) ⊎ OddEntry fqdn name
        → Spoils fqdn prev tag

  pub list_matching_nodes-panics :
      (fqdn : Text) (prev : ℤ) (tag : Text)
      → list_matching_nodes json agent fqdn prev tag ≡ panics
      → Spoils fqdn prev tag
  unfolding list_matching_nodes
  list_matching_nodes-panics fqdn prev tag h =
      elim (bind-panics (http_call json agent (fqdn ++ text "/v1/catalog/services") prev) _ h) [
        | inl p ↦ in_catalog (panics-Spoiled json agent _ prev p)
        | inr (catalog, called, h₁) ↦
            elim (bind-panics
              (collect json agent fqdn (extract_matching_services json tag catalog.body_json) []) _
              h₁) [
                | inl p ↦
                    let (name, i, why) =
                      collect-panics fqdn (extract_matching_services json tag catalog.body_json) []
                        p in
                    in_service catalog name called i why
                | inr (nodes, _, h₂) ↦ absurd (cc)
              ]
      ]

  -- The value that the agent gives as the body of its answer to a query.
  pub record IsBody (query_uri : Text) (v : json.Value) : Type 0 where
    pub response : Response
    pub bytes : Bytes
    pub body_str : Text
    pub answered : agent.get query_uri ≡ ok response
    pub came : response.body ≡ ok bytes
    pub decoded : from_utf8 bytes ≡ some body_str
    pub parsed : json.from_str body_str ≡ some v

  -- The value that a call gives is that of its answer, or null.
  pub http_call-IsBody :
      (uri : Text) (prev : ℤ)
      → Ensures
          (λ call. (call.body_json ≡ json.null) ⊎ IsBody (query_uri_of uri prev) call.body_json)
          (http_call json agent uri prev)
  unfolding http_call Ensures
  http_call-IsBody uri prev =
      let q : Text = query_uri_of uri prev in
      Ensures-bind (Good q) (check_uri agent q) _ (λ _ _.
        Ensures-bind (Good q) (or_transport (agent.get q)) _ (λ resp got.
          Ensures-bind (Good q) (check_status q resp) _ (λ _ _.
            Ensures-bind (Good q) (index_of prev resp.x_consul_index) _ (λ i _.
              Ensures-bind (Good q) (or_transport resp.body) _ (λ bytes came.
                Ensures-bind (Good q) (must (from_utf8 bytes)) _ (λ body decoded.
                  elim (Option-cases (json.from_str body)) [
                    | inl e ↦ inl (rw e refl)
                    | inr (v, e) ↦ inr (
                        rw e (record {
                          response = resp;
                          bytes = bytes;
                          body_str = body;
                          answered = or_transport-ok (agent.get q) got;
                          came = or_transport-ok resp.body came;
                          decoded = must-ok (from_utf8 bytes) decoded;
                          parsed = e;
                        }))
                  ]))))))
    where
      Good : Text → HttpCall json agent → Type 0
      Good q call = (call.body_json ≡ json.null) ⊎ IsBody q call.body_json

  -- An agent that keeps to what consul documents: its index headers are texts, its bodies are UTF-8, and an
  -- array that it answers has only entries with an address and a port.
  pub record Conforming : Type 0 where
    pub text_header :
        (uri : Text) (resp : Response) → agent.get uri ≡ ok resp → resp.x_consul_index ≢ some none
    pub utf8_body :
        (uri : Text) (resp : Response) (bytes : Bytes)
        → agent.get uri ≡ ok resp
        → resp.body ≡ ok bytes
        → from_utf8 bytes ≢ none
    pub whole_entries :
        (uri : Text) (v x : json.Value) (vs : List json.Value)
        → IsBody uri v
        → json.as_array v ≡ some vs
        → In x vs
        → IsEntry json x

  Spoiled-never : Conforming → (q : Text) → ¬ Spoiled json agent q
  Spoiled-never good q s = elim s.unreadable.unreadable [
    | inl e ↦ good.text_header q s.response s.answered e
    | inr (reads, bytes, came, e) ↦ good.utf8_body q s.response bytes s.answered came e
  ]

  OddEntry-never : Conforming → (fqdn name : Text) → ¬ OddEntry fqdn name
  OddEntry-never good fqdn name o =
      let (v, i, odd) = o.odd in
      elim (Ensures-ok _ _ o.called
        (http_call-IsBody (fqdn ++ (text "/v1/catalog/service/" ++ name)) (pos 0))) [
          | inl e ↦ absurd (cc (rw e at o.is_array, json.null-as_array))
          | inr body ↦ odd (good.whole_entries _ o.call.body_json v o.entries body o.is_array i)
        ]

  -- A discovery with an agent that keeps to what consul documents never panics, whatever is asked: it
  -- finds nodes, or gives an error.
  pub list_matching_nodes-returns :
      (fqdn tag : Text) (prev : ℤ)
      → Conforming
      → (r : Result ServiceNodes ConsulError) × (list_matching_nodes json agent fqdn prev tag
          ≡ returns r)
  list_matching_nodes-returns fqdn tag prev good =
      elim (Outcome-cases (list_matching_nodes json agent fqdn prev tag)) [
        | inl p ↦ absurd (never (list_matching_nodes-panics fqdn prev tag p))
        | inr (r, e) ↦ (r, e)
      ]
    where
      never : ¬ Spoils fqdn prev tag
      never (in_catalog s) = Spoiled-never good _ s
      never (in_service catalog name called i (inl s)) = Spoiled-never good _ s
      never (in_service catalog name called i (inr o)) = OddEntry-never good fqdn name o
