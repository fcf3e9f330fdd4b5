-- ===== src/Consul/Http/Ranges.antt =====
-- What the nodes of a discovery look like: src/consul/mod.rs.
use probes.Prelude.{
  ◌≡◌, refl, subst, List, [], ◌∷◌, ◌++◌, All, All-map, In, some, Bool-cases, inl, inr, ok, returns,
  Outcome-cases,
}
use probes.Prelude.Bytes.{bytes_eq}
use probes.Prelude.Int.{ℤ, pos}
use probes.Prelude.Map
use probes.Prelude.Map.{Map, get-insert}
use probes.Prelude.Text.{Text, text}
use probes.Consul.Json.{Json}
use probes.Consul.Node.{ServiceNode, ServiceNodes, to_string}
use probes.Consul.Extract.{extract_matching_services, extract_nodes}
use probes.Consul.Extract.Ranges.{IsNodeOf, extract_nodes-IsNodeOf}
use probes.Consul.Http.{
  Agent, HttpCall, http_call, list_nodes_for_service, insert_nodes, collect, list_matching_nodes,
}
use probes.Consul.Http.Ensures.{Ensures, Ensures-bind, Ensures-ok}

-- A node of one of these services, with a port that is one.
abbrev pub IsNodeIn : List Text → ServiceNode → Type 0
IsNodeIn names n = (name : Text) × In name names × IsNodeOf name n

abbrev Entries : (ServiceNode → Type 0) → Map ServiceNode → Type 0
Entries P m = (k : Text) (n : ServiceNode) → Map.get k m ≡ some n → P n

insert_nodes-Entries :
    (P : ServiceNode → Type 0) (ns : List ServiceNode) (m : Map ServiceNode)
    → All P ns
    → Entries P m
    → Entries P (insert_nodes ns m)
unfolding insert_nodes
insert_nodes-Entries P [] m h e = e
insert_nodes-Entries P (n ∷ ns) m h e =
    insert_nodes-Entries P ns (Map.insert (to_string n) n m) h.1 (λ k x got.
      elim (Bool-cases (bytes_eq (to_string n) k)) [
        | inl same ↦
            let is : n ≡ x = cc (rw (get-insert (to_string n) k n m, same) at got) in subst P is h.0
        | inr other ↦ e k x (rw (get-insert (to_string n) k n m, other) at got)
      ])

nil-Entries : (P : ServiceNode → Type 0) → Entries P []
unfolding Map.get
nil-Entries P k n e = absurd (cc e)

module _ (json : Json) (agent : Agent) (fqdn : Text) where
  list_nodes_for_service-IsNodeOf :
      (name : Text) → Ensures (All (IsNodeOf name)) (list_nodes_for_service json agent fqdn name)
  unfolding list_nodes_for_service Ensures
  list_nodes_for_service-IsNodeOf name =
      Ensures-bind (All (IsNodeOf name))
        (http_call json agent (fqdn ++ (text "/v1/catalog/service/" ++ name)) (pos 0)) _
        (λ response _. elim (Outcome-cases (extract_nodes json name response.body_json)) [
          | inl e ↦ rw e tt
          | inr (ns, e) ↦ rw e (extract_nodes-IsNodeOf json name response.body_json ns e)
        ])

  collect-IsNodeIn :
      (all : List Text) (names : List Text) (m : Map ServiceNode)
      → ((name : Text) → In name names → In name all)
      → Entries (IsNodeIn all) m
      → Ensures (Entries (IsNodeIn all)) (collect json agent fqdn names m)
  unfolding collect Ensures
  collect-IsNodeIn all [] m sub h = h
  collect-IsNodeIn all (name ∷ names) m sub h =
      Ensures-bind (Entries (IsNodeIn all)) (list_nodes_for_service json agent fqdn name) _
        (λ ns got.
          collect-IsNodeIn all names (insert_nodes ns m) (λ x i. sub x (inr i))
            (insert_nodes-Entries (IsNodeIn all) ns m
              (All-map (IsNodeOf name) (IsNodeIn all) ns (λ n q. (name, sub name (inl refl), q))
                (Ensures-ok (All (IsNodeOf name)) _ got (list_nodes_for_service-IsNodeOf name)))
              h))

  -- Each node that a successful discovery gives is a value of its type in the source: it has the name of a
  -- service that matches in the catalog which the agent has given, and its port has 16 bits.
  pub list_matching_nodes-IsNodeIn :
      (prev : ℤ) (tag : Text) (found : ServiceNodes) (k : Text) (n : ServiceNode)
      → list_matching_nodes json agent fqdn prev tag ≡ returns (ok found)
      → Map.get k found.nodes ≡ some n
      → (catalog : HttpCall json agent) × (http_call json agent
            (fqdn ++ text "/v1/catalog/services")
            prev
          ≡ returns (ok catalog))
        × IsNodeIn (extract_matching_services json tag catalog.body_json) n
  unfolding list_matching_nodes Ensures
  list_matching_nodes-IsNodeIn prev tag found k n e got =
      Ensures-ok Good _ e
        (Ensures-bind Good (http_call json agent (fqdn ++ text "/v1/catalog/services") prev) _
          (λ response called.
            let names : List Text = extract_matching_services json tag response.body_json in
            Ensures-bind Good (collect json agent fqdn names []) _ (λ nodes collected k n got. (
              response,
              called,
              Ensures-ok (Entries (IsNodeIn names)) _ collected
                  (collect-IsNodeIn names names [] (λ x i. i) (nil-Entries (IsNodeIn names))) k n
                  got,
            ))))
        k n got
    where
      Good : ServiceNodes → Type 0
      Good f =
          (k : Text) (n : ServiceNode)
          → Map.get k f.nodes ≡ some n
          → (catalog : HttpCall json agent) × (http_call json agent
                (fqdn ++ text "/v1/catalog/services") prev
              ≡ returns (ok catalog))
            × IsNodeIn (extract_matching_services json tag catalog.body_json) n
