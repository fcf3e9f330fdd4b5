-- ===== src/Consul/Http/Keys.antt =====
-- The map of nodes that a discovery of src/consul/mod.rs gives.
use probes.Prelude.{◌≡◌, List, [], ◌∷◌, ◌++◌, some, ok, returns, arith}
use probes.Prelude.Bytes.{bytes_eq→eq}
use probes.Prelude.Int.{ℤ}
use probes.Prelude.Map
use probes.Prelude.Map.{Map, Distinct, get-insert, insert-Distinct}
use probes.Prelude.Text.{Text, text}
use probes.Consul.Json.{Json}
use probes.Consul.Node.{ServiceNode, ServiceNodes, to_string}
use probes.Consul.Extract.{extract_matching_services}
use probes.Consul.Http.{
  Agent, http_call, list_nodes_for_service, insert_nodes, collect, list_matching_nodes,
}
use probes.Consul.Http.Ensures.{Ensures, Ensures-bind, Ensures-ok}

no_entry : (k : Text) {n : ServiceNode} → ¬ (Map.get k [] ≡ some n)
unfolding Map.get
no_entry k h = cc

-- No key twice, and each node under its own key.
pub record IsKeyed (m : Map ServiceNode) : Type 0 where
  pub distinct : Distinct m
  pub own_key : (k : Text) (n : ServiceNode) → Map.get k m ≡ some n → to_string n ≡ k

insert-IsKeyed :
    (n : ServiceNode) (m : Map ServiceNode) → IsKeyed m → IsKeyed (Map.insert (to_string n) n m)
insert-IsKeyed n m h = record {
  distinct = insert-Distinct (to_string n) n m h.distinct;
  own_key = λ k x e.
      ground (arith, get-insert (to_string n) k n m, bytes_eq→eq (to_string n) k, h.own_key k x);
}

insert_nodes-IsKeyed :
    (ns : List ServiceNode) (m : Map ServiceNode) → IsKeyed m → IsKeyed (insert_nodes ns m)
unfolding insert_nodes
insert_nodes-IsKeyed [] m h = h
insert_nodes-IsKeyed (n ∷ ns) m h =
    insert_nodes-IsKeyed ns (Map.insert (to_string n) n m) (insert-IsKeyed n m h)

module _ (json : Json) (agent : Agent) where
  collect-IsKeyed :
      (fqdn : Text) (names : List Text) (m : Map ServiceNode)
      → IsKeyed m
      → Ensures IsKeyed (collect json agent fqdn names m)
  unfolding collect Ensures
  collect-IsKeyed fqdn [] m h = h
  collect-IsKeyed fqdn (name ∷ names) m h =
      Ensures-bind IsKeyed (list_nodes_for_service json agent fqdn name) _
        (λ ns _. collect-IsKeyed fqdn names (insert_nodes ns m) (insert_nodes-IsKeyed ns m h))

  -- A discovery that succeeds gives a map in which no key stands twice and each node stands under its
  -- own key, whatever the agent answers.
  pub list_matching_nodes-IsKeyed :
      (fqdn tag : Text) (prev : ℤ) (found : ServiceNodes)
      → list_matching_nodes json agent fqdn prev tag ≡ returns (ok found)
      → IsKeyed found.nodes
  unfolding list_matching_nodes Ensures
  list_matching_nodes-IsKeyed fqdn tag prev found e =
      Ensures-ok (λ (f : ServiceNodes). IsKeyed f.nodes) _ e
        (Ensures-bind (λ (f : ServiceNodes). IsKeyed f.nodes)
          (http_call json agent (fqdn ++ text "/v1/catalog/services") prev) _
          (λ response _.
            Ensures-bind (λ (f : ServiceNodes). IsKeyed f.nodes)
              (collect json agent fqdn (extract_matching_services json tag response.body_json) []) _
              (λ nodes got. Ensures-ok IsKeyed _ got (
                collect-IsKeyed fqdn (extract_matching_services json tag response.body_json) []
                  (record { distinct = tt; own_key = λ k n e. absurd (no_entry k e) })))))
