-- ===== src/Consul/Extract/Ranges.antt =====
-- The nodes that an answer describes: src/consul/mod.rs.
use probes.Prelude.{
  ℕ, ◌%◌, ◌^◌, ◌<◌, ◌≡◌, refl, subst, List, [], ◌∷◌, All, Option, none, some, returns, unwrap,
  >>=-eq-returns, arith,
}
use probes.Prelude.Text.{Text, text}
use probes.Consul.Json.{Json}
use probes.Consul.Node.{ServiceNode}
use probes.Consul.Extract.{extract_nodes, get_service_address_port, map_nodes, nodes_of}

-- A node of this service, with a port that is one.
pub record IsNodeOf (name : Text) (n : ServiceNode) : Type 0 where
  pub named : n.service_name ≡ name
  pub port_fits : n.port < 2 ^ 16

fits : (m : ℕ) → m % 2 ^ 16 < 2 ^ 16
fits m = omega arith

module _ (json : Json) where
  open json use {Value, as_object, object_get, as_str, as_u64, as_array}

  get_service_address_port-IsNodeOf :
      (name : Text) (v : Value) (n : ServiceNode)
      → get_service_address_port json name v ≡ returns n
      → IsNodeOf name n
  unfolding get_service_address_port
  get_service_address_port-IsNodeOf name v n h =
      let (o, e₁, h₁) = >>=-eq-returns (unwrap (as_object v)) _ h in
      let (a, e₂, h₂) = >>=-eq-returns (unwrap (object_get o (text "ServiceAddress"))) _ h₁ in
      let (ip, e₃, h₃) = >>=-eq-returns (unwrap (as_str a)) _ h₂ in
      let (p, e₄, h₄) = >>=-eq-returns (unwrap (object_get o (text "ServicePort"))) _ h₃ in
      let (port, e₅, h₅) = >>=-eq-returns (unwrap (as_u64 p)) _ h₄ in
      let same : record { service_name = name; ip = ip; port = port % 2 ^ 16 } ≡ n = cc in
      subst (IsNodeOf name) same (record { named = refl; port_fits = fits port })

  map_nodes-IsNodeOf :
      (name : Text) (vs : List Value) (ns : List ServiceNode)
      → map_nodes json name vs ≡ returns ns
      → All (IsNodeOf name) ns
  unfolding map_nodes
  map_nodes-IsNodeOf name [] ns h = let same : [] ≡ ns = cc in subst (All (IsNodeOf name)) same tt
  map_nodes-IsNodeOf name (v ∷ vs) ns h =
      let (n, e₁, h₁) = >>=-eq-returns (get_service_address_port json name v) _ h in
      let (rest, e₂, h₂) = >>=-eq-returns (map_nodes json name vs) _ h₁ in
      let same : n ∷ rest ≡ ns = cc in
      subst (All (IsNodeOf name)) same
        (get_service_address_port-IsNodeOf name v n e₁, map_nodes-IsNodeOf name vs rest e₂)

  nodes_of-IsNodeOf :
      (name : Text) (o : Option (List Value)) (ns : List ServiceNode)
      → nodes_of json name o ≡ returns ns
      → All (IsNodeOf name) ns
  unfolding nodes_of
  nodes_of-IsNodeOf name none ns h = let same : [] ≡ ns = cc in subst (All (IsNodeOf name)) same tt
  nodes_of-IsNodeOf name (some vs) ns h = map_nodes-IsNodeOf name vs ns h

  pub extract_nodes-IsNodeOf :
      (name : Text) (body_json : Value) (ns : List ServiceNode)
      → extract_nodes json name body_json ≡ returns ns
      → All (IsNodeOf name) ns
  unfolding extract_nodes
  extract_nodes-IsNodeOf name body_json ns h = nodes_of-IsNodeOf name (as_array body_json) ns h
