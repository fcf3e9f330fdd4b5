-- ===== src/Consul/Extract.antt =====
-- The pure functions of `ConsulClient` in src/consul/mod.rs: from the answers of the agent to nodes.
pub mod Matching
pub mod Panics
pub mod Ranges
use probes.Prelude.{
  ℕ, ◌%◌, ◌^◌, ◌||◌, List, [], ◌∷◌, map, Option, none, some, Bool, true, false, if◌then◌else◌,
  Outcome, returns, panics, ◌>>=◌, unwrap,
}
use probes.Prelude.Bytes.{bytes_eq}
use probes.Prelude.Int.{ℤ, pos, ltb_ℤ}
use probes.Prelude.Text.{Text, text}
use probes.Consul.Json.{Json}
use probes.Consul.Node.{ServiceNode}

-- The index is reset where it falls, or is negative.
unfoldable pub get_watch_index : ℤ → ℤ → ℤ
get_watch_index prev_index index =
    if ltb_ℤ index prev_index then pos 0 else if ltb_ℤ index (pos 0) then pos 0 else index

or_empty : Option Text → Text
or_empty (some x) = x
or_empty none = []

pub any_eq : Text → List Text → Bool
any_eq tag [] = false
any_eq tag (x ∷ xs) = bytes_eq x tag || any_eq tag xs

module _ (json : Json) where
  open json use {
    Value, Object, null, as_str, as_u64, as_array, as_object, object_keys, object_get, index,
  }

  unfoldable pub get_string_value : Value → Text
  unfolding or_empty
  get_string_value value = or_empty (as_str value)

  unfoldable pub is_matching_service : Text → Option (List Value) → Bool
  unfolding any_eq get_string_value
  is_matching_service tag (some tags) = any_eq tag (map get_string_value tags)
  is_matching_service tag none = false

  -- The filter on the keys.
  pub matching_keys : Text → Value → List Text → List Text
  unfolding is_matching_service
  matching_keys tag body_json [] = []
  matching_keys tag body_json (key ∷ ks) =
      let rest = matching_keys tag body_json ks in
      if is_matching_service tag (as_array (index body_json key)) then key ∷ rest else rest

  keys_of : Option Object → List Text
  keys_of (some o) = object_keys o
  keys_of none = []

  unfoldable pub extract_matching_services : Text → Value → List Text
  unfolding matching_keys keys_of
  extract_matching_services tag body_json =
      matching_keys tag body_json (keys_of (as_object body_json))

  -- Each `unwrap` panics where the field is missing or of another type; the port is cut to 16 bits.
  unfoldable pub get_service_address_port : Text → Value → Outcome ServiceNode
  get_service_address_port service_name node_value = do
    node ← unwrap (as_object node_value)
    address ← unwrap (object_get node (text "ServiceAddress"))
    service_address ← unwrap (as_str address)
    port ← unwrap (object_get node (text "ServicePort"))
    service_port ← unwrap (as_u64 port)
    returns
        (record { service_name = service_name; ip = service_address; port = service_port % 2 ^ 16 })

  map_nodes : Text → List Value → Outcome (List ServiceNode)
  map_nodes service_name [] = returns []
  map_nodes service_name (val ∷ vals) = do
    node ← get_service_address_port service_name val
    nodes ← map_nodes service_name vals
    returns (node ∷ nodes)

  nodes_of : Text → Option (List Value) → Outcome (List ServiceNode)
  nodes_of service_name (some services) = map_nodes service_name services
  nodes_of service_name none = returns []

  unfoldable pub extract_nodes : Text → Value → Outcome (List ServiceNode)
  unfolding map_nodes nodes_of get_service_address_port
  extract_nodes service_name body_json = nodes_of service_name (as_array body_json)
