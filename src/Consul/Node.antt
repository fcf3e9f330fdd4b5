-- ===== src/Consul/Node.antt =====
-- `ConsulClient`, `ServiceNode` and `ServiceNodes` of src/consul/mod.rs.
pub mod Keys
use probes.Prelude.{ℕ, ◌++◌}
use probes.Prelude.Int.{ℤ}
use probes.Prelude.Map.{Map}
use probes.Prelude.Text.{Text, text, decimal}

-- Beside it the source keeps an HTTP client, which is the environment.
pub record ConsulClient : Type 0 where
  pub fqdn : Text

abbrev pub new : Text → ConsulClient
new consul_fqdn = record { fqdn = consul_fqdn }

pub record ServiceNode : Type 0 where
  pub service_name : Text
  pub ip : Text
  pub port : ℕ

-- `Display`: the key under which a node is known.
unfoldable pub to_string : ServiceNode → Text
to_string n = n.service_name ++ (text ":" ++ (n.ip ++ (text ":" ++ decimal n.port)))

pub record ServiceNodes : Type 0 where
  pub index : ℤ
  pub nodes : Map ServiceNode
