-- ===== src/Engine/Core.antt =====
-- app/hawal_engine.py: the configuration of the Hawal core.
use hawal.Base.{ℕ, String, ◌<>◌, Bool, not, List}
use hawal.Base.Tests.{eqb}
use hawal.Text.Decimal.{show_int}
use hawal.Db.{Tunnel}

-- The key under which the address stands.
pub data Address : Type 0 where
  bind_addr : String → Address
  connect_addr : String → Address

pub record CoreConfig : Type 0 where
  pub mode : String
  pub address : Address
  pub ports : List String
  pub token : String
  pub enable_padding : Bool
  pub nodelay : Bool

-- `bool(n)`
abbrev pub truthy : ℕ → Bool
truthy n = not (eqb n 0)

unfoldable pub generate_hawal_core_server_config : Tunnel → CoreConfig
unfolding show_int
generate_hawal_core_server_config t = record {
  mode = "server";
  address = bind_addr ("0.0.0.0:" <> show_int t.core_port);
  ports = t.ports;
  token = t.token;
  enable_padding = truthy t.snappy;
  nodelay = truthy t.nodelay;
}

unfoldable pub generate_hawal_core_client_config : Tunnel → String → CoreConfig
unfolding show_int
generate_hawal_core_client_config t server_ip = record {
  mode = "client";
  address = connect_addr (server_ip <> ":" <> show_int t.core_port);
  ports = t.ports;
  token = t.token;
  enable_padding = truthy t.snappy;
  nodelay = truthy t.nodelay;
}
