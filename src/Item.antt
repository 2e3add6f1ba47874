-- ===== src/Item.antt =====
-- One entry of the answer to `GET /api/agent/sync`, which app/server.py writes and the agent reads.
use hawal.Base.{ℕ, String, List}
use hawal.Base.Int.{ℤ}
use hawal.Engine.Core.{CoreConfig}

pub data Role : Type 0 where
  server client : Role

-- The keys that go with each `core_type`. A Paqet server is sent no ports; the agent reads none.
pub data Payload : Type 0 where
  core : CoreConfig → Payload
  backhaul : String → Payload
  paqet : ℤ → List String → String → Payload
  gost : List String → Payload

pub record Item : Type 0 where
  pub tunnel_id : String
  pub role : Role
  pub payload : Payload
  pub restart_nonce : ℕ
