-- ===== src/Engine.antt =====
-- The generators of the cores' configurations: app/gost_engine.py, app/paqet_engine.py and
-- app/hawal_engine.py, and the reading of port rules in app/server.py.
pub mod Ports
pub mod Gost
pub mod Paqet
pub mod Core
