-- ===== src/Tests.antt =====
-- Concrete runs: each theorem at an input of a small panel with two nodes and two tunnels.
pub mod Data
pub mod Tables
pub mod Routes
pub mod Cores
pub mod Machine
pub mod Clients
pub mod Panels
pub mod Fleets
pub mod Daemons
pub mod Pings
