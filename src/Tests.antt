-- ===== src/Tests.antt =====
-- Runs of the definitions, and the theorems at concrete inputs.
mod Texts
mod Endpoints
mod Daemons
mod Terminals
mod Pools
mod Stores
mod Apps
mod Calls
mod Jsons
mod Parsers
mod Cores
