-- ===== src/Tests.antt =====
-- A scripted node, and each theorem applied to a run of it.
mod Node
mod Runs
mod Accounts
mod Files
mod Exits
mod Ports
mod Waits
mod Hosts
mod Starts
mod Genesis
mod Installs
mod Shared
mod Races
mod Returns
