-- ===== src/Examples.antt =====
-- Runs of the models at concrete inputs: each theorem with hypotheses or parameters is applied to one.
mod Locks
mod Servers
mod Clients
mod Logs
mod Programs
mod Devices
mod Reports
mod Texts
mod Startups
