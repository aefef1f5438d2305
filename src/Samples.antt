-- ===== src/Samples.antt =====
-- Runs of the models on small inputs, and the theorems at inputs that meet their hypotheses.
mod Texts
mod Ids
mod Chains
mod Grants
mod Hosts
mod Rooms
mod Floods
mod Nicks
mod Dispatch
mod Times
mod Links
mod Digits
mod Clients
mod Letters
mod Servers
mod Prefixes
mod Database
mod Unreal
mod Names
mod Watched
