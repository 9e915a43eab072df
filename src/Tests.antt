-- ===== src/Tests.antt =====
-- The theorems at concrete inputs, one module per component.
mod Cache
mod Logs
mod Disks
mod Elections
mod Protocol
mod Shards
mod Connections
mod Clusters
mod Followers
mod Gateway
mod Restarts
mod Starts
mod Sockets
