-- ===== src/Tests.antt =====
-- Runs of the code on concrete inputs, and the theorems applied to them, part by part.
mod Blocks
mod Origins
mod Keys
mod Latencies
mod Policies
mod Sharing
mod Bodies
mod Caches
mod Captures
mod Clusters
mod Fetches
mod Reads
mod Nodes
mod Chunks
mod Counts
mod Gateways
mod Signings
mod Pieces
