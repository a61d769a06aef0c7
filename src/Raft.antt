-- ===== src/Raft.antt =====
-- include/kv/raft.h and src/raft.cpp: one Raft node. The mutex `mu_` is held over each part that
-- touches the node, so each such part is a function on the node's state; what other threads do while
-- the mutex is free stands between two of these. The transport, the clock and the random numbers are
-- arguments.
pub mod Types
pub mod Node
pub mod Rpc
pub mod Propose
pub mod Loops
pub mod Transport
pub mod Elections
pub mod Steps
pub mod Votes
pub mod Replication
pub mod Commit
pub mod Apply
mod Tests
