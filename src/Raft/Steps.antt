-- ===== src/Raft/Steps.antt =====
-- The locked parts of a node's threads as a step relation, and the threads as sequences of steps.
pub mod Threads
use veri_store.Common.{ℕ, ◌+◌, ◌<◌, ◌≡◌, none, Bytes}
use veri_store.Raft.Types.{
  RaftNode, OpType, LogEntry, RequestVoteReq, AppendEntriesReq, Env, u64_mod,
}
use veri_store.Raft.Node.{become_follower, become_candidate, become_leader}
use veri_store.Raft.Rpc.{on_request_vote, on_append_entries}
use veri_store.Raft.Propose.{append_own}
use veri_store.Raft.Loops.{on_append_success, on_append_failure, apply_round, applied}

-- Any interleaving of the threads of one node is a sequence of these. A candidacy stands where the
-- term does not wrap around.
pub data Step (n : RaftNode) : RaftNode → Type 0 where
  vote : (env : Env) (req : RequestVoteReq) → Step n (on_request_vote env n req).0
  append : (env : Env) (req : AppendEntriesReq) → Step n (on_append_entries env n req).0
  candidacy : (env : Env) → n.current_term + 1 < u64_mod → Step n (become_candidate env n)
  leadership : Step n (become_leader n)
  step_down : (env : Env) (t : ℕ) → n.current_term < t → Step n (become_follower env t none n)
  own : (op : OpType) (key value : Bytes) → Step n (append_own op key value n).0
  success : (p : ℕ) (req : AppendEntriesReq) → Step n (on_append_success p req n)
  failure : (p : ℕ) → Step n (on_append_failure p n)
  apply : {e : LogEntry} {m : RaftNode} → apply_round n ≡ applied e m → Step n m

pub data Reach (n : RaftNode) : RaftNode → Type 0 where
  here : Reach n n
  next : {m k : RaftNode} → Reach n m → Step m k → Reach n k

pub Reach-trans : {n m k : RaftNode} → Reach n m → Reach m k → Reach n k
Reach-trans r here = r
Reach-trans r (next s t) = next (Reach-trans r s) t
