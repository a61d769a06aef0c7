-- ===== src/Raft/Types.antt =====
-- The messages, the log entries and the state of a node, of include/kv/raft.h. Node ids are natural
-- numbers; the peers' maps of indices are association lists.
use veri_store.Common.{ℕ, Bool, Option, none, List, [], ◌∷◌, ◌==◌, ◌^◌, Bytes, some, if◌then◌else◌}

pub data RaftRole : Type 0 where
  follower candidate leader : RaftRole

pub data OpType : Type 0 where
  put_op del_op : OpType

pub record LogEntry : Type 0 where
  pub term : ℕ
  pub op : OpType
  pub key : Bytes
  pub value : Bytes

pub record RequestVoteReq : Type 0 where
  pub term : ℕ
  pub candidate_id : ℕ
  pub last_log_index : ℕ
  pub last_log_term : ℕ

pub record RequestVoteResp : Type 0 where
  pub term : ℕ
  pub vote_granted : Bool

pub record AppendEntriesReq : Type 0 where
  pub term : ℕ
  pub leader_id : ℕ
  pub prev_log_index : ℕ
  pub prev_log_term : ℕ
  pub entries : List LogEntry
  pub leader_commit : ℕ

pub record AppendEntriesResp : Type 0 where
  pub term : ℕ
  pub success : Bool

-- `std::unordered_map<int, uint64_t>`
abbrev pub IndexMap : Type 0
IndexMap = List (ℕ × ℕ)

unfoldable pub index_of : ℕ → IndexMap → Option ℕ
index_of p [] = none
index_of p ((q, i) ∷ m) = if q == p then some i else index_of p m

unfoldable pub set_index : ℕ → ℕ → IndexMap → IndexMap
set_index p i [] = (p, i) ∷ []
set_index p i ((q, j) ∷ m) =
    let rest = set_index p i m in if q == p then (p, i) ∷ m else (q, j) ∷ rest

pub record RaftNode : Type 0 where
  pub id : ℕ
  pub peers : List ℕ
  pub current_term : ℕ
  pub voted_for : Option ℕ
  pub log : List LogEntry
  pub role : RaftRole
  pub leader_id : Option ℕ
  pub commit_index : ℕ
  pub last_applied : ℕ
  pub next_index : IndexMap
  pub match_index : IndexMap
  pub last_heard : ℕ
  pub election_timeout : ℕ

-- What one locked part takes from outside: the reading of the steady clock, in milliseconds, and
-- the number that `uniform_int_distribution` draws.
pub record Env : Type 0 where
  pub now : ℕ
  pub draw : ℕ

abbrev pub u64_mod : ℕ
u64_mod = 2 ^ 64

-- The constructor.
unfoldable pub new_node : ℕ → List ℕ → RaftNode
new_node id peers = record {
  id = id;
  peers = peers;
  current_term = 0;
  voted_for = none;
  log = [];
  role = follower;
  leader_id = none;
  commit_index = 0;
  last_applied = 0;
  next_index = [];
  match_index = [];
  last_heard = 0;
  election_timeout = 200;
}
