-- ===== src/Raft/Node.antt =====
-- The `…Locked` helpers of `RaftNode`.
use veri_store.Common.{
  ℕ, ◌+◌, ◌-◌, ◌/◌, ◌%◌, Bool, true, false, not, ◌&&◌, ◌||◌, Option, none, some, List, [], ◌∷◌,
  length, get_elem?, get_or, drop, ltb, leb, ◌==◌, if◌then◌else◌,
}
use veri_store.Raft.Types.{
  RaftNode, follower, candidate, leader, LogEntry, AppendEntriesReq, IndexMap, index_of, set_index,
  Env, u64_mod,
}

unfoldable pub last_log_index : RaftNode → ℕ
last_log_index n = length n.log

abbrev pub entry_term : Option LogEntry → ℕ
entry_term none = 0
entry_term (some e) = e.term

unfoldable pub last_log_term : RaftNode → ℕ
last_log_term n = entry_term (get_elem? n.log (length n.log - 1))

unfoldable pub term_at : RaftNode → ℕ → ℕ
term_at n idx =
    if idx == 0
    then 0
    else if ltb (length n.log) idx
    then 0
    else entry_term (get_elem? n.log (idx - 1))

unfoldable pub is_leader : RaftNode → Bool
is_leader n = elim n.role [ leader ↦ true | _ ↦ false ]

unfoldable pub is_candidate : RaftNode → Bool
is_candidate n = elim n.role [ candidate ↦ true | _ ↦ false ]

unfoldable pub reset_election_timeout : Env → RaftNode → RaftNode
reset_election_timeout env n = record n { election_timeout = env.draw }

unfoldable pub is_up_to_date : RaftNode → ℕ → ℕ → Bool
unfolding last_log_index last_log_term
is_up_to_date n cand_last_idx cand_last_term =
    let my_term = last_log_term n in
    let my_idx = last_log_index n in
    if not (cand_last_term == my_term) then ltb my_term cand_last_term else leb my_idx cand_last_idx

unfoldable pub become_follower : Env → ℕ → Option ℕ → RaftNode → RaftNode
unfolding reset_election_timeout
become_follower env new_term new_leader n = reset_election_timeout env (record n {
  role = follower;
  leader_id = new_leader;
  current_term = new_term;
  voted_for = none;
  last_heard = env.now;
})

unfoldable pub become_candidate : Env → RaftNode → RaftNode
unfolding reset_election_timeout
become_candidate env n = reset_election_timeout env (record n {
  role = candidate;
  leader_id = none;
  current_term = (n.current_term + 1) % u64_mod;
  voted_for = some n.id;
  last_heard = env.now;
})

-- The loop over the peers that starts `next_index_` and `match_index_`.
unfoldable pub init_indices : List ℕ → ℕ → IndexMap × IndexMap → IndexMap × IndexMap
init_indices [] last m = m
init_indices (p ∷ ps) last (next, matched) =
    init_indices ps last (set_index p (last + 1) next, set_index p 0 matched)

unfoldable pub become_leader : RaftNode → RaftNode
unfolding init_indices last_log_index
become_leader n =
    let (next, matched) = init_indices n.peers (last_log_index n) (n.next_index, n.match_index) in
    record n { role = leader; leader_id = some n.id; next_index = next; match_index = matched }

-- `std::sort` of numbers, in ascending order.
unfoldable pub insert_sorted : ℕ → List ℕ → List ℕ
insert_sorted x [] = x ∷ []
insert_sorted x (y ∷ ys) = let rest = insert_sorted x ys in if leb x y then x ∷ y ∷ ys else y ∷ rest

unfoldable pub sort : List ℕ → List ℕ
unfolding insert_sorted
sort [] = []
sort (x ∷ xs) = insert_sorted x (sort xs)

abbrev pub indices : IndexMap → List ℕ
indices [] = []
indices ((p, i) ∷ m) = i ∷ indices m

-- The leader's own last index, then `match_index_`.
unfoldable pub match_values : RaftNode → List ℕ
unfolding last_log_index
match_values n = last_log_index n ∷ indices n.match_index

unfoldable pub majority_index : List ℕ → ℕ
unfolding sort
majority_index values = get_or (sort values) (length values / 2) 0

unfoldable pub advance_commit_index : RaftNode → RaftNode
unfolding match_values majority_index term_at
advance_commit_index n =
    let candidate_index = majority_index (match_values n) in
    if ltb n.commit_index candidate_index && (term_at n candidate_index == n.current_term)
    then record n { commit_index = candidate_index }
    else n

abbrev pub or_one : Option ℕ → ℕ
or_one none = 1
or_one (some i) = i

unfoldable pub build_append_entries : RaftNode → ℕ → AppendEntriesReq
unfolding term_at
build_append_entries n peer_id =
    let next = or_one (index_of peer_id n.next_index) in
    let prev = if next == 0 || next == 1 then 0 else next - 1 in
    record {
      term = n.current_term;
      leader_id = n.id;
      prev_log_index = prev;
      prev_log_term = term_at n prev;
      entries = if leb 1 next && leb next (length n.log) then drop (next - 1) n.log else [];
      leader_commit = n.commit_index;
    }
