-- ===== src/Raft/Rpc.antt =====
-- The handlers `OnRequestVote` and `OnAppendEntries`.
use veri_store.Common.{
  ℕ, Bool, true, false, not, ◌&&◌, Option, none, some, List, [], ◌∷◌, ◌++◌, length, min, take, ltb,
  ◌==◌, if◌then◌else◌,
}
use veri_store.Raft.Types.{
  RaftNode, follower, LogEntry, RequestVoteReq, RequestVoteResp, AppendEntriesReq,
  AppendEntriesResp, Env,
}
use veri_store.Raft.Node.{
  last_log_index, term_at, is_up_to_date, become_follower, reset_election_timeout,
}

-- `!voted_for_.has_value() || voted_for_.value() == id`
unfoldable pub can_vote : Option ℕ → ℕ → Bool
can_vote none id = true
can_vote (some v) id = v == id

-- The part of `OnRequestVote` behind the comparison of the terms.
unfoldable pub decide_vote : Env → RaftNode → RequestVoteReq → RaftNode × RequestVoteResp
unfolding can_vote is_up_to_date reset_election_timeout
decide_vote env n req =
    if can_vote n.voted_for req.candidate_id && is_up_to_date n req.last_log_index req.last_log_term
    then (
      reset_election_timeout env
          (record n { voted_for = some req.candidate_id; last_heard = env.now }),
      record { term = n.current_term; vote_granted = true },
    )
    else (n, record { term = n.current_term; vote_granted = false })

unfoldable pub on_request_vote : Env → RaftNode → RequestVoteReq → RaftNode × RequestVoteResp
unfolding decide_vote become_follower
on_request_vote env n req =
    if ltb req.term n.current_term
    then (n, record { term = n.current_term; vote_granted = false })
    else if ltb n.current_term req.term
    then decide_vote env (become_follower env req.term none n) req
    else decide_vote env n req

-- The change of role and leader that a request of a term that is not old makes.
unfoldable pub accept_leader : Env → RaftNode → AppendEntriesReq → RaftNode
unfolding become_follower reset_election_timeout
accept_leader env n req =
    if ltb n.current_term req.term
    then become_follower env req.term (some req.leader_id) n
    else reset_election_timeout env
        (record n { role = follower; leader_id = some req.leader_id; last_heard = env.now })

-- The log after step 2: `resize` to the previous index if the log is longer, then `push_back`.
unfoldable pub append_log : ℕ → List LogEntry → List LogEntry → List LogEntry
append_log prev [] log = log
append_log prev (e ∷ es) log = (if ltb prev (length log) then take prev log else log) ++ e ∷ es

-- Steps 2 and 3.
unfoldable pub store_entries : RaftNode → AppendEntriesReq → RaftNode
unfolding append_log last_log_index
store_entries n req =
    let appended = record n { log = append_log req.prev_log_index req.entries n.log } in
    if ltb appended.commit_index req.leader_commit
    then record appended { commit_index = min req.leader_commit (last_log_index appended) }
    else appended

-- Step 1, with what follows it.
unfoldable pub check_and_store : RaftNode → AppendEntriesReq → RaftNode × AppendEntriesResp
unfolding last_log_index term_at store_entries
check_and_store n req =
    if ltb (last_log_index n) req.prev_log_index
    then (n, record { term = n.current_term; success = false })
    else if not (term_at n req.prev_log_index == req.prev_log_term)
    then (n, record { term = n.current_term; success = false })
    else (store_entries n req, record { term = n.current_term; success = true })

unfoldable pub on_append_entries : Env → RaftNode → AppendEntriesReq → RaftNode × AppendEntriesResp
unfolding accept_leader check_and_store
on_append_entries env n req =
    if ltb req.term n.current_term
    then (n, record { term = n.current_term; success = false })
    else check_and_store (accept_leader env n req) req
