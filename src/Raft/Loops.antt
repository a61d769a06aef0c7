-- ===== src/Raft/Loops.antt =====
-- The bodies of `ElectionLoop`, `HeartbeatLoop` and `ApplyLoop`, one round each.
use veri_store.Common.{
  ℕ, ◌+◌, ◌-◌, Bool, true, false, not, ◌&&◌, ◌||◌, Option, none, some, List, [], ◌∷◌, length,
  get_elem?, Bytes, max, ltb, leb, ◌==◌, if◌then◌else◌,
}
use veri_store.Raft.Types.{
  RaftNode, LogEntry, put_op, del_op, RequestVoteReq, RequestVoteResp, AppendEntriesReq, Env,
  IndexMap, index_of, set_index,
}
use veri_store.Raft.Node.{
  last_log_index, last_log_term, is_leader, is_candidate, become_follower, become_candidate,
  become_leader, advance_commit_index, build_append_entries,
}
use veri_store.Raft.Propose.{Answer, Outside, needed_acks}

-- The tests before an election: not the leader, and nothing heard for the timeout.
unfoldable pub election_due : ℕ → RaftNode → Bool
unfolding is_leader
election_due now n = not (is_leader n) && leb n.election_timeout (now - n.last_heard)

unfoldable pub vote_request : RaftNode → RequestVoteReq
unfolding last_log_index last_log_term
vote_request n = record {
  term = n.current_term;
  candidate_id = n.id;
  last_log_index = last_log_index n;
  last_log_term = last_log_term n;
}

module _ (ask : ℕ → RequestVoteReq → RaftNode → Answer RequestVoteResp) where
  unfoldable pub collect_votes : List ℕ → RequestVoteReq → ℕ → ℕ → RaftNode → RaftNode
  unfolding is_candidate become_follower become_leader
  collect_votes [] req needed votes n = n
  collect_votes (p ∷ ps) req needed votes n =
      let a = ask p req n in
      let votes' = (if a.resp.vote_granted then votes + 1 else votes) in
      let rest = collect_votes ps req needed votes' a.node in
      if not (is_candidate a.node) || not (a.node.current_term == req.term)
      then a.node
      else if ltb a.node.current_term a.resp.term
      then become_follower a.env a.resp.term none a.node
      else if leb needed votes'
      then become_leader a.node
      else rest

  -- One round; between the tests and `BecomeCandidateLocked` the mutex is free (`gap`).
  unfoldable pub election_round : (RaftNode → RaftNode) → Env → RaftNode → RaftNode
  unfolding election_due become_candidate vote_request needed_acks collect_votes
  election_round gap env n =
      let m = become_candidate env (gap n) in
      if election_due env.now n
      then collect_votes m.peers (vote_request m) (needed_acks m) 1 m
      else n

-- `m[p]` in an output: a missing key is inserted with the value 0.
unfoldable pub touch_index : ℕ → IndexMap → IndexMap
unfolding index_of set_index
touch_index p m = elim (index_of p m) [ none ↦ set_index p 0 m | some _ ↦ m ]

abbrev pub is_nil {ℓ} : {A : Type ℓ} → List A → Bool
is_nil [] = true
is_nil (x ∷ xs) = false

unfoldable pub on_append_success : ℕ → AppendEntriesReq → RaftNode → RaftNode
unfolding set_index touch_index advance_commit_index
on_append_success p req n =
    let sent_last = req.prev_log_index + length req.entries in
    let recorded : RaftNode = if is_nil req.entries then n else record n {
      match_index = set_index p sent_last n.match_index;
      next_index = set_index p (sent_last + 1) n.next_index;
    } in
    let advanced = advance_commit_index recorded in
    record advanced {
      match_index = touch_index p advanced.match_index;
      next_index = touch_index p advanced.next_index;
    }

-- A rejected request moves the peer's next index back, not below 1.
unfoldable pub backtrack : Option ℕ → ℕ → IndexMap → IndexMap
unfolding set_index
backtrack none p m = m
backtrack (some i) p m = if ltb 1 i then set_index p (max 1 (i - 1)) m else m

unfoldable pub on_append_failure : ℕ → RaftNode → RaftNode
unfolding backtrack touch_index index_of
on_append_failure p n = record n {
  next_index = touch_index p (backtrack (index_of p n.next_index) p n.next_index);
}

-- The round over the peers.
unfoldable pub heartbeat : Outside → List ℕ → RaftNode → RaftNode
unfolding is_leader build_append_entries become_follower on_append_success on_append_failure
heartbeat out [] n = n
heartbeat out (p ∷ ps) n =
    let m = out.gap n in
    let req = build_append_entries m p in
    let a = out.append p req m in
    let after =
      (if a.resp.success then on_append_success p req a.node else on_append_failure p a.node) in
    let rest = heartbeat out ps after in
    if not (is_leader m)
    then m
    else if ltb a.node.current_term a.resp.term
    then become_follower a.env a.resp.term none a.node
    else rest

unfoldable pub heartbeat_round : Outside → RaftNode → RaftNode
unfolding is_leader heartbeat
heartbeat_round out n = if is_leader n then heartbeat out n.peers n else n

-- One round of `ApplyLoop`: nothing to apply, a read past the end of the log, or an entry.
pub data ApplyRound : Type 0 where
  idle : ApplyRound
  out_of_range : ApplyRound
  applied : LogEntry → RaftNode → ApplyRound

abbrev apply_at : RaftNode → ℕ → Option LogEntry → ApplyRound
apply_at n idx none = out_of_range
apply_at n idx (some e) = applied e (record n { last_applied = idx })

unfoldable pub apply_round : RaftNode → ApplyRound
apply_round n =
    let idx = n.last_applied + 1 in
    if ltb n.last_applied n.commit_index then apply_at n idx (get_elem? n.log (idx - 1)) else idle

-- `sm_->ApplyPut` or `sm_->ApplyDel`, of `IRaftStateMachine`.
pub record StateMachine (S : Type 0) : Type 0 where
  pub apply_put : Bytes → Bytes → S → S
  pub apply_del : Bytes → S → S

unfoldable pub apply_entry : {S : Type 0} → StateMachine S → LogEntry → S → S
apply_entry sm e s = elim e.op [
  | put_op ↦ sm.apply_put e.key e.value s
  | del_op ↦ sm.apply_del e.key s
]
