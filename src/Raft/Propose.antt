-- ===== src/Raft/Propose.antt =====
-- `ProposePut` and `ProposeDel`: the leader appends an entry, sends it to one peer after the other and
-- counts the acknowledgements, then sends the commit index. While a request is out, and between two
-- locked parts, the mutex is free: `Outside` says what the node is when the thread has it again.
use veri_store.Common.{
  ℕ, ◌+◌, ◌-◌, ◌/◌, ◌%◌, Bool, true, false, not, none, List, [], ◌∷◌, ◌++◌, length, Bytes, ltb, leb,
  if◌then◌else◌,
}
use veri_store.Raft.Types.{
  RaftNode, LogEntry, OpType, put_op, del_op, AppendEntriesReq, AppendEntriesResp, Env, u64_mod,
}
use veri_store.Raft.Node.{last_log_index, term_at, is_leader, become_follower}

-- A reply, the node as the reply finds it, and the clock then.
pub record Answer (Resp : Type 0) : Type 0 where
  pub node : RaftNode
  pub resp : Resp
  pub env : Env

pub record Outside : Type 0 where
  pub gap : RaftNode → RaftNode
  pub append : ℕ → AppendEntriesReq → RaftNode → Answer AppendEntriesResp

-- The first locked part.
unfoldable pub append_own : OpType → Bytes → Bytes → RaftNode → RaftNode × LogEntry
append_own op key value n =
    let e : LogEntry = record { term = n.current_term; op = op; key = key; value = value } in
    (record n { log = n.log ++ e ∷ [] }, e)

-- `total / 2 + 1`
unfoldable pub needed_acks : RaftNode → ℕ
needed_acks n = (1 + length n.peers) / 2 + 1

-- The second locked part, and the request that it fills.
unfoldable pub entry_request : RaftNode → LogEntry → AppendEntriesReq
unfolding last_log_index term_at
entry_request n e =
    let prev = (last_log_index n + u64_mod - 1) % u64_mod in
    record {
      term = n.current_term;
      leader_id = n.id;
      prev_log_index = prev;
      prev_log_term = term_at n prev;
      entries = e ∷ [];
      leader_commit = 0;
    }

unfoldable pub commit_request : RaftNode → AppendEntriesReq
unfolding last_log_index term_at
commit_request n = record {
  term = n.current_term;
  leader_id = n.id;
  prev_log_index = last_log_index n;
  prev_log_term = term_at n (last_log_index n);
  entries = [];
  leader_commit = n.commit_index;
}

-- How the loop over the peers ended: by `return false`, or with this many acknowledgements.
pub data Outcome : Type 0 where
  aborted : Outcome
  counted : ℕ → Outcome

module _ (out : Outside) where
  unfoldable pub replicate_entry : List ℕ → AppendEntriesReq → ℕ → ℕ → RaftNode → RaftNode × Outcome
  unfolding is_leader become_follower
  replicate_entry [] req needed acks n = (n, counted acks)
  replicate_entry (p ∷ ps) req needed acks n =
      let a = out.append p req n in
      let acks' = (if a.resp.success then acks + 1 else acks) in
      let rest = replicate_entry ps req needed acks' a.node in
      if not (is_leader a.node)
      then (a.node, aborted)
      else if ltb a.node.current_term a.resp.term
      then (become_follower a.env a.resp.term none a.node, aborted)
      else if leb needed acks'
      then (a.node, counted acks')
      else rest

  unfoldable pub send_commit : List ℕ → AppendEntriesReq → RaftNode → RaftNode
  unfolding become_follower
  send_commit [] req n = n
  send_commit (p ∷ ps) req n =
      let a = out.append p req n in
      let rest = send_commit ps req a.node in
      if ltb a.node.current_term a.resp.term
      then become_follower a.env a.resp.term none a.node
      else rest

  -- What follows the loop over the peers.
  unfoldable pub finish_proposal : ℕ → RaftNode × Outcome → RaftNode × Bool
  unfolding send_commit commit_request
  finish_proposal needed (n, aborted) = (n, false)
  finish_proposal needed (n, counted acks) =
      let m = out.gap n in
      if ltb acks needed then (n, false) else (send_commit m.peers (commit_request m) m, true)

  unfoldable pub propose : OpType → Bytes → Bytes → RaftNode → RaftNode × Bool
  unfolding append_own needed_acks entry_request replicate_entry finish_proposal is_leader
  propose op key value n =
      let (appended, e) = append_own op key value n in
      let m = out.gap appended in
      if not (is_leader n)
      then (n, false)
      else finish_proposal (needed_acks n)
          (replicate_entry n.peers (entry_request m e) (needed_acks n) 1 m)

  unfoldable pub propose_put : Bytes → Bytes → RaftNode → RaftNode × Bool
  unfolding propose
  propose_put key value = propose put_op key value

  unfoldable pub propose_del : Bytes → RaftNode → RaftNode × Bool
  unfolding propose
  propose_del key = propose del_op key []
