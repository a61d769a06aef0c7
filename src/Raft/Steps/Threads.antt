-- ===== src/Raft/Steps/Threads.antt =====
-- Each thread's code is a sequence of steps, whatever the other threads do in between.
use veri_store.Common.{
  ℕ, ◌+◌, ◌<◌, Bool, not, ◌||◌, List, [], ◌∷◌, Bytes, if_intro, if◌then◌else◌, ltb, leb, ◌==◌,
  ltb→lt,
}
use veri_store.Raft.Types.{
  RaftNode, RequestVoteReq, RequestVoteResp, AppendEntriesReq, OpType, Env, u64_mod,
}
use veri_store.Raft.Node.{is_leader, build_append_entries, is_candidate}
use veri_store.Raft.Propose.{
  Answer, Outside, Outcome, aborted, counted, append_own, entry_request, needed_acks,
  replicate_entry, send_commit, finish_proposal, propose,
}
use veri_store.Raft.Loops.{collect_votes, election_due, election_round, heartbeat, heartbeat_round}
use veri_store.Raft.Steps.{
  Reach, here, next, Reach-trans, step_down, leadership, own, candidacy, success, failure,
}

-- While the mutex is free, the other threads make steps.
pub record Respects (out : Outside) : Type 0 where
  pub gap_steps : (n : RaftNode) → Reach n (out.gap n)
  pub append_steps :
      (p : ℕ) (req : AppendEntriesReq) (n : RaftNode) → Reach n (out.append p req n).node

module _ (out : Outside) (ok : Respects out) where
  open ok use {gap_steps, append_steps}

  replicate_entry-Reach :
      (ps : List ℕ) (req : AppendEntriesReq) (needed acks : ℕ) (n : RaftNode)
      → Reach n (replicate_entry out ps req needed acks n).0
  unfolding replicate_entry
  replicate_entry-Reach [] req needed acks n = here
  replicate_entry-Reach (p ∷ ps) req needed acks n =
      let a = out.append p req n in
      let acks' = (if a.resp.success then acks + 1 else acks) in
      let asked = append_steps p req n in
      if_intro (λ (r : RaftNode × Outcome). Reach n r.0) (not (is_leader a.node)) (λ _. asked)
        λ _.
          if_intro (λ (r : RaftNode × Outcome). Reach n r.0) (ltb a.node.current_term a.resp.term)
            (λ lt. next asked (step_down a.env a.resp.term (ltb→lt _ _ lt)))
            λ _.
              if_intro (λ (r : RaftNode × Outcome). Reach n r.0) (leb needed acks') (λ _. asked)
                λ _. Reach-trans asked (replicate_entry-Reach ps req needed acks' a.node)

  send_commit-Reach :
      (ps : List ℕ) (req : AppendEntriesReq) (n : RaftNode) → Reach n (send_commit out ps req n)
  unfolding send_commit
  send_commit-Reach [] req n = here
  send_commit-Reach (p ∷ ps) req n =
      let a = out.append p req n in
      let asked = append_steps p req n in
      if_intro (Reach n) (ltb a.node.current_term a.resp.term)
        (λ lt. next asked (step_down a.env a.resp.term (ltb→lt _ _ lt)))
        (λ _. Reach-trans asked (send_commit-Reach ps req a.node))

  finish_proposal-Reach :
      (needed : ℕ) (n : RaftNode) (r : RaftNode × Outcome)
      → Reach n r.0
      → Reach n (finish_proposal out needed r).0
  unfolding finish_proposal
  finish_proposal-Reach needed n (m, aborted) r = r
  finish_proposal-Reach needed n (m, counted acks) r =
      if_intro (λ (x : RaftNode × Bool). Reach n x.0) (ltb acks needed) (λ _. r)
        λ _. Reach-trans r (Reach-trans (gap_steps m) (send_commit-Reach _ _ _))

  -- A proposal is a sequence of steps.
  pub propose-Reach :
      (op : OpType) (key value : Bytes) (n : RaftNode) → Reach n (propose out op key value n).0
  unfolding propose
  propose-Reach op key value n =
      if_intro (λ (x : RaftNode × Bool). Reach n x.0) (not (is_leader n)) (λ _. here)
        λ _.
          let (appended, e) = append_own op key value n in
          let m = out.gap appended in
          let needed = needed_acks n in
          let sent = Reach-trans (next here (own op key value)) (gap_steps appended) in
          finish_proposal-Reach needed n
            (replicate_entry out n.peers (entry_request m e) needed 1 m)
            (Reach-trans sent (replicate_entry-Reach n.peers (entry_request m e) needed 1 m))

  heartbeat-Reach : (ps : List ℕ) (n : RaftNode) → Reach n (heartbeat out ps n)
  unfolding heartbeat
  heartbeat-Reach [] n = here
  heartbeat-Reach (p ∷ ps) n =
      let m = out.gap n in
      let req = build_append_entries m p in
      let a = out.append p req m in
      let asked = Reach-trans (gap_steps n) (append_steps p req m) in
      if_intro (Reach n) (not (is_leader m)) (λ _. gap_steps n)
        λ _.
          if_intro (Reach n) (ltb a.node.current_term a.resp.term)
            (λ lt. next asked (step_down a.env a.resp.term (ltb→lt _ _ lt)))
            λ _.
              Reach-trans
                (if_intro (Reach n) a.resp.success (λ _. next asked (success p req))
                  (λ _. next asked (failure p)))
                (heartbeat-Reach ps _)

  -- A round of heartbeats is a sequence of steps.
  pub heartbeat_round-Reach : (n : RaftNode) → Reach n (heartbeat_round out n)
  unfolding heartbeat_round
  heartbeat_round-Reach n =
      if_intro (Reach n) (is_leader n) (λ _. heartbeat-Reach n.peers n) (λ _. here)

module _ (gap : RaftNode → RaftNode) (ask : ℕ → RequestVoteReq → RaftNode → Answer RequestVoteResp)
    (gap_steps : (n : RaftNode) → Reach n (gap n))
    (ask_steps : (p : ℕ) (req : RequestVoteReq) (n : RaftNode) → Reach n (ask p req n).node) where
  collect_votes-Reach :
      (ps : List ℕ) (req : RequestVoteReq) (needed votes : ℕ) (n : RaftNode)
      → Reach n (collect_votes ask ps req needed votes n)
  unfolding collect_votes
  collect_votes-Reach [] req needed votes n = here
  collect_votes-Reach (p ∷ ps) req needed votes n =
      let a = ask p req n in
      let votes' = (if a.resp.vote_granted then votes + 1 else votes) in
      let asked = ask_steps p req n in
      if_intro (Reach n) (not (is_candidate a.node) || not (a.node.current_term == req.term))
        (λ _. asked)
        λ _.
          if_intro (Reach n) (ltb a.node.current_term a.resp.term)
            (λ lt. next asked (step_down a.env a.resp.term (ltb→lt _ _ lt)))
            λ _.
              if_intro (Reach n) (leb needed votes') (λ _. next asked leadership)
                λ _. Reach-trans asked (collect_votes-Reach ps req needed votes' a.node)

  -- An election round is a sequence of steps, while terms do not wrap around.
  pub election_round-Reach :
      (env : Env) (n : RaftNode)
      → (gap n).current_term + 1 < u64_mod
      → Reach n (election_round ask gap env n)
  unfolding election_round
  election_round-Reach env n small =
      if_intro (Reach n) (election_due env.now n)
        (λ _.
          Reach-trans (next (gap_steps n) (candidacy env small)) (collect_votes-Reach _ _ _ 1 _))
        (λ _. here)
