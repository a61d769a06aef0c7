-- ===== src/Raft/Elections.antt =====
-- Who becomes leader, and through whose votes.
use veri_store.Common.{
  ℕ, suc, ◌+◌, ◌*◌, ◌<◌, ◌≤◌, ◌≡◌, refl, sym, ap, ◌∙◌, Bool, true, false, not, ◌||◌, Option, none,
  List, [], ◌∷◌, length, ltb, leb, ◌==◌, if◌then◌else◌, if_intro, arith,
}
use veri_store.Raft.Types.{RaftNode, RequestVoteReq, RequestVoteResp, Env}
use veri_store.Raft.Node.{is_leader, is_candidate, become_follower, become_candidate, become_leader}
use veri_store.Raft.Propose.{Answer, needed_acks}
use veri_store.Raft.Loops.{election_due, vote_request, collect_votes, election_round}
use veri_store.Raft.Transport.{
  Heap, InProcessTransport, request_vote, has_voted, request_vote-has_voted,
}

-- How many of these satisfy the test.
abbrev pub count : (ℕ → Bool) → List ℕ → ℕ
count f [] = 0
count f (p ∷ ps) = let rest = count f ps in if f p then suc rest else rest

become_follower-not_leader :
    (env : Env) (t : ℕ) (o : Option ℕ) (n : RaftNode)
    → is_leader (become_follower env t o n) ≡ false
unfolding become_follower is_leader
become_follower-not_leader env t o n = refl

become_candidate-not_leader :
    (env : Env) (n : RaftNode) → is_leader (become_candidate env n) ≡ false
unfolding become_candidate is_leader
become_candidate-not_leader env n = refl

-- The request of a round.
abbrev pub round_request : (RaftNode → RaftNode) → Env → RaftNode → RequestVoteReq
round_request gap env n = vote_request (become_candidate env (gap n))

module _ (ask : ℕ → RequestVoteReq → RaftNode → Answer RequestVoteResp) (f : ℕ → Bool) where
  collect_votes-majority :
      (ps : List ℕ) (req : RequestVoteReq) (needed votes : ℕ) (n : RaftNode)
      → ((p : ℕ) (m : RaftNode) → (ask p req m).resp.vote_granted ≡ true → f p ≡ true)
      → ((p : ℕ) (m : RaftNode) → is_leader m ≡ false → is_leader (ask p req m).node ≡ false)
      → is_leader n ≡ false
      → is_leader (collect_votes ask ps req needed votes n) ≡ true
      → needed ≤ votes + count f ps
  unfolding collect_votes
  collect_votes-majority [] req needed votes n granters alone l won = absurd (ground (arith, l))
  collect_votes-majority (p ∷ ps) req needed votes n granters alone l won =
      let a = ask p req n in
      let votes' = (if a.resp.vote_granted then votes + 1 else votes) in
      let still = alone p n l in
      let more : votes' + count f ps ≤ votes + count f (p ∷ ps) = ground (arith, granters p n) in
      let done : RaftNode → Type 0 = λ m. is_leader m ≡ true → needed ≤ votes + count f (p ∷ ps) in
      if_intro done (not (is_candidate a.node) || not (a.node.current_term == req.term))
        (λ _ w. absurd (ground (arith, still, w)))
        (λ _.
          if_intro done (ltb a.node.current_term a.resp.term)
            (λ _ w.
              absurd (ground (arith, become_follower-not_leader a.env a.resp.term none a.node, w)))
            (λ _.
              if_intro done (leb needed votes')
                (λ e w. let enough : needed ≤ votes' = ground arith in omega arith)
                (λ _ w.
                  let later =
                    collect_votes-majority ps req needed votes' a.node granters alone still w in
                  omega arith)))
        won

  -- A round of the election thread that makes a node leader, which it was not, has the votes of more
  -- than half of the nodes: all peers that grant it their vote, and perhaps others, satisfy the test
  -- `f`. While the mutex is free no other thread makes the node leader.
  election_round-majority :
      (gap : RaftNode → RaftNode) (env : Env) (n : RaftNode)
      → ((p : ℕ) (m : RaftNode)
          → (ask p (round_request gap env n) m).resp.vote_granted ≡ true
          → f p ≡ true)
      → ((p : ℕ) (m : RaftNode)
          → is_leader m ≡ false
          → is_leader (ask p (round_request gap env n) m).node ≡ false)
      → is_leader n ≡ false
      → is_leader (election_round ask gap env n) ≡ true
      → 1 + length (gap n).peers < 2 * (1 + count f (gap n).peers)
  unfolding election_round needed_acks become_candidate
  election_round-majority gap env n granters alone l won =
      let m = become_candidate env (gap n) in
      let half : needed_acks m ≤ 1 + count f m.peers =
        if_intro (λ (x : RaftNode). is_leader x ≡ true → needed_acks m ≤ 1 + count f m.peers)
          (election_due env.now n)
          (λ _ w.
            collect_votes-majority m.peers (vote_request m) (needed_acks m) 1 m granters alone
              (become_candidate-not_leader env (gap n)) w)
          (λ _ w. absurd (ground (arith, l, w))) won in
      omega (arith, half)

-- The answers to the requests of a round come over a transport: the request reaches the peer `p` at
-- the clock `clock p` and with the nodes in `heap p`. If the round makes a node leader that was not,
-- and no other thread does while the mutex is free, then more than half of the nodes, itself
-- counted, vote for it: each of those peers is registered with the transport, and its node, behind
-- its handler's run on the request, has its vote recorded for this node in the term of the round.
pub elected_by_majority :
    (ask : ℕ → RequestVoteReq → RaftNode → Answer RequestVoteResp) (gap : RaftNode → RaftNode)
    (env : Env) (n : RaftNode) (t : InProcessTransport) (clock : ℕ → Env) (heap : ℕ → Heap)
    → ((p : ℕ) (m : RaftNode)
        → (ask p (round_request gap env n) m).resp
          ≡ (request_vote (clock p) p (round_request gap env n) t (heap p)).1)
    → ((p : ℕ) (m : RaftNode)
        → is_leader m ≡ false
        → is_leader (ask p (round_request gap env n) m).node ≡ false)
    → is_leader n ≡ false
    → is_leader (election_round ask gap env n) ≡ true
    → 1 + length (gap n).peers
      < 2
        * (1
            + count (λ p. has_voted (clock p) (round_request gap env n) t (heap p) p) (gap n).peers)
elected_by_majority ask gap env n t clock heap answers alone =
    let req = round_request gap env n in
    election_round-majority ask (λ p. has_voted (clock p) req t (heap p) p) gap env n
      (λ p m g.
        request_vote-has_voted (clock p) p req t (heap p)
          (ap (λ r. r.vote_granted) (sym (answers p m)) ∙ g))
      alone

become_leader-leads : (n : RaftNode) → is_leader (become_leader n) ≡ true
unfolding become_leader is_leader
become_leader-leads n = refl

module _ (ask : ℕ → RequestVoteReq → RaftNode → Answer RequestVoteResp) (f : ℕ → Bool) where
  -- The peers answer while nothing else changes the node: none with a greater term, and those that
  -- satisfy the test with a vote.
  pub record Favours : Type 0 where
    pub quiet : (p : ℕ) (req : RequestVoteReq) (m : RaftNode) → (ask p req m).node ≡ m
    pub not_behind :
        (p : ℕ) (req : RequestVoteReq) (m : RaftNode) → (ask p req m).resp.term ≤ req.term
    pub grants :
        (p : ℕ) (req : RequestVoteReq) (m : RaftNode)
        → f p ≡ true
        → (ask p req m).resp.vote_granted ≡ true

  collect_votes-elects :
      (ps : List ℕ) (req : RequestVoteReq) (needed votes : ℕ) (n : RaftNode)
      → Favours
      → is_candidate n ≡ true
      → n.current_term ≡ req.term
      → votes < needed
      → needed ≤ votes + count f ps
      → is_leader (collect_votes ask ps req needed votes n) ≡ true
  unfolding collect_votes
  collect_votes-elects [] req needed votes n h c t few enough = absurd (omega arith)
  collect_votes-elects (p ∷ ps) req needed votes n h c t few enough =
      let a = ask p req n in
      let votes' = (if a.resp.vote_granted then votes + 1 else votes) in
      let same = h.quiet p req n in
      let wins : RaftNode → Type 0 = λ m. is_leader m ≡ true in
      let still : is_candidate a.node ≡ true = ap is_candidate same ∙ c in
      let at_term : a.node.current_term ≡ req.term =
        ap (λ (m : RaftNode). m.current_term) same ∙ t in
      let low = h.not_behind p req n in
      if_intro wins (not (is_candidate a.node) || not (a.node.current_term == req.term))
        (λ e. absurd (ground (arith, still, at_term, e)))
        (λ _.
          if_intro wins (ltb a.node.current_term a.resp.term)
            (λ e. absurd (ground (arith, at_term, low, e)))
            (λ _.
              if_intro wins (leb needed votes') (λ _. become_leader-leads a.node)
                (λ short.
                  collect_votes-elects ps req needed votes' a.node h still at_term (ground arith)
                    (ground (arith, h.grants p req n)))))

  -- A round of the election thread that is due makes a node with peers leader, if more than half of the
  -- nodes, itself counted, satisfy a test that stands for their votes, and while the votes come in
  -- nothing else changes the node and no answer has a greater term.
  pub election_round-elects :
      (gap : RaftNode → RaftNode) (env : Env) (n : RaftNode)
      → Favours
      → election_due env.now n ≡ true
      → 0 < length (gap n).peers
      → 1 + length (gap n).peers < 2 * (1 + count f (gap n).peers)
      → is_leader (election_round ask gap env n) ≡ true
  unfolding election_round needed_acks become_candidate vote_request is_candidate
  election_round-elects gap env n h due some_peers most =
      let m = become_candidate env (gap n) in
      if_intro (λ (x : RaftNode). is_leader x ≡ true) (election_due env.now n)
        (λ _.
          collect_votes-elects m.peers (vote_request m) (needed_acks m) 1 m h refl refl
            (omega arith) (omega arith))
        (λ e. absurd (ground (arith, e, due)))
