-- ===== src/Raft/Votes.antt =====
-- Terms and votes of one node, along every interleaving of its threads.
use veri_store.Common.{
  ℕ, ◌+◌, ◌<◌, ◌≡◌, refl, ◌⊎◌, inl, inr, true, none, some, arith, if_intro, Bool-cases, length, ◌∙◌,
  ltb→lt, ltb, if◌then◌else◌,
}
use veri_store.Raft.Types.{
  RaftNode, set_index, RequestVoteReq, RequestVoteResp, AppendEntriesResp, AppendEntriesReq, Env,
  LogEntry,
}
use veri_store.Raft.Node.{become_follower, become_candidate, become_leader, advance_commit_index}
use veri_store.Raft.Rpc.{
  decide_vote, on_request_vote, accept_leader, check_and_store, on_append_entries,
}
use veri_store.Raft.Propose.{append_own}
use veri_store.Raft.Loops.{is_nil, on_append_success, on_append_failure, apply_round, applied}
use veri_store.Raft.Steps.{
  Step, Reach, here, next, vote, append, candidacy, leadership, step_down, own, success, failure,
  apply,
}

-- The term grows, or it stays and a vote that was given stays.
abbrev pub KeepsVote : RaftNode → RaftNode → Type 0
KeepsVote n m =
    (n.current_term < m.current_term)
    ⊎ ((n.current_term ≡ m.current_term) × ((c : ℕ) → n.voted_for ≡ some c → m.voted_for ≡ some c))

abbrev SameVote : RaftNode → RaftNode → Type 0
SameVote n m = (n.current_term ≡ m.current_term) × (n.voted_for ≡ m.voted_for)

SameVote-keeps : (n m : RaftNode) → SameVote n m → KeepsVote n m
SameVote-keeps n m h = inr (h.0, λ c e. ground (arith, h.1))

decide_vote-term :
    (env : Env) (n : RaftNode) (req : RequestVoteReq)
    → (decide_vote env n req).0.current_term ≡ n.current_term
unfolding decide_vote
decide_vote-term env n req = ground arith

decide_vote-keeps :
    (env : Env) (n : RaftNode) (req : RequestVoteReq) → KeepsVote n (decide_vote env n req).0
unfolding decide_vote
decide_vote-keeps env n req = inr (ground arith, λ c e. ground arith)

on_request_vote-keeps :
    (env : Env) (n : RaftNode) (req : RequestVoteReq) → KeepsVote n (on_request_vote env n req).0
unfolding on_request_vote
on_request_vote-keeps env n req =
    if_intro (λ (r : RaftNode × RequestVoteResp). KeepsVote n r.0) (ltb req.term n.current_term)
      (λ _. inr (refl, λ c e. e))
      λ _.
        if_intro (λ (r : RaftNode × RequestVoteResp). KeepsVote n r.0) (ltb n.current_term req.term)
          (λ lt. inl (
            unfold become_follower in
            ground (arith, decide_vote-term env (become_follower env req.term none n) req)))
          (λ _. decide_vote-keeps env n req)

check_and_store-vote :
    (n : RaftNode) (req : AppendEntriesReq) → SameVote n (check_and_store n req).0
unfolding check_and_store
check_and_store-vote n req = ground arith

accept_leader-keeps :
    (env : Env) (n : RaftNode) (req : AppendEntriesReq) → KeepsVote n (accept_leader env n req)
unfolding accept_leader
accept_leader-keeps env n req =
    if_intro (KeepsVote n) (ltb n.current_term req.term) (λ lt. inl (ltb→lt _ _ lt))
      (λ _. inr (refl, λ c e. e))

KeepsVote-trans : (n m k : RaftNode) → KeepsVote n m → KeepsVote m k → KeepsVote n k
KeepsVote-trans n m k (inl p) (inl q) = inl (omega arith)
KeepsVote-trans n m k (inl p) (inr (e, f)) = inl (omega arith)
KeepsVote-trans n m k (inr (e, f)) (inl q) = inl (omega arith)
KeepsVote-trans n m k (inr (e, f)) (inr (e', f')) = inr (omega arith, λ c h. f' c (f c h))

on_append_entries-keeps :
    (env : Env) (n : RaftNode) (req : AppendEntriesReq)
    → KeepsVote n (on_append_entries env n req).0
unfolding on_append_entries
on_append_entries-keeps env n req =
    if_intro (λ (r : RaftNode × AppendEntriesResp). KeepsVote n r.0) (ltb req.term n.current_term)
      (λ _. inr (refl, λ c e. e))
      λ _.
        let accepted = accept_leader env n req in
        KeepsVote-trans n accepted (check_and_store accepted req).0 (accept_leader-keeps env n req)
          (SameVote-keeps accepted (check_and_store accepted req).0
            (check_and_store-vote accepted req))

advance-vote : (n : RaftNode) → SameVote n (advance_commit_index n)
unfolding advance_commit_index
advance-vote n = if_intro (SameVote n) _ (λ _. (refl, refl)) (λ _. (refl, refl))

on_append_success-vote :
    (p : ℕ) (req : AppendEntriesReq) (n : RaftNode) → SameVote n (on_append_success p req n)
unfolding on_append_success
on_append_success-vote p req n =
    let recorded : RaftNode = if is_nil req.entries then n else record n {
      match_index = set_index p (req.prev_log_index + length req.entries) n.match_index;
      next_index = set_index p (req.prev_log_index + length req.entries + 1) n.next_index;
    } in
    let same : SameVote n recorded =
      if_intro (SameVote n) _ (λ _. (refl, refl)) (λ _. (refl, refl)) in
    let kept : SameVote recorded (advance_commit_index recorded) = advance-vote recorded in
    (same.0 ∙ kept.0, same.1 ∙ kept.1)

apply_round-vote :
    (n : RaftNode) {e : LogEntry} {m : RaftNode} → apply_round n ≡ applied e m → SameVote n m
unfolding apply_round
apply_round-vote n h = ground arith

Step-KeepsVote : {n m : RaftNode} → Step n m → KeepsVote n m
unfolding become_candidate become_leader append_own on_append_failure become_follower
Step-KeepsVote {n} (vote env req) = on_request_vote-keeps env n req
Step-KeepsVote {n} (append env req) = on_append_entries-keeps env n req
Step-KeepsVote {n} (candidacy env small) = inl (omega arith)
Step-KeepsVote leadership = inr (refl, λ c e. e)
Step-KeepsVote (step_down env t lt) = inl lt
Step-KeepsVote (own op key value) = inr (refl, λ c e. e)
Step-KeepsVote {n} (success p req) =
    SameVote-keeps n (on_append_success p req n) (on_append_success-vote p req n)
Step-KeepsVote (failure p) = inr (refl, λ c e. e)
Step-KeepsVote {n} (apply {m} e) = SameVote-keeps n m (apply_round-vote n e)

-- Along any interleaving of steps the term never falls, and within one term a vote that was given
-- stays.
pub Reach-KeepsVote : {n m : RaftNode} → Reach n m → KeepsVote n m
Reach-KeepsVote here = inr (refl, λ c e. e)
Reach-KeepsVote {n} (next {m} {k} r s) =
    KeepsVote-trans n m k (Reach-KeepsVote r) (Step-KeepsVote s)

-- A granted vote: the reply's term is the request's and the node's, and the node voted for the
-- candidate.
pub granted-voted :
    (env : Env) (n : RaftNode) (req : RequestVoteReq)
    → (on_request_vote env n req).1.vote_granted ≡ true
    → ((on_request_vote env n req).0.voted_for ≡ some req.candidate_id)
      × ((on_request_vote env n req).0.current_term ≡ req.term)
      × ((on_request_vote env n req).1.term ≡ req.term)
unfolding on_request_vote
granted-voted env n req h = ground arith

granted-free :
    (env : Env) (n : RaftNode) (req : RequestVoteReq)
    → (on_request_vote env n req).1.vote_granted ≡ true
    → (n.current_term < req.term)
      ⊎ ((n.current_term ≡ req.term) × ((c : ℕ) → n.voted_for ≡ some c → c ≡ req.candidate_id))
granted-free env n req h = elim (Bool-cases (ltb n.current_term req.term)) [
  | inl lt ↦ inl (ltb→lt _ _ lt)
  | inr ge ↦
      inr (unfold on_request_vote in ground arith, λ c e. unfold on_request_vote in ground arith)
]

-- A node grants its vote to one candidate at most in each term: of two requests of one term that it
-- grants, with any steps in between, both name the same candidate.
pub one_vote_per_term :
    (env env' : Env) (req req' : RequestVoteReq) (n : RaftNode) {m : RaftNode}
    → (on_request_vote env n req).1.vote_granted ≡ true
    → Reach (on_request_vote env n req).0 m
    → (on_request_vote env' m req').1.vote_granted ≡ true
    → req.term ≡ req'.term
    → req.candidate_id ≡ req'.candidate_id
one_vote_per_term env env' req req' n {m} g r g' e =
    let (voted, at_term, _) = granted-voted env n req g in
    elim (Reach-KeepsVote r) [
      | inl lt ↦ elim (granted-free env' m req' g') [
        | inl lt' ↦ absurd (omega arith)
        | inr (e', _) ↦ absurd (omega arith)
      ]
      | inr (e', keeps) ↦ elim (granted-free env' m req' g') [
        | inl lt' ↦ absurd (omega arith)
        | inr (_, free) ↦ free req.candidate_id (keeps req.candidate_id voted)
      ]
    ]
