-- ===== src/Raft/Transport.antt =====
-- include/kv/raft_transport.h and src/raft_transport.cpp: the transport between the nodes of one process.
-- A node lies in the heap at an address; the transport maps ids to addresses.
use veri_store.Common.{
  ℕ, ◌≡◌, sym, ap, ◌∙◌, Bool, true, false, ◌&&◌, Option, none, some, [], ◌∷◌, ◌==◌, if◌then◌else◌,
  arith, Option-cases, inl, inr,
}
use veri_store.Raft.Types.{
  RaftNode, RequestVoteReq, RequestVoteResp, AppendEntriesReq, AppendEntriesResp, Env, IndexMap,
  index_of, set_index,
}
use veri_store.Raft.Rpc.{on_request_vote, on_append_entries}
use veri_store.Raft.Votes.{granted-voted}

abbrev pub Heap : Type 0
Heap = ℕ → RaftNode

pub record InProcessTransport : Type 0 where
  pub nodes : IndexMap

-- A handler's change of the node that it runs on.
abbrev pub write_node : ℕ → RaftNode → Heap → Heap
write_node address n heap a = if a == address then n else heap a

unfoldable pub register : ℕ → Heap → InProcessTransport → InProcessTransport
unfolding set_index
register address heap t = record { nodes = set_index (heap address).id address t.nodes }

abbrev remove : ℕ → IndexMap → IndexMap
remove id [] = []
remove id ((j, a) ∷ m) = let rest = remove id m in if j == id then rest else (j, a) ∷ rest

unfoldable pub unregister : ℕ → InProcessTransport → InProcessTransport
unregister id t = record { nodes = remove id t.nodes }

abbrev vote_at : Env → RequestVoteReq → Heap → Option ℕ → Heap × RequestVoteResp
vote_at env req heap none = (heap, record { term = req.term; vote_granted = false })
vote_at env req heap (some address) =
    let answer = on_request_vote env (heap address) req in
    (write_node address answer.0 heap, answer.1)

unfoldable pub request_vote :
    Env → ℕ → RequestVoteReq → InProcessTransport → Heap → Heap × RequestVoteResp
unfolding on_request_vote index_of
request_vote env peer_id req t heap = vote_at env req heap (index_of peer_id t.nodes)

abbrev append_at : Env → AppendEntriesReq → Heap → Option ℕ → Heap × AppendEntriesResp
append_at env req heap none = (heap, record { term = req.term; success = false })
append_at env req heap (some address) =
    let answer = on_append_entries env (heap address) req in
    (write_node address answer.0 heap, answer.1)

unfoldable pub append_entries :
    Env → ℕ → AppendEntriesReq → InProcessTransport → Heap → Heap × AppendEntriesResp
unfolding on_append_entries index_of
append_entries env peer_id req t heap = append_at env req heap (index_of peer_id t.nodes)

abbrev is_vote : ℕ → Option ℕ → Bool
is_vote id none = false
is_vote id (some v) = v == id

-- Behind its handler's run on the request, a node has voted for the candidate in the request's term.
abbrev pub votes_for : RequestVoteReq → RaftNode → Bool
votes_for req n = is_vote req.candidate_id n.voted_for && n.current_term == req.term

-- The same of a peer, if the transport knows its node.
abbrev pub peer_votes : Env → RequestVoteReq → Heap → Option ℕ → Bool
peer_votes env req heap none = false
peer_votes env req heap (some address) = votes_for req (on_request_vote env (heap address) req).0

abbrev pub has_voted : Env → RequestVoteReq → InProcessTransport → Heap → ℕ → Bool
has_voted env req t heap p = peer_votes env req heap (index_of p t.nodes)

-- Only a peer that is registered, and has voted for the candidate, grants its vote.
pub request_vote-has_voted :
    (env : Env) (p : ℕ) (req : RequestVoteReq) (t : InProcessTransport) (heap : Heap)
    → (request_vote env p req t heap).1.vote_granted ≡ true
    → has_voted env req t heap p ≡ true
unfolding request_vote
request_vote-has_voted env p req t heap g = elim (Option-cases (index_of p t.nodes)) [
  | inl e ↦ absurd (ground (arith, g, ap (λ o. (vote_at env req heap o).1.vote_granted) e))
  | inr (a, e) ↦
      let granted = ap (λ o. (vote_at env req heap o).1.vote_granted) (sym e) ∙ g in
      let (voted, at_term, _) = granted-voted env (heap a) req granted in
      rw e (ground (arith, voted, at_term))
]
