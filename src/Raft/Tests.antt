-- ===== src/Raft/Tests.antt =====
-- Nodes of small clusters, and the theorems about them applied there.
use veri_store.Common.{
  ℕ, ◌+◌, ◌*◌, ◌<◌, ◌≤◌, ◌≡◌, refl, inr, true, false, none, some, List, [], ◌∷◌, Bytes, codes,
  arith, length,
}
use veri_store.Raft.Types.{
  RaftNode, new_node, index_of, LogEntry, put_op, leader, follower, RequestVoteReq, RequestVoteResp,
  AppendEntriesReq, Env,
}
use veri_store.Raft.Node.{
  is_leader, is_candidate, become_candidate, become_leader, term_at, build_append_entries,
  advance_commit_index,
}
use veri_store.Raft.Rpc.{on_request_vote, on_append_entries}
use veri_store.Raft.Propose.{needed_acks, Answer}
use veri_store.Raft.Loops.{election_due, vote_request, collect_votes, StateMachine, election_round}
use veri_store.Raft.Steps.{here}
use veri_store.Raft.Transport.{Heap, InProcessTransport, request_vote, has_voted}
use veri_store.Raft.Elections.{count, elected_by_majority, round_request, election_round-elects}
use veri_store.Raft.Votes.{one_vote_per_term}
use veri_store.Raft.Replication.{
  followed_commit, replicates, commit_within_log, stale_append_truncates,
}
use veri_store.Raft.Commit.{
  CommitsByHalf, advance_commit_index-CommitsByHalf, two_nodes_commit_alone,
}
use veri_store.Raft.Apply.{apply_loop, apply_entries, apply_loop_lem}

abbrev clock : Env
clock = record { now = 1000; draw = 200 }

abbrev fresh : RaftNode
fresh = new_node 1 (2 ∷ 3 ∷ [])

abbrev ask_for_2 : RequestVoteReq
ask_for_2 = record { term = 1; candidate_id = 2; last_log_index = 0; last_log_term = 0 }

abbrev entry : ℕ → LogEntry
entry t = record { term = t; op = put_op; key = codes "k"; value = codes "v" }

granted : (on_request_vote clock fresh ask_for_2).1.vote_granted ≡ true
unfolding on_request_vote new_node
granted = refl

granted_again :
    (on_request_vote clock (on_request_vote clock fresh ask_for_2).0 ask_for_2).1.vote_granted
    ≡ true
unfolding on_request_vote new_node
granted_again = refl

one_vote_per_term_example : ask_for_2.candidate_id ≡ ask_for_2.candidate_id
one_vote_per_term_example =
    one_vote_per_term clock clock ask_for_2 ask_for_2 fresh granted here granted_again refl

-- A leader of term 2 with two entries, and followers that have one or both.
abbrev the_leader : RaftNode
the_leader = record {
  id = 1;
  peers = 2 ∷ 3 ∷ [];
  current_term = 2;
  voted_for = some 1;
  log = entry 1 ∷ entry 2 ∷ [];
  role = leader;
  leader_id = some 1;
  commit_index = 1;
  last_applied = 1;
  next_index = (2, 2) ∷ (3, 3) ∷ [];
  match_index = (2, 1) ∷ (3, 2) ∷ [];
  last_heard = 0;
  election_timeout = 200;
}

abbrev a_follower : List LogEntry → ℕ → RaftNode
a_follower entries committed = record {
  id = 2;
  peers = 1 ∷ 3 ∷ [];
  current_term = 2;
  voted_for = none;
  log = entries;
  role = follower;
  leader_id = some 1;
  commit_index = committed;
  last_applied = 0;
  next_index = [];
  match_index = [];
  last_heard = 0;
  election_timeout = 200;
}

replicates_example :
    ((on_append_entries clock
        (a_follower (entry 1 ∷ []) 0)
        (build_append_entries the_leader 2)).1.success
      ≡ true)
    × ((on_append_entries clock
          (a_follower (entry 1 ∷ []) 0)
          (build_append_entries the_leader 2)).0.log
        ≡ entry 1 ∷ entry 2 ∷ [])
    × ((on_append_entries clock
          (a_follower (entry 1 ∷ []) 0)
          (build_append_entries the_leader 2)).0.commit_index
        ≡ followed_commit 0 1 2)
replicates_example =
    replicates clock the_leader (a_follower (entry 1 ∷ []) 0) 2 2 (unfold index_of in refl)
      (omega arith) (omega arith) (omega arith) refl (omega arith)

-- A request for the first entry that arrives after the second one was committed.
abbrev late : AppendEntriesReq
late = record {
  term = 2;
  leader_id = 1;
  prev_log_index = 0;
  prev_log_term = 0;
  entries = entry 1 ∷ [];
  leader_commit = 0;
}

abbrev committed_both : RaftNode
committed_both = a_follower (entry 1 ∷ entry 2 ∷ []) 2

stale_append_truncates_example :
    ((on_append_entries clock committed_both late).1.success ≡ true)
    × (length (on_append_entries clock committed_both late).0.log
        < (on_append_entries clock committed_both late).0.commit_index)
stale_append_truncates_example =
    stale_append_truncates clock committed_both late (omega arith) (omega arith)
      (unfold term_at in refl) (λ e. cc) (omega arith) (omega arith)

commit_within_log_example :
    (on_append_entries clock (a_follower (entry 1 ∷ []) 1) late).0.commit_index
    ≤ length (on_append_entries clock (a_follower (entry 1 ∷ []) 1) late).0.log
commit_within_log_example =
    commit_within_log clock (a_follower (entry 1 ∷ []) 1) late (omega arith) (inr (omega arith))

-- A request behind the end of the log.
abbrev gap_request : AppendEntriesReq
gap_request = record {
  term = 2;
  leader_id = 1;
  prev_log_index = 5;
  prev_log_term = 2;
  entries = [];
  leader_commit = 6;
}

refused : (on_append_entries clock committed_both gap_request).1.success ≡ false
unfolding on_append_entries
refused = refl

advance_commit_index-CommitsByHalf_example :
    CommitsByHalf the_leader (advance_commit_index the_leader)
advance_commit_index-CommitsByHalf_example = advance_commit_index-CommitsByHalf the_leader

advances : (advance_commit_index the_leader).commit_index ≡ 2
unfolding advance_commit_index
advances = refl

abbrev pair_leader : RaftNode
pair_leader = record the_leader { peers = 2 ∷ []; match_index = (2, 0) ∷ [] }

two_nodes_commit_alone_example : (advance_commit_index pair_leader).commit_index ≡ 2
two_nodes_commit_alone_example =
    two_nodes_commit_alone pair_leader 2 0 refl (omega arith) (omega arith) (unfold term_at in refl)

-- A state machine that records the keys it has taken.
abbrev recorder : StateMachine (List Bytes)
recorder = record { apply_put = λ key value s. key ∷ s; apply_del = λ key s. key ∷ s }

apply_loop_lem_example :
    apply_loop recorder 3 committed_both []
    ≡ some (
      record committed_both { last_applied = 2 },
      apply_entries recorder (entry 1 ∷ entry 2 ∷ []) [],
    )
apply_loop_lem_example =
    apply_loop_lem recorder 3 committed_both [] (omega arith) (omega arith) (omega arith)

-- Two peers that vote for whoever asks, the first of them registered.
abbrev nodes : Heap
nodes = λ a. new_node a (1 ∷ 2 ∷ [])

abbrev transport : InProcessTransport
transport = record { nodes = (2, 7) ∷ [] }

abbrev ask_transport : ℕ → RequestVoteReq → RaftNode → Answer RequestVoteResp
ask_transport p req n = record {
  node = n;
  resp = (request_vote clock p req transport nodes).1;
  env = clock;
}

elected : is_leader (election_round ask_transport (λ n. n) clock fresh) ≡ true
unfolding election_round election_due new_node is_leader is_candidate become_candidate vote_request
    needed_acks collect_votes become_leader request_vote index_of on_request_vote
elected = refl

not_leader : is_leader fresh ≡ false
unfolding new_node is_leader
not_leader = refl

elected_by_majority_example :
    1 + length fresh.peers
    < 2
      * (1
          + count
              (λ p. has_voted clock (round_request (λ n. n) clock fresh) transport nodes p)
              fresh.peers)
elected_by_majority_example =
    elected_by_majority ask_transport (λ n. n) clock fresh transport (λ p. clock) (λ p. nodes)
      (λ p m. refl) (λ p m l. l) not_leader elected

abbrev all_vote : ℕ → RequestVoteReq → RaftNode → Answer RequestVoteResp
all_vote p req n = record {
  node = n;
  resp = record { term = req.term; vote_granted = true };
  env = clock;
}

due : election_due clock.now fresh ≡ true
unfolding election_due new_node is_leader
due = refl

election_round-elects_example : is_leader (election_round all_vote (λ n. n) clock fresh) ≡ true
election_round-elects_example =
    election_round-elects all_vote (λ p. true) (λ n. n) clock fresh
      (record {
        quiet = λ p req m. refl;
        not_behind = λ p req m. omega arith;
        grants = λ p req m g. refl;
      })
      due (unfold new_node in omega arith) (unfold new_node in omega arith)
