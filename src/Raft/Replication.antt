-- ===== src/Raft/Replication.antt =====
-- What `OnAppendEntries` does to the follower's log, against the leader's `BuildAppendEntriesLocked`.
use veri_store.Common.{
  ℕ, zero, suc, ◌+◌, ◌-◌, ◌<◌, ◌≤◌, ◌≡◌, ◌≢◌, refl, ap, ◌∙◌, ◌⊎◌, inl, inr, true, false, some, List,
  [], ◌∷◌, ◌++◌, arith, length, get_elem?, take, drop, min, ltb, if◌then◌else◌, length-append,
  take_all, length-take_of_le,
}
use veri_store.Raft.Types.{RaftNode, LogEntry, AppendEntriesReq, Env, index_of}
use veri_store.Raft.Node.{term_at, build_append_entries}
use veri_store.Raft.Rpc.{append_log, accept_leader, on_append_entries}

module _ {A : Type 0} where
  take-drop : (n : ℕ) (xs : List A) → take n xs ++ drop n xs ≡ xs
  take-drop zero xs = refl
  take-drop (suc n) [] = refl
  take-drop (suc n) (x ∷ xs) = ap (λ ys. x ∷ ys) (take-drop n xs)

  get_elem?-take : (n i : ℕ) (xs : List A) → i < n → get_elem? (take n xs) i ≡ get_elem? xs i
  get_elem?-take zero i xs h = absurd (omega arith)
  get_elem?-take (suc n) i [] h = refl
  get_elem?-take (suc n) zero (x ∷ xs) h = refl
  get_elem?-take (suc n) (suc i) (x ∷ xs) h = get_elem?-take n i xs (omega arith)

  drop-ne-nil : (n : ℕ) (xs : List A) → n < length xs → drop n xs ≢ []
  drop-ne-nil n [] h = absurd (omega arith)
  drop-ne-nil zero (x ∷ xs) h = λ e. cc
  drop-ne-nil (suc n) (x ∷ xs) h = drop-ne-nil n xs (omega arith)

-- The stored log, in one form for both branches of the `resize`.
append_log-take :
    (prev : ℕ) (es log : List LogEntry) → es ≢ [] → append_log prev es log ≡ take prev log ++ es
unfolding append_log
append_log-take prev [] log h = absurd (h refl)
append_log-take prev (e ∷ es) log h = ground (arith, take_all prev log)

-- Two logs with one prefix have the same terms in it.
term_at-take :
    (l f : RaftNode) (prev : ℕ)
    → prev ≤ length l.log
    → prev ≤ length f.log
    → take prev f.log ≡ take prev l.log
    → term_at f prev ≡ term_at l prev
unfolding term_at
term_at-take l f zero hl hf e = refl
term_at-take l f (suc i) hl hf e = ground (
  arith,
  get_elem?-take (suc i) i f.log,
  get_elem?-take (suc i) i l.log,
  ap (λ (xs : List LogEntry). get_elem? xs i) e,
)

-- The commit index that a follower has after a request that it stored.
abbrev pub followed_commit : ℕ → ℕ → ℕ → ℕ
followed_commit own leader_commit last =
    if ltb own leader_commit then min leader_commit last else own

accept_leader-log :
    (env : Env) (n : RaftNode) (req : AppendEntriesReq)
    → ((accept_leader env n req).log ≡ n.log)
      × ((accept_leader env n req).commit_index ≡ n.commit_index)
unfolding accept_leader
accept_leader-log env n req = ground arith

-- A request that passes the two checks is stored.
pub on_append_entries-stored :
    (env : Env) (n : RaftNode) (req : AppendEntriesReq)
    → n.current_term ≤ req.term
    → req.prev_log_index ≤ length n.log
    → term_at n req.prev_log_index ≡ req.prev_log_term
    → ((on_append_entries env n req).1.success ≡ true)
      × ((on_append_entries env n req).0.log ≡ append_log req.prev_log_index req.entries n.log)
      × ((on_append_entries env n req).0.commit_index
          ≡ followed_commit n.commit_index req.leader_commit
              (length (append_log req.prev_log_index req.entries n.log)))
unfolding on_append_entries term_at
on_append_entries-stored env n req ht hp he = ground arith

-- A request that is refused, for its term or its previous entry, leaves the log and the commit index.
pub on_append_entries-refused :
    (env : Env) (n : RaftNode) (req : AppendEntriesReq)
    → (on_append_entries env n req).1.success ≡ false
    → ((on_append_entries env n req).0.log ≡ n.log)
      × ((on_append_entries env n req).0.commit_index ≡ n.commit_index)
unfolding on_append_entries
on_append_entries-refused env n req h = ground arith

append_log-drop :
    (prev : ℕ) (l f : List LogEntry)
    → prev < length l
    → take prev f ≡ take prev l
    → append_log prev (drop prev l) f ≡ l
append_log-drop prev l f lt agree =
    append_log-take prev (drop prev l) f (drop-ne-nil prev l lt)
    ∙ (ap (λ xs. xs ++ drop prev l) agree ∙ take-drop prev l)

length-append_log :
    (prev : ℕ) (es log : List LogEntry)
    → es ≢ []
    → prev ≤ length log
    → length (append_log prev es log) ≡ prev + length es
length-append_log prev es log ne le =
    rw (append_log-take prev es log ne)
      (omega (arith, length-append (take prev log) es, length-take_of_le prev log le))

-- What the leader sends to a peer whose next index lies in the log.
abbrev sent_request : RaftNode → ℕ → AppendEntriesReq
sent_request l next = record {
  term = l.current_term;
  leader_id = l.id;
  prev_log_index = next - 1;
  prev_log_term = term_at l (next - 1);
  entries = drop (next - 1) l.log;
  leader_commit = l.commit_index;
}

build_append_entries_lem :
    (l : RaftNode) (p next : ℕ)
    → index_of p l.next_index ≡ some next
    → 1 ≤ next
    → next ≤ length l.log
    → build_append_entries l p ≡ sent_request l next
unfolding build_append_entries
build_append_entries_lem l p next he h1 hn = ground arith

-- A leader's request to a follower whose log agrees with the leader's before the entries sent, and
-- whose term is not newer, succeeds: the follower then has exactly the leader's log, and the commit
-- index that the leader's and the log's length give it.
pub replicates :
    (env : Env) (l f : RaftNode) (p next : ℕ)
    → index_of p l.next_index ≡ some next
    → 1 ≤ next
    → next ≤ length l.log
    → next - 1 ≤ length f.log
    → take (next - 1) f.log ≡ take (next - 1) l.log
    → f.current_term ≤ l.current_term
    → ((on_append_entries env f (build_append_entries l p)).1.success ≡ true)
      × ((on_append_entries env f (build_append_entries l p)).0.log ≡ l.log)
      × ((on_append_entries env f (build_append_entries l p)).0.commit_index
          ≡ followed_commit f.commit_index l.commit_index (length l.log))
replicates env l f p next he h1 hn hf agree ht = rw (build_append_entries_lem l p next he h1 hn) (
    let req = sent_request l next in
    let same : append_log (next - 1) (drop (next - 1) l.log) f.log ≡ l.log =
      append_log-drop (next - 1) l.log f.log (omega arith) agree in
    let (accepted, stored, commit) =
      on_append_entries-stored env f req ht hf
        (term_at-take l f (next - 1) (omega arith) hf agree) in
    (accepted, stored ∙ same, cc))

append_log-nil : (prev : ℕ) (es log : List LogEntry) → es ≡ [] → append_log prev es log ≡ log
unfolding append_log
append_log-nil prev [] log e = refl
append_log-nil prev (x ∷ es) log e = cc

append_log-length :
    (c prev : ℕ) (es log : List LogEntry)
    → c ≤ length log
    → (es ≡ []) ⊎ (c ≤ prev + length es)
    → prev ≤ length log
    → c ≤ length (append_log prev es log)
append_log-length c prev es log hc (inl e) hp = rw (append_log-nil prev es log e) hc
append_log-length c prev [] log hc (inr le) hp = unfold append_log in hc
append_log-length c prev (x ∷ es) log hc (inr le) hp =
    rw (length-append_log prev (x ∷ es) log (λ e. cc) hp) le

-- A commit index within the log stays within it, if a request with entries reaches up to it.
pub commit_within_log :
    (env : Env) (n : RaftNode) (req : AppendEntriesReq)
    → n.commit_index ≤ length n.log
    → (req.entries ≡ []) ⊎ (n.commit_index ≤ req.prev_log_index + length req.entries)
    → (on_append_entries env n req).0.commit_index ≤ length (on_append_entries env n req).0.log
commit_within_log env n req hc hr =
    unfold on_append_entries in
    ground (arith, append_log-length n.commit_index req.prev_log_index req.entries n.log hc hr)

-- A request that is not of an old term, matches the log, carries entries and ends before the
-- commit index (one that was delayed, say), with no newer commit index of its own, is stored too,
-- and cuts committed entries off: the log then ends before the commit index.
pub stale_append_truncates :
    (env : Env) (n : RaftNode) (req : AppendEntriesReq)
    → n.current_term ≤ req.term
    → req.prev_log_index ≤ length n.log
    → term_at n req.prev_log_index ≡ req.prev_log_term
    → req.entries ≢ []
    → req.prev_log_index + length req.entries < n.commit_index
    → req.leader_commit ≤ n.commit_index
    → ((on_append_entries env n req).1.success ≡ true)
      × (length (on_append_entries env n req).0.log < (on_append_entries env n req).0.commit_index)
stale_append_truncates env n req ht hp he hn hs hl =
    let (accepted, stored, commit) = on_append_entries-stored env n req ht hp he in
    (
      accepted,
      ground (
        arith,
        ap length stored,
        commit,
        length-append_log req.prev_log_index req.entries n.log hn hp,
      ),
    )
