-- ===== src/Raft/Commit.antt =====
-- `AdvanceCommitIndexLocked`: how many nodes hold the entries that the leader commits.
use veri_store.Common.{
  ℕ, zero, suc, ◌+◌, ◌*◌, ◌/◌, ◌%◌, ◌<◌, ◌≤◌, ◌≡◌, refl, ◌⊎◌, inl, inr, ◌&&◌, List, [], ◌∷◌, arith,
  length, get_or, ltb, leb, ◌==◌, if◌then◌else◌, All, All-map, if_intro,
}
use veri_store.Raft.Types.{RaftNode}
use veri_store.Raft.Node.{
  insert_sorted, sort, match_values, majority_index, advance_commit_index, term_at, last_log_index,
}

-- How many values reach `v`.
pub count_ge : ℕ → List ℕ → ℕ
count_ge v [] = 0
count_ge v (x ∷ xs) = (if leb v x then 1 else 0) + count_ge v xs

abbrev Ascending : List ℕ → Type 0
Ascending [] = Unit
Ascending (x ∷ xs) = All (λ y. x ≤ y) xs × Ascending xs

insert_sorted-All :
    (b x : ℕ) (xs : List ℕ) → b ≤ x → All (λ y. b ≤ y) xs → All (λ y. b ≤ y) (insert_sorted x xs)
unfolding insert_sorted
insert_sorted-All b x [] h a = (h, tt)
insert_sorted-All b x (y ∷ ys) h (p, a) = ground (arith, insert_sorted-All b x ys h a)

insert_sorted-Ascending : (x : ℕ) (xs : List ℕ) → Ascending xs → Ascending (insert_sorted x xs)
unfolding insert_sorted
insert_sorted-Ascending x [] a = (tt, tt)
insert_sorted-Ascending x (y ∷ ys) (p, a) = ground (
  arith,
  insert_sorted-Ascending x ys a,
  insert_sorted-All y x ys,
  λ (h : x ≤ y). All-map (λ z. y ≤ z) (λ z. x ≤ z) ys (λ z q. omega arith) p,
)

sort-Ascending : (xs : List ℕ) → Ascending (sort xs)
unfolding sort
sort-Ascending [] = tt
sort-Ascending (x ∷ xs) = insert_sorted-Ascending x (sort xs) (sort-Ascending xs)

count_ge-insert_sorted :
    (v x : ℕ) (xs : List ℕ) → count_ge v (insert_sorted x xs) ≡ count_ge v (x ∷ xs)
unfolding insert_sorted count_ge
count_ge-insert_sorted v x [] = refl
count_ge-insert_sorted v x (y ∷ ys) = ground (arith, count_ge-insert_sorted v x ys)

count_ge-sort : (v : ℕ) (xs : List ℕ) → count_ge v (sort xs) ≡ count_ge v xs
unfolding sort count_ge
count_ge-sort v [] = refl
count_ge-sort v (x ∷ xs) = omega (arith, count_ge-insert_sorted v x (sort xs), count_ge-sort v xs)

length-insert_sorted : (x : ℕ) (xs : List ℕ) → length (insert_sorted x xs) ≡ suc (length xs)
unfolding insert_sorted
length-insert_sorted x [] = refl
length-insert_sorted x (y ∷ ys) = ground (arith, length-insert_sorted x ys)

length-sort : (xs : List ℕ) → length (sort xs) ≡ length xs
unfolding sort
length-sort [] = refl
length-sort (x ∷ xs) = omega (arith, length-insert_sorted x (sort xs), length-sort xs)

count_ge-All : (v : ℕ) (xs : List ℕ) → All (λ y. v ≤ y) xs → count_ge v xs ≡ length xs
unfolding count_ge
count_ge-All v [] a = refl
count_ge-All v (x ∷ xs) (h, a) = ground (arith, count_ge-All v xs a)

-- In an ascending list the values from position `i` on reach the one at `i`.
count_ge-get_or :
    (xs : List ℕ) (i : ℕ)
    → Ascending xs
    → i < length xs
    → length xs ≤ count_ge (get_or xs i 0) xs + i
unfolding count_ge
count_ge-get_or [] i a h = absurd (omega arith)
count_ge-get_or (x ∷ xs) zero (p, a) h = ground (arith, count_ge-All x xs p)
count_ge-get_or (x ∷ xs) (suc i) (p, a) h = ground (arith, count_ge-get_or xs i a)

-- At least half of the values, rounded up, reach the chosen one.
majority_index-count :
    (xs : List ℕ) → 0 < length xs → length xs ≤ count_ge (majority_index xs) xs + length xs / 2
unfolding majority_index
majority_index-count xs h = omega (
  arith,
  length-sort xs,
  count_ge-sort (get_or (sort xs) (length xs / 2) 0) xs,
  count_ge-get_or (sort xs) (length xs / 2) (sort-Ascending xs) (omega (arith, length-sort xs)),
)

-- `m` is `n`, or its commit index has grown to that of an entry of the current term which at least
-- half of the nodes that the leader counts hold, and more than half if their number is odd.
abbrev pub CommitsByHalf : RaftNode → RaftNode → Type 0
CommitsByHalf n m =
    (m ≡ n)
    ⊎ ((n.commit_index < m.commit_index)
        × (term_at n m.commit_index ≡ n.current_term)
        × (length (match_values n) ≤ 2 * count_ge m.commit_index (match_values n))
        × (length (match_values n) % 2 ≡ 1
            → length (match_values n) < 2 * count_ge m.commit_index (match_values n)))

-- A commit index that moves is of an entry of the current term, grows, and is reached by at least
-- half of the nodes that the leader counts; by more than half, if their number is odd.
pub advance_commit_index-CommitsByHalf : (n : RaftNode) → CommitsByHalf n (advance_commit_index n)
unfolding advance_commit_index
advance_commit_index-CommitsByHalf n =
    let chosen = majority_index (match_values n) in
    let half : length (match_values n)
        ≤ count_ge chosen (match_values n) + length (match_values n) / 2 =
      majority_index-count (match_values n) (unfold match_values in omega arith) in
    if_intro (CommitsByHalf n) (ltb n.commit_index chosen && (term_at n chosen == n.current_term))
      (λ t. inr (ground arith, ground arith, omega arith, λ odd. omega arith)) (λ _. inl refl)

-- With one peer, which has acknowledged no more than the leader has, a leader whose last entry is
-- of its term and not committed commits it, whatever the peer has acknowledged.
pub two_nodes_commit_alone :
    (n : RaftNode) (p acked : ℕ)
    → n.match_index ≡ (p, acked) ∷ []
    → acked ≤ length n.log
    → n.commit_index < length n.log
    → term_at n (length n.log) ≡ n.current_term
    → (advance_commit_index n).commit_index ≡ length n.log
unfolding advance_commit_index sort last_log_index
two_nodes_commit_alone n p acked e h c t = ground arith
