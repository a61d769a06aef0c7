-- ===== src/Raft/Apply.antt =====
-- `ApplyLoop`: committed entries reach the state machine once each, in log order.
use veri_store.Common.{
  ℕ, zero, suc, ◌+◌, ◌-◌, ◌<◌, ◌≤◌, ◌≡◌, refl, sym, ap, ◌∙◌, Option, none, some, List, [], ◌∷◌,
  arith, length, get_elem?, take, drop,
}
use native.Mathlib.Decide.{dec_lt}
use native.Mathlib.Numerals.{add-one}
use veri_store.Raft.Types.{RaftNode, LogEntry}
use veri_store.Raft.Loops.{idle, out_of_range, applied, apply_round, StateMachine, apply_entry}

apply_round_idle : (n : RaftNode) → ¬ (n.last_applied < n.commit_index) → apply_round n ≡ idle
unfolding apply_round
apply_round_idle n h = ground arith

apply_round_applied :
    (n : RaftNode) (e : LogEntry)
    → n.last_applied < n.commit_index
    → get_elem? n.log n.last_applied ≡ some e
    → apply_round n ≡ applied e (record n { last_applied = n.last_applied + 1 })
unfolding apply_round
apply_round_applied n e h g =
    let same : n.last_applied + 1 - 1 ≡ n.last_applied = omega arith in
    ground (arith, g, ap (λ i. get_elem? n.log i) same)

-- The loop with nothing else running: rounds until one finds nothing to apply. `none` is a read past
-- the end of the log, or fuel that ran out.
module _ {S : Type 0} (sm : StateMachine S) where
  pub apply_loop : ℕ → RaftNode → S → Option (RaftNode × S)
  apply_loop zero n s = none
  apply_loop (suc fuel) n s = elim (apply_round n) [
    | idle ↦ some (n, s)
    | out_of_range ↦ none
    | applied e m ↦ apply_loop fuel m (apply_entry sm e s)
  ]

  pub apply_entries : List LogEntry → S → S
  apply_entries [] s = s
  apply_entries (e ∷ es) s = apply_entries es (apply_entry sm e s)

  drop-get :
      (i : ℕ) (xs : List LogEntry)
      → i < length xs
      → (e : LogEntry) × (get_elem? xs i ≡ some e) × (drop i xs ≡ e ∷ drop (suc i) xs)
  drop-get i [] h = absurd (omega arith)
  drop-get zero (x ∷ xs) h = (x, refl, refl)
  drop-get (suc i) (x ∷ xs) h = drop-get i xs (omega arith)

  ends :
      (n : RaftNode) (s : S)
      → n.last_applied ≡ n.commit_index
      → ◌≡◌ {A = Option (RaftNode × S)} (some (n, s)) (
          some (
            record n { last_applied = n.commit_index },
            apply_entries (take (n.commit_index - n.last_applied) (drop n.last_applied n.log)) s,
          ))
  unfolding apply_entries
  ends n s e =
      let none_left : n.commit_index - n.last_applied ≡ 0 = omega arith in
      rw none_left (ground (arith, e))

  takes :
      (n : RaftNode) (s : S) (e : LogEntry)
      → n.last_applied < n.commit_index
      → drop n.last_applied n.log ≡ e ∷ drop (suc n.last_applied) n.log
      → apply_entries (take (n.commit_index - n.last_applied) (drop n.last_applied n.log)) s
        ≡ apply_entries
            (take (n.commit_index - (n.last_applied + 1)) (drop (n.last_applied + 1) n.log))
            (apply_entry sm e s)
  unfolding apply_entries
  takes n s e lt rest =
      let left : n.commit_index - n.last_applied ≡ suc (n.commit_index - (n.last_applied + 1)) =
        omega arith in
      rw (rest, left, add-one) refl

  -- With the commit index in the log, no more applied than committed and a round to spare, the
  -- loop ends with every committed entry applied: the state machine has taken the entries from
  -- `last_applied` up to the commit index, in order, once each, and `last_applied` is the commit
  -- index.
  pub apply_loop_lem :
      (fuel : ℕ) (n : RaftNode) (s : S)
      → n.commit_index ≤ length n.log
      → n.last_applied ≤ n.commit_index
      → n.commit_index - n.last_applied < fuel
      → apply_loop fuel n s
        ≡ some (
          record n { last_applied = n.commit_index },
          apply_entries (take (n.commit_index - n.last_applied) (drop n.last_applied n.log)) s,
        )
  unfolding apply_loop
  apply_loop_lem zero n s hc hl hf = absurd (omega arith)
  apply_loop_lem (suc fuel) n s hc hl hf = elim (dec_lt n.last_applied n.commit_index) [
    | no done ↦ rw (apply_round_idle n done, apply_loop) (ends n s (omega arith))
    | yes more ↦
        let (e, got, rest) = drop-get n.last_applied n.log (omega arith) in
        rw (apply_round_applied n e more got, apply_loop)
          (apply_loop_lem fuel (record n { last_applied = n.last_applied + 1 }) (apply_entry sm e s)
              hc (omega arith) (omega arith)
            ∙ (ap (λ es. some (record n { last_applied = n.commit_index }, es))
                (sym (takes n s e more rest))))
  ]
