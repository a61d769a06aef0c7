-- ===== src/Wal/File/Recovery.antt =====
-- Replay of a log that was written, whole or cut off by a crash.
use mathlib.Core.Path.{subst}
use veri_store.Common.{
  ℕ, zero, suc, ◌+◌, ◌-◌, ◌<◌, ◌≤◌, ◌≡◌, refl, sym, ap, ◌∙◌, ◌⊎◌, inl, inr, max, none, List, [],
  ◌∷◌, ◌++◌, Bytes, length, take, arith, ltb, ltb→lt, Bool-cases, length-take_of_le, All,
  length-append, take-append_right, take-append_short, append_assoc, if◌then◌else◌,
}
use veri_store.Wal.Record.{WalRecord, encode_record, decode_record, read_exact}
use veri_store.Wal.Record.RoundTrip.{
  Fits, decode-encode_record, decode-cut_record, encode_record-long,
}
use veri_store.Wal.File.{Replayed, replay_one, replay_loop, replay_file}

-- The bytes of a log.
abbrev pub encoded : List WalRecord → Bytes
encoded [] = []
encoded (r ∷ rs) = encode_record r ++ encoded rs

pub take-nil : (n : ℕ) → take {A = ℕ} n [] ≡ []
take-nil zero = refl
take-nil (suc n) = refl

module _ {S : Type 0} (apply : WalRecord → S → S) where
  abbrev pub apply_all : List WalRecord → S → S
  apply_all [] s = s
  apply_all (r ∷ rs) s = apply_all rs (apply r s)

  abbrev pub greatest_seq : List WalRecord → ℕ → ℕ
  greatest_seq [] m = m
  greatest_seq (r ∷ rs) m = greatest_seq rs (max m r.seq)

  -- What the replay of the records `rs`, from the offset `start` on, makes of `p`.
  abbrev outcome : List WalRecord → ℕ → Replayed S → Replayed S
  outcome [] start p = p
  outcome (r ∷ rs) start p =
      outcome rs (start + length (encode_record r))
        (replay_one apply r (start + length (encode_record r)) p)

  -- How many whole records lie in the first `n` bytes of the log.
  abbrev pub whole_records : List WalRecord → ℕ → ℕ
  whole_records [] n = 0
  whole_records (r ∷ rs) n =
      if ltb n (length (encode_record r))
      then 0
      else suc (whole_records rs (n - length (encode_record r)))

  -- What the replay of the records `rs` must leave.
  abbrev pub summary : List WalRecord → S → Replayed S
  summary rs s = record {
    store = apply_all rs s;
    max_seq = greatest_seq rs 0;
    last_good = length (encoded rs);
  }

  outcome_lem :
      (rs : List WalRecord) (start m : ℕ) (s : S)
      → outcome rs start (record { store = s; max_seq = m; last_good = start }) ≡ record {
        store = apply_all rs s;
        max_seq = greatest_seq rs m;
        last_good = start + length (encoded rs);
      }
  unfolding replay_one
  outcome_lem [] start m s = λ i. record {
    store = s;
    max_seq = m;
    last_good = (let e : start ≡ start + 0 = omega arith in e) i;
  }
  outcome_lem (r ∷ rs) start m s =
      let len = length (encode_record r) in
      let e : start + len + length (encoded rs) ≡ start + length (encode_record r ++ encoded rs) =
        omega (arith, length-append (encode_record r) (encoded rs)) in
      outcome_lem rs (start + len) (max m r.seq) (apply r s) ∙ (λ i. record {
        store = apply_all rs (apply r s);
        max_seq = greatest_seq rs (max m r.seq);
        last_good = e i;
      })

  outcome-summary :
      (rs : List WalRecord) (s : S)
      → outcome rs 0 (record { store = s; max_seq = 0; last_good = 0 }) ≡ summary rs s
  outcome-summary rs s = outcome_lem rs 0 0 s ∙ (λ i. record {
    store = apply_all rs s;
    max_seq = greatest_seq rs 0;
    last_good = (let e : 0 + length (encoded rs) ≡ length (encoded rs) = omega arith in e) i;
  })

  -- The longest run of whole records in the first `n` bytes.
  whole_records_lem :
      (rs : List WalRecord) (n : ℕ)
      → n ≤ length (encoded rs)
      → (length (encoded (take (whole_records rs n) rs)) ≤ n)
        × ((length rs ≤ whole_records rs n)
            ⊎ (n < length (encoded (take (suc (whole_records rs n)) rs))))
  whole_records_lem [] n h = (omega arith, inl (omega arith))
  whole_records_lem (r ∷ rs) n h =
      let len = length (encode_record r) in
      let m = n - len in
      elim (Bool-cases (ltb n len)) [
        | inl lt ↦
            rw lt (omega arith, inr (omega (arith, ltb→lt, length-append (encode_record r) [])))
        | inr ge ↦
            let le : len ≤ n = ground arith in
            let k = whole_records rs m in
            let ih =
              whole_records_lem rs m
                (omega (arith, length-append (encode_record r) (encoded rs))) in
            rw ge (
              omega (arith, ih.0, length-append (encode_record r) (encoded (take k rs))),
              elim ih.1 [
                | inl all ↦ inl (omega arith)
                | inr cut ↦
                    inr (omega (arith, length-append (encode_record r) (encoded (take (suc k) rs))))
              ],
            )
      ]

  replay_loop-nil : (fuel size : ℕ) (p : Replayed S) → replay_loop apply fuel size [] p ≡ p
  unfolding replay_loop decode_record
  replay_loop-nil zero size p = refl
  replay_loop-nil (suc fuel) size p = unfold read_exact in refl

  -- The replay of a log of which the first `n` bytes are there.
  replay_loop-cut :
      (rs : List WalRecord) (n fuel start : ℕ) (p : Replayed S)
      → All Fits rs
      → n ≤ length (encoded rs)
      → n < fuel
      → replay_loop apply fuel (start + n) (take n (encoded rs)) p
        ≡ outcome (take (whole_records rs n) rs) start p
  unfolding replay_loop
  replay_loop-cut [] n fuel start p f h hf = rw (take-nil n) (replay_loop-nil fuel (start + n) p)
  replay_loop-cut (r ∷ rs) n zero start p f h hf = absurd (omega arith)
  replay_loop-cut (r ∷ rs) n (suc fuel) start p (fr, f) h hf =
      let len = length (encode_record r) in
      let m = n - len in
      elim (Bool-cases (ltb n len)) [
        | inl lt ↦ rw lt (
            rw (take-append_short n (encode_record r) (encoded rs) (omega (arith, ltb→lt)))
              (rw (decode-cut_record r n fr (ltb→lt _ _ lt), replay_loop) refl))
        | inr ge ↦
            let le : len ≤ n = ground arith in
            let short : length (take m (encoded rs)) ≡ m =
              length-take_of_le m (encoded rs)
                (omega (arith, length-append (encode_record r) (encoded rs))) in
            let offset : start + n - length (take m (encoded rs)) ≡ start + len = omega arith in
            let total : start + n ≡ start + len + m = omega arith in
            rw ge (
              rw (take-append_right n (encode_record r) (encoded rs) le) (
                rw (decode-encode_record r (take m (encoded rs)) fr, replay_loop)
                  (rw offset (
                    rw total (
                      replay_loop-cut rs m fuel (start + len) (replay_one apply r (start + len) p) f
                        (omega (arith, length-append (encode_record r) (encoded rs)))
                        (omega (arith, encode_record-long r fr)))))))
      ]

  -- After a crash that leaves the first `n` bytes of a log, whose records fit their fields,
  -- replay recovers exactly the longest run of whole records in them: it applies these in order
  -- and nothing else, `max_seq` is their greatest sequence number, and the last good offset is
  -- their end.
  pub crash_recovery :
      (rs : List WalRecord) (n : ℕ) (s : S)
      → All Fits rs
      → n ≤ length (encoded rs)
      → (k : ℕ) × (length (encoded (take k rs)) ≤ n)
        × ((length rs ≤ k) ⊎ (n < length (encoded (take (suc k) rs))))
        × (replay_file apply (take n (encoded rs)) s ≡ summary (take k rs) s)
  unfolding replay_file
  crash_recovery rs n s f h =
      let k = whole_records rs n in
      let (fits, next) = whole_records_lem rs n h in
      let size : length (take n (encoded rs)) ≡ n = length-take_of_le n (encoded rs) h in
      let zero_n : n ≡ 0 + n = omega arith in
      (
        k,
        fits,
        next,
        rw size (
            subst
              (λ (m : ℕ).
                replay_loop apply (n + 1) m (take n (encoded rs))
                  (record { store = s; max_seq = 0; last_good = 0 })
                ≡ summary (take k rs) s)
              (sym zero_n)
              (replay_loop-cut rs n (n + 1) 0 (record { store = s; max_seq = 0; last_good = 0 }) f h
                  (omega arith)
                ∙ outcome-summary (take k rs) s)),
      )

  replay_loop-tail :
      (rs : List WalRecord) (tail : Bytes) (fuel start : ℕ) (p : Replayed S)
      → All Fits rs
      → decode_record tail ≡ none
      → length (encoded rs) < fuel
      → replay_loop apply fuel (start + length (encoded rs ++ tail)) (encoded rs ++ tail) p
        ≡ outcome rs start p
  unfolding replay_loop
  replay_loop-tail rs tail zero start p f d h = absurd (omega arith)
  replay_loop-tail [] tail (suc fuel) start p f d h = rw (d, replay_loop) refl
  replay_loop-tail (r ∷ rs) tail (suc fuel) start p (fr, f) d h =
      let len = length (encode_record r) in
      let rest = encoded rs ++ tail in
      let whole : length ((encode_record r ++ encoded rs) ++ tail) ≡ len + length rest =
        ap length (append_assoc (encode_record r) (encoded rs) tail)
        ∙ length-append (encode_record r) rest in
      let offset : start + (len + length rest) - length rest ≡ start + len = omega arith in
      let total : start + (len + length rest) ≡ start + len + length rest = omega arith in
      rw whole (
        rw (append_assoc (encode_record r) (encoded rs) tail) (
          rw (decode-encode_record r rest fr, replay_loop)
            (rw offset (
              rw total (
                replay_loop-tail rs tail fuel (start + len) (replay_one apply r (start + len) p) f d
                  (omega (
                    arith,
                    encode_record-long r fr,
                    length-append (encode_record r) (encoded rs),
                  )))))))

  -- Behind records that fit their fields, bytes that are not read as a record, a torn or corrupt
  -- one for example, end the replay: it recovers exactly the records before them.
  pub replay_file-tail :
      (rs : List WalRecord) (tail : Bytes) (s : S)
      → All Fits rs
      → decode_record tail ≡ none
      → replay_file apply (encoded rs ++ tail) s ≡ summary rs s
  unfolding replay_file
  replay_file-tail rs tail s f d =
      let p : Replayed S = record { store = s; max_seq = 0; last_good = 0 } in
      let zero_n : length (encoded rs ++ tail) ≡ 0 + length (encoded rs ++ tail) = omega arith in
      subst
        (λ (m : ℕ).
          replay_loop apply (length (encoded rs ++ tail) + 1) m (encoded rs ++ tail) p
          ≡ summary rs s)
        (sym zero_n)
        (replay_loop-tail rs tail (length (encoded rs ++ tail) + 1) 0 p f d
            (omega (arith, length-append (encoded rs) tail))
          ∙ outcome-summary rs s)
