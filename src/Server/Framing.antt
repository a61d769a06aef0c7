-- ===== src/Server/Framing.antt =====
-- How a client's bytes are split into reads makes no difference.
use veri_store.Common.{
  ℕ, ◌≡◌, refl, sym, ap, ◌∙◌, false, List, [], ◌∷◌, ◌++◌, Bytes, ◌==◌, append_assoc, append-nil,
  Bool-cases, inl, inr,
}
use veri_store.Text.{newline}
use veri_store.Wal.File.{Disk}
use veri_store.Raft.Propose.{Outside}
use veri_store.Server.{
  Server, handle_lines, handle_command, push, take_lines, strip_return, strip_all, receive,
  receive_all,
}

-- What has its newline stays, and the rest is cut again with what follows.
abbrev joined : List Bytes × Bytes → Bytes → List Bytes × Bytes
joined (ls, rest) b = let (ms, rest') = take_lines (rest ++ b) in (ls ++ ms, rest')

push-joined :
    (c : ℕ) (t : List Bytes × Bytes) (b : Bytes)
    → (c == newline) ≡ false
    → joined (push c t) b ≡ push c (joined t b)
unfolding take_lines
push-joined c ([], rest) b e = rw e refl
push-joined c (l ∷ ls, rest) b e = refl

take_lines-append : (a b : Bytes) → take_lines (a ++ b) ≡ joined (take_lines a) b
unfolding take_lines
take_lines-append [] b = refl
take_lines-append (c ∷ a) b = elim (Bool-cases (c == newline)) [
  | inl e ↦ rw e (ap (λ (x : List Bytes × Bytes). ([] ∷ x.0, x.1)) (take_lines-append a b))
  | inr e ↦ rw e (ap (push c) (take_lines-append a b) ∙ sym (push-joined c (take_lines a) b e))
]

push-rest :
    (c : ℕ) (t : List Bytes × Bytes)
    → (c == newline) ≡ false
    → take_lines t.1 ≡ ([], t.1)
    → take_lines (push c t).1 ≡ ([], (push c t).1)
unfolding take_lines
push-rest c ([], rest) e h = rw e (ap (push c) h)
push-rest c (l ∷ ls, rest) e h = h

-- What is left behind the lines holds none.
take_lines-rest : (a : Bytes) → take_lines (take_lines a).1 ≡ ([], (take_lines a).1)
unfolding take_lines
take_lines-rest [] = refl
take_lines-rest (c ∷ a) = elim (Bool-cases (c == newline)) [
  | inl e ↦ rw e (take_lines-rest a)
  | inr e ↦ rw e (push-rest c (take_lines a) e (take_lines-rest a))
]

strip_all-append : (ls ms : List Bytes) → strip_all (ls ++ ms) ≡ strip_all ls ++ strip_all ms
unfolding strip_all
strip_all-append [] ms = refl
strip_all-append (l ∷ ls) ms = ap (λ x. strip_return l ∷ x) (strip_all-append ls ms)

abbrev pub concat : List Bytes → Bytes
concat [] = []
concat (t ∷ ts) = t ++ concat ts

module _ (disk : Disk) (out : Outside) where
  abbrev then_handle : Server × List Bytes → List Bytes → Server × List Bytes
  then_handle (s, answers) ms = let (u, later) = handle_lines disk out ms s in (u, answers ++ later)

  handle_lines-append :
      (ls ms : List Bytes) (s : Server)
      → handle_lines disk out (ls ++ ms) s ≡ then_handle (handle_lines disk out ls s) ms
  unfolding handle_lines
  handle_lines-append [] ms s = refl
  handle_lines-append (l ∷ ls) ms s =
      let t = handle_command disk out l s in
      ap (λ (x : Server × List Bytes). (x.0, t.1 ∷ x.1)) (handle_lines-append ls ms t.0)

  abbrev respond : List Bytes × Bytes → Server → Server × Bytes × List Bytes
  respond (ls, rest) s =
      let (t, answers) = handle_lines disk out (strip_all ls) s in (t, rest, answers)

  receive-respond :
      (text : Bytes) (s : Server) (pending : Bytes)
      → receive disk out text s pending ≡ respond (take_lines (pending ++ text)) s
  unfolding receive
  receive-respond text s pending = refl

  abbrev then_respond : Server × Bytes × List Bytes → Bytes → Server × Bytes × List Bytes
  then_respond (t, rest, answers) b =
      let (u, rest', later) = respond (take_lines (rest ++ b)) t in (u, rest', answers ++ later)

  respond-joined :
      (t : List Bytes × Bytes) (b : Bytes) (s : Server)
      → respond (joined t b) s ≡ then_respond (respond t s) b
  respond-joined (ls, rest) b s =
      let more = take_lines (rest ++ b) in
      ap (λ (x : Server × List Bytes). (x.0, more.1, x.1))
        (ap (λ z. handle_lines disk out z s) (strip_all-append ls more.0)
          ∙ handle_lines-append (strip_all ls) (strip_all more.0) s)

  -- The reads of a connection, whatever their sizes, leave the server, what is pending and the replies
  -- that one read of all the bytes leaves. What is pending at the start holds no newline.
  pub receive_all-joined :
      (texts : List Bytes) (s : Server) (pending : Bytes)
      → take_lines pending ≡ ([], pending)
      → receive_all disk out texts s pending ≡ receive disk out (concat texts) s pending
  unfolding receive_all
  receive_all-joined [] s pending h = sym (
      receive-respond [] s pending
      ∙ ap (λ x. respond x s) (ap take_lines (append-nil pending) ∙ h)
      ∙ (unfold handle_lines strip_all in refl))
  receive_all-joined (text ∷ texts) s pending h =
      let first = take_lines (pending ++ text) in
      let t = respond first s in
      let later =
        receive_all-joined texts t.0 t.1 (take_lines-rest (pending ++ text))
        ∙ receive-respond (concat texts) t.0 t.1 in
      ap
        (λ (x : Server × Bytes × List Bytes).
          let (u, rest', more) = receive_all disk out texts x.0 x.1 in (u, rest', x.2 ++ more))
        (receive-respond text s pending)
      ∙ (ap (λ (x : Server × Bytes × List Bytes). (x.0, x.1, t.2 ++ x.2)) later
          ∙ sym (
              receive-respond (text ++ concat texts) s pending
              ∙ (ap (λ x. respond (take_lines x) s) (sym (append_assoc pending text (concat texts)))
                  ∙ (ap (λ x. respond x s) (take_lines-append (pending ++ text) (concat texts))
                      ∙ respond-joined first (concat texts) s))))
