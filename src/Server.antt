-- ===== src/Server.antt =====
-- The commands of src/server_main.cpp: `handle_command`, and the loop that cuts what a client sends into
-- lines. Sockets are not modelled: what the reads give is a list of texts, and what is written back a
-- list of replies.
pub mod Framing
pub mod Commands
mod Tests
use veri_store.Common.{
  ℕ, ◌+◌, Bool, true, false, not, ◌||◌, Option, none, some, List, [], ◌∷◌, ◌++◌, Bytes, codes,
  bytes_eq, ◌==◌, if◌then◌else◌,
}
use veri_store.Text.{newline, read_word, print_uint}
use veri_store.Wal.File.{Disk}
use veri_store.KvStore.{KvStore, get, size, flush_wal}
use veri_store.Raft.Types.{RaftNode}
use veri_store.Raft.Node.{is_leader}
use veri_store.Raft.Propose.{Outside, propose_put, propose_del}

pub record Server : Type 0 where
  pub store : KvStore
  pub raft : Option RaftNode

-- `iss >> word`: a word that is not there is empty, and so are those behind it.
abbrev word_or_none : Option (Bytes × Bytes) → Bytes × Bytes
word_or_none none = ([], [])
word_or_none (some w) = w

unfoldable pub next_word : Bytes → Bytes × Bytes
unfolding read_word
next_word text = word_or_none (read_word text)

abbrev pub is_nil {ℓ} : {A : Type ℓ} → List A → Bool
is_nil [] = true
is_nil (x ∷ xs) = false

abbrev pub reply : Bytes → Bytes
reply text = text ++ newline ∷ []

abbrev pub leads : Option RaftNode → Bool
leads none = false
leads (some n) = is_leader n

abbrev value_reply : Option Bytes → Bytes
value_reply none = reply (codes "NOT_FOUND")
value_reply (some v) = reply (codes "VALUE " ++ v)

abbrev status_reply : Option RaftNode → Bytes
status_reply none = reply (codes "ROLE UNKNOWN")
status_reply (some n) =
    if is_leader n then reply (codes "ROLE LEADER") else reply (codes "ROLE FOLLOWER")

-- `disk` is what the disk does to a flush of the log; while the node's mutex is free, before a proposal
-- as in it, `out` says what becomes of the node.
module _ (disk : Disk) (out : Outside) where
  abbrev propose_reply : Bytes → Server → RaftNode × Bool → Server × Bytes
  propose_reply failure s (n, ok) =
      (record s { raft = some n }, if ok then reply (codes "OK") else reply failure)

  abbrev pub put_command : Bytes → Server → Option RaftNode → Server × Bytes
  put_command args s none = (s, reply (codes "NOT_LEADER"))
  put_command args s (some n) =
      let k = next_word args in
      let v = next_word k.1 in
      if not (is_leader n)
      then (s, reply (codes "NOT_LEADER"))
      else if is_nil k.0 || is_nil v.0
      then (s, reply (codes "ERR usage: PUT key value"))
      else propose_reply (codes "FAIL") s (propose_put out k.0 v.0 (out.gap n))

  abbrev pub del_command : Bytes → Server → Option RaftNode → Server × Bytes
  del_command args s none = (s, reply (codes "NOT_LEADER"))
  del_command args s (some n) =
      let k = next_word args in
      if not (is_leader n)
      then (s, reply (codes "NOT_LEADER"))
      else if is_nil k.0
      then (s, reply (codes "ERR usage: DEL key"))
      else propose_reply (codes "NOT_FOUND") s (propose_del out k.0 (out.gap n))

  abbrev pub get_command : Bytes → Server → Server × Bytes
  get_command args s =
      let k = next_word args in
      if is_nil k.0
      then (s, reply (codes "ERR usage: GET key"))
      else (s, value_reply (get k.0 s.store))

  abbrev pub flush_command : Server → Server × Bytes
  flush_command s =
      let flushed = flush_wal disk s.store in
      (
        record s { store = flushed.0 },
        if flushed.1 then reply (codes "FLUSH_OK") else reply (codes "FLUSH_FAIL"),
      )

  unfoldable pub handle_command : Bytes → Server → Server × Bytes
  unfolding next_word is_leader propose_put propose_del get size flush_wal
  handle_command line s =
      let cmd = next_word line in
      if bytes_eq cmd.0 (codes "PUT")
      then put_command cmd.1 s s.raft
      else if bytes_eq cmd.0 (codes "GET")
      then get_command cmd.1 s
      else if bytes_eq cmd.0 (codes "DEL")
      then del_command cmd.1 s s.raft
      else if bytes_eq cmd.0 (codes "SIZE")
      then (s, reply (codes "SIZE " ++ print_uint (size s.store)))
      else if bytes_eq cmd.0 (codes "FLUSH")
      then flush_command s
      else if bytes_eq cmd.0 (codes "PING")
      then (s, reply (codes "PONG"))
      else if bytes_eq cmd.0 (codes "STATUS")
      then (s, status_reply s.raft)
      else (s, reply (codes "ERR unknown command"))

  -- The replies to these lines.
  unfoldable pub handle_lines : List Bytes → Server → Server × List Bytes
  unfolding handle_command
  handle_lines [] s = (s, [])
  handle_lines (l ∷ ls) s =
      let (t, answer) = handle_command l s in
      let (u, answers) = handle_lines ls t in (u, answer ∷ answers)

abbrev pub push : ℕ → List Bytes × Bytes → List Bytes × Bytes
push c ([], rest) = ([], c ∷ rest)
push c (l ∷ ls, rest) = ((c ∷ l) ∷ ls, rest)

-- The lines that have their newline, and the rest.
unfoldable pub take_lines : Bytes → List Bytes × Bytes
take_lines [] = ([], [])
take_lines (c ∷ bytes) =
    let (ls, rest) = take_lines bytes in if c == newline then ([] ∷ ls, rest) else push c (ls, rest)

-- A carriage return at the end of a line goes.
unfoldable pub strip_return : Bytes → Bytes
strip_return [] = []
strip_return (c ∷ []) = if c == 13 then [] else c ∷ []
strip_return (c ∷ d ∷ line) = c ∷ strip_return (d ∷ line)

unfoldable pub strip_all : List Bytes → List Bytes
unfolding strip_return
strip_all [] = []
strip_all (l ∷ ls) = strip_return l ∷ strip_all ls

-- What one `read` gives: the server and what is pending, with the replies.
unfoldable pub receive : Disk → Outside → Bytes → Server → Bytes → Server × Bytes × List Bytes
unfolding take_lines strip_all handle_lines
receive disk out text s pending =
    let (ls, rest) = take_lines (pending ++ text) in
    let (t, answers) = handle_lines disk out (strip_all ls) s in (t, rest, answers)

-- The reads of one connection.
unfoldable pub receive_all :
    Disk → Outside → List Bytes → Server → Bytes → Server × Bytes × List Bytes
unfolding receive
receive_all disk out [] s pending = (s, pending, [])
receive_all disk out (text ∷ texts) s pending =
    let (t, rest, answers) = receive disk out text s pending in
    let (u, rest', later) = receive_all disk out texts t rest in (u, rest', answers ++ later)
