-- ===== src/Server/Tests.antt =====
-- A connection to a server without a Raft node, and the theorems about it applied there.
use veri_store.Common.{◌≡◌, refl, true, false, none, [], ◌∷◌, ◌++◌, Bytes, List, codes}
use veri_store.Wal.File.{healthy}
use veri_store.KvStore.{KvStore, get}
use veri_store.Raft.Propose.{Outside}
use veri_store.Server.{Server, take_lines, receive, receive_all}
use veri_store.Server.Framing.{concat, receive_all-joined}
use veri_store.Server.Commands.{receive_all-read_only}

abbrev store : KvStore
store = record {
  map = (codes "a", codes "x") ∷ [];
  memtable = record { entries = []; approximate_size_bytes = 0 };
  immutable_memtable = none;
  sstable_paths = [];
  flush_worker = record { tasks = []; completions = []; started = true; stopping = false };
  next_sstable_id = 0;
  manifest = record { path = codes "M" };
  manifest_path = codes "M";
  wal = record { is_open = true; file = []; buffer = []; last_good_offset = 0 };
  seq = 1;
  group_commit_every = 5;
  opened = true;
}

abbrev alone : Outside
alone = record {
  gap = λ n. n;
  append = λ p req n. record {
    node = n;
    resp = record { term = 0; success = false };
    env = record { now = 0; draw = 0 };
  };
}

abbrev server : Server
server = record { store = store; raft = none }

-- Two reads of a client that sends two lines.
abbrev reads : List Bytes
reads = codes "PUT a y" ∷ (10 ∷ codes "GE") ∷ (codes "T a" ++ 10 ∷ []) ∷ []

none_pending : take_lines [] ≡ ([], [])
unfolding take_lines
none_pending = refl

receive_all-joined_example :
    receive_all healthy alone reads server [] ≡ receive healthy alone (concat reads) server []
receive_all-joined_example = receive_all-joined healthy alone reads server [] none_pending

receive_all-read_only_example :
    get (codes "a") (receive_all healthy alone reads server []).0.store ≡ get (codes "a") store
receive_all-read_only_example = receive_all-read_only healthy alone reads store [] (codes "a")
