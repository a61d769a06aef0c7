-- ===== src/Server/Commands.antt =====
-- What the commands of a client change where no Raft node is there, as `main` starts the server.
use veri_store.Common.{
  ◌≡◌, refl, ap, none, List, [], ◌∷◌, ◌++◌, Bytes, codes, bytes_eq, if_intro, find,
}
use veri_store.Wal.File.{Disk}
use veri_store.KvStore.{KvStore, get, flush_wal}
use veri_store.Raft.Propose.{Outside}
use veri_store.Server.{
  Server, next_word, put_command, get_command, del_command, flush_command, handle_command,
  handle_lines, take_lines, strip_all, receive, receive_all, is_nil,
}

-- No Raft node, and this data.
abbrev Serves : List (Bytes × Bytes) → Server → Type 0
Serves m s = (s.store.map ≡ m) × (s.raft ≡ none)

module _ (disk : Disk) (out : Outside) where
  flush-Serves :
      (s : Server) (m : List (Bytes × Bytes)) → Serves m s → Serves m (flush_command disk out s).0
  unfolding flush_wal
  flush-Serves s m h = h

  put-Serves :
      (args : Bytes) (s : Server) (m : List (Bytes × Bytes))
      → Serves m s
      → Serves m (put_command disk out args s s.raft).0
  put-Serves args s m h = rw h.1 (h.0, refl)

  del-Serves :
      (args : Bytes) (s : Server) (m : List (Bytes × Bytes))
      → Serves m s
      → Serves m (del_command disk out args s s.raft).0
  del-Serves args s m h = rw h.1 (h.0, refl)

  get-Serves :
      (args : Bytes) (s : Server) (m : List (Bytes × Bytes))
      → Serves m s
      → Serves m (get_command disk out args s).0
  get-Serves args s m h =
      if_intro (λ (x : Server × Bytes). Serves m x.0) (is_nil (next_word args).0) (λ _. h) (λ _. h)

  handle_command-Serves :
      (line : Bytes) (s : Server) (m : List (Bytes × Bytes))
      → Serves m s
      → Serves m (handle_command disk out line s).0
  unfolding handle_command
  handle_command-Serves line s m h =
      let cmd = next_word line in
      let good : Server × Bytes → Type 0 = λ x. Serves m x.0 in
      if_intro good (bytes_eq cmd.0 (codes "PUT")) (λ _. put-Serves cmd.1 s m h)
        λ _.
          if_intro good (bytes_eq cmd.0 (codes "GET")) (λ _. get-Serves cmd.1 s m h)
            λ _.
              if_intro good (bytes_eq cmd.0 (codes "DEL")) (λ _. del-Serves cmd.1 s m h)
                λ _.
                  if_intro good (bytes_eq cmd.0 (codes "SIZE")) (λ _. h)
                    λ _.
                      if_intro good (bytes_eq cmd.0 (codes "FLUSH")) (λ _. flush-Serves s m h)
                        λ _.
                          if_intro good (bytes_eq cmd.0 (codes "PING")) (λ _. h)
                            λ _. if_intro good (bytes_eq cmd.0 (codes "STATUS")) (λ _. h) (λ _. h)

  handle_lines-Serves :
      (ls : List Bytes) (s : Server) (m : List (Bytes × Bytes))
      → Serves m s
      → Serves m (handle_lines disk out ls s).0
  unfolding handle_lines
  handle_lines-Serves [] s m h = h
  handle_lines-Serves (l ∷ ls) s m h =
      handle_lines-Serves ls (handle_command disk out l s).0 m (handle_command-Serves l s m h)

  receive_all-Serves :
      (texts : List Bytes) (s : Server) (pending : Bytes) (m : List (Bytes × Bytes))
      → Serves m s
      → Serves m (receive_all disk out texts s pending).0
  unfolding receive_all receive
  receive_all-Serves [] s pending m h = h
  receive_all-Serves (text ∷ texts) s pending m h =
      let t = take_lines (pending ++ text) in
      receive_all-Serves texts (handle_lines disk out (strip_all t.0) s).0 t.1 m
        (handle_lines-Serves (strip_all t.0) s m h)

  -- Whatever a client sends to a server without a Raft node, no key gets another value: it takes no
  -- puts and no deletes.
  pub receive_all-read_only :
      (texts : List Bytes) (store : KvStore) (pending k : Bytes)
      → get k (receive_all disk out texts (record { store = store; raft = none }) pending).0.store
        ≡ get k store
  unfolding get
  receive_all-read_only texts store pending k =
      ap (find k)
        (receive_all-Serves texts (record { store = store; raft = none }) pending store.map
          (refl, refl)).0
