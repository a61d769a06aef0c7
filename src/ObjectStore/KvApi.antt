-- ===== src/ObjectStore/KvApi.antt =====
-- What the object store needs of the key-value store: its operations, and the laws that they keep on
-- a store that is ready. KvStore/Api fills them.
use veri_store.Common.{
  ◌≡◌, ◌≢◌, ◌↔◌, Bool, Option, none, some, List, Bytes, bytes_eq, if◌then◌else◌, take, length, In,
}

abbrev pub StartsWith : Bytes → Bytes → Type 0
StartsWith prefix k = take (length prefix) k ≡ prefix

pub record KvApi (S : Type 0) : Type 0 where
  pub get : Bytes → S → Option Bytes
  pub put : Bytes → Bytes → S → S
  pub del : Bytes → S → S × Bool
  pub list_keys_with_prefix : Bytes → S → List Bytes
  pub flush_wal : S → S × Bool

pub record Laws {S : Type 0} (api : KvApi S) (IsReady : S → Type 0) : Type 0 where
  pub get-put :
      (k v j : Bytes) (s : S)
      → IsReady s
      → api.get j (api.put k v s) ≡ (if bytes_eq k j then some v else api.get j s)
  pub get-del :
      (k j : Bytes) (s : S)
      → IsReady s
      → api.get j (api.del k s).0 ≡ (if bytes_eq k j then none else api.get j s)
  pub get-flush_wal : (j : Bytes) (s : S) → api.get j (api.flush_wal s).0 ≡ api.get j s
  pub put-IsReady : (k v : Bytes) (s : S) → IsReady s → IsReady (api.put k v s)
  pub del-IsReady : (k : Bytes) (s : S) → IsReady s → IsReady (api.del k s).0
  pub flush_wal-IsReady : (s : S) → IsReady s → IsReady (api.flush_wal s).0
  pub list-iff :
      (prefix k : Bytes) (s : S)
      → In k (api.list_keys_with_prefix prefix s) ↔ (StartsWith prefix k × (api.get k s ≢ none))
