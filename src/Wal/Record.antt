-- ===== src/Wal/Record.antt =====
-- `WalHeader`, `Wal::write_record` and the reading of one record in `Wal::replay_into`.
pub mod RoundTrip
use veri_store.Common.{
  ℕ, zero, suc, ◌+◌, ◌*◌, ◌/◌, ◌%◌, ◌^◌, Bool, true, false, not, ◌&&◌, ◌||◌, Option, none, some,
  List, [], ◌∷◌, ◌++◌, Bytes, length, take, drop, get_or, ltb, ◌==◌, if◌then◌else◌,
}
use veri_store.Wal.Crc.{crc32_update}

-- The `n` bytes of a number, the lowest first, and back.
unfoldable pub le_bytes : ℕ → ℕ → Bytes
le_bytes zero v = []
le_bytes (suc n) v = (v % 256) ∷ le_bytes n (v / 256)

unfoldable pub le_value : Bytes → ℕ
le_value [] = 0
le_value (b ∷ bytes) = b + 256 * le_value bytes

pub data RecordType : Type 0 where
  put_type del_type : RecordType

abbrev pub type_code : RecordType → ℕ
type_code put_type = 1
type_code del_type = 2

pub record WalRecord : Type 0 where
  pub type : RecordType
  pub seq : ℕ
  pub key : Bytes
  pub value : Bytes

abbrev pub magic : ℕ
magic = 0x474C564B

abbrev pub version : ℕ
version = 1

abbrev pub header_size : ℕ
header_size = 23

-- The packed header: magic, version, type, key length, value length, sequence number.
unfoldable pub header_bytes : RecordType → ℕ → ℕ → ℕ → Bytes
unfolding le_bytes
header_bytes t key_len val_len seq =
    le_bytes 4 magic
    ++ (le_bytes 2 version
        ++ (type_code t ∷ (le_bytes 4 key_len ++ (le_bytes 4 val_len ++ le_bytes 8 seq))))

-- The part of the value that is written: that of a PUT.
abbrev pub payload : RecordType → Bytes → Bytes
payload put_type value = value
payload del_type value = []

-- The checksum over header, key, and for a PUT the value.
unfoldable pub record_crc : RecordType → Bytes → Bytes → Bytes → ℕ
record_crc put_type header key value = crc32_update (crc32_update (crc32_update 0 header) key) value
record_crc del_type header key value = crc32_update (crc32_update 0 header) key

-- The bytes that `write_record` appends to the buffer.
unfoldable pub encode_record : WalRecord → Bytes
encode_record r =
    let header = header_bytes r.type (length r.key % 2 ^ 32) (length r.value % 2 ^ 32) r.seq in
    header
    ++ (r.key ++ (payload r.type r.value ++ le_bytes 4 (record_crc r.type header r.key r.value)))

-- `read_exact`: `n` bytes, or failure at the end of the file.
unfoldable pub read_exact : ℕ → Bytes → Option (Bytes × Bytes)
read_exact n bytes = if ltb (length bytes) n then none else some (take n bytes, drop n bytes)

pub record WalHeader : Type 0 where
  pub type : RecordType
  pub key_len : ℕ
  pub val_len : ℕ
  pub seq : ℕ

abbrev pub header_of : RecordType → Bytes → WalHeader
header_of t h = record {
  type = t;
  key_len = le_value (take 4 (drop 7 h));
  val_len = le_value (take 4 (drop 11 h));
  seq = le_value (take 8 (drop 15 h));
}

-- The checks on magic, version and type.
unfoldable pub parse_header : Bytes → Option WalHeader
unfolding le_value
parse_header h =
    if not (le_value (take 4 h) == magic) || not (le_value (take 2 (drop 4 h)) == version)
    then none
    else if get_or h 6 0 == 1
    then some (header_of put_type h)
    else if get_or h 6 0 == 2
    then some (header_of del_type h)
    else none

infixl 5 ◌>>=◌
abbrev pub ◌>>=◌ {ℓ κ} : {A : Type ℓ} {B : Type κ} → Option A → (A → Option B) → Option B
none >>= f = none
some a >>= f = f a

-- The value that is read: that of a PUT.
unfoldable pub read_value : WalHeader → Bytes → Option (Bytes × Bytes)
read_value h bytes = elim h.type [
  | put_type ↦ read_exact h.val_len bytes
  | del_type ↦ some ([], bytes)
]

-- The comparison of the checksums.
unfoldable pub check_crc :
    WalHeader → Bytes → Bytes → Bytes → Bytes × Bytes → Option (WalRecord × Bytes)
check_crc h header key value (stored, rest) =
    if record_crc h.type header key value == le_value stored
    then some (record { type = h.type; seq = h.seq; key = key; value = value }, rest)
    else none

unfoldable pub decode_tail : WalHeader → Bytes → Bytes → Bytes × Bytes → Option (WalRecord × Bytes)
decode_tail h header key v = read_exact 4 v.1 >>= λ c. check_crc h header key v.0 c

unfoldable pub decode_body : WalHeader → Bytes → Bytes → Option (WalRecord × Bytes)
decode_body h header bytes =
    read_exact h.key_len bytes >>= λ k. read_value h k.1 >>= λ v. decode_tail h header k.0 v

-- One round of the replay loop: a record and the bytes behind it, or the end of what is readable.
unfoldable pub decode_record : Bytes → Option (WalRecord × Bytes)
decode_record bytes =
    read_exact header_size bytes >>= λ a. parse_header a.0 >>= λ h. decode_body h a.0 a.1
