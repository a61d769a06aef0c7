-- ===== src/Wal/Record/RoundTrip.antt =====
-- A record that was written is read back; a part of one is not.
use mathlib.Core.Path.{subst}
use native.Mathlib.Decide.{dec_lt}
use native.Mathlib.Nat.{pow-suc}
use veri_store.Common.{
  ℕ, zero, suc, ◌+◌, ◌*◌, ◌/◌, ◌%◌, ◌^◌, ◌<◌, ◌≤◌, ◌≡◌, refl, ap, ◌∙◌, none, some, [], ◌++◌, Bytes,
  length, take, arith, length-append, take-append_left, drop-append_left, append_assoc, ◌-◌,
  length-take-le, take-append_right,
}
use veri_store.Wal.Crc.{crc32_update}
use veri_store.Wal.Record.{
  le_bytes, le_value, RecordType, put_type, del_type, WalRecord, header_size, header_bytes, payload,
  record_crc, encode_record, read_exact, WalHeader, parse_header, read_value, check_crc,
  decode_tail, decode_body, decode_record,
}

-- Lengths and sequence number fit their fields; a DEL has no value.
pub record Fits (r : WalRecord) : Type 0 where
  pub seq_fits : r.seq < 256 ^ 8
  pub key_fits : length r.key < 256 ^ 4
  pub value_fits : length r.value < 256 ^ 4
  pub del_empty : r.type ≡ del_type → r.value ≡ []

le_value-le_bytes : (n v : ℕ) → v < 256 ^ n → le_value (le_bytes n v) ≡ v
unfolding le_value le_bytes
le_value-le_bytes zero v h = omega arith
le_value-le_bytes (suc n) v h =
    let p : 256 ^ suc n ≡ 256 ^ n * 256 = pow-suc 256 n in
    omega (arith, le_value-le_bytes n (v / 256) (omega arith))

length-le_bytes : (n v : ℕ) → length (le_bytes n v) ≡ n
unfolding le_bytes
length-le_bytes zero v = refl
length-le_bytes (suc n) v = ap suc (length-le_bytes n (v / 256))

length-header_bytes : (t : RecordType) (kl vl seq : ℕ) → length (header_bytes t kl vl seq) ≡ 23
unfolding header_bytes
length-header_bytes t kl vl seq = refl

parse-header_bytes :
    (t : RecordType) (kl vl seq : ℕ)
    → kl < 256 ^ 4
    → vl < 256 ^ 4
    → seq < 256 ^ 8
    → parse_header (header_bytes t kl vl seq)
      ≡ some (record { type = t; key_len = kl; val_len = vl; seq = seq })
unfolding parse_header header_bytes
parse-header_bytes put_type kl vl seq hk hv hs = λ i. some (record {
  type = put_type;
  key_len = le_value-le_bytes 4 kl hk i;
  val_len = le_value-le_bytes 4 vl hv i;
  seq = le_value-le_bytes 8 seq hs i;
})
parse-header_bytes del_type kl vl seq hk hv hs = λ i. some (record {
  type = del_type;
  key_len = le_value-le_bytes 4 kl hk i;
  val_len = le_value-le_bytes 4 vl hv i;
  seq = le_value-le_bytes 8 seq hs i;
})

read_exact-append : (xs ys : Bytes) → read_exact (length xs) (xs ++ ys) ≡ some (xs, ys)
unfolding read_exact
read_exact-append xs ys =
    ground (arith, length-append xs ys, take-append_left xs ys, drop-append_left xs ys)

read_exact_short : (n : ℕ) (xs : Bytes) → length xs < n → read_exact n xs ≡ none
unfolding read_exact
read_exact_short n xs h = ground arith

crc32_update-lt : (crc : ℕ) (bytes : Bytes) → crc32_update crc bytes < 256 ^ 4
unfolding crc32_update
crc32_update-lt crc bytes = omega arith

record_crc-lt : (t : RecordType) (h k v : Bytes) → record_crc t h k v < 256 ^ 4
unfolding record_crc
record_crc-lt put_type h k v = crc32_update-lt _ v
record_crc-lt del_type h k v = crc32_update-lt _ k

abbrev header_of_record : WalRecord → Bytes
header_of_record r = header_bytes r.type (length r.key) (length r.value) r.seq

abbrev crc_of_record : WalRecord → ℕ
crc_of_record r = record_crc r.type (header_of_record r) r.key r.value

-- Under the bounds the lengths are written as they are.
encode_record_lem :
    (r : WalRecord)
    → Fits r
    → encode_record r
      ≡ header_of_record r ++ (r.key ++ (payload r.type r.value ++ le_bytes 4 (crc_of_record r)))
unfolding encode_record
encode_record_lem r f =
    let a : length r.key % 2 ^ 32 ≡ length r.key = omega (arith, f.key_fits) in
    let b : length r.value % 2 ^ 32 ≡ length r.value = omega (arith, f.value_fits) in rw (a, b) refl

read_value-append :
    (h : WalHeader) (v rest : Bytes)
    → h.val_len ≡ length v
    → (h.type ≡ del_type → v ≡ [])
    → read_value h (payload h.type v ++ rest) ≡ some (v, rest)
unfolding read_value
read_value-append h v rest e d = ground (arith, read_exact-append v rest, e, d)

abbrev parsed_header : WalRecord → WalHeader
parsed_header r = record {
  type = r.type;
  key_len = length r.key;
  val_len = length r.value;
  seq = r.seq;
}

abbrev crc_field : WalRecord → Bytes
crc_field r = le_bytes 4 (crc_of_record r)

encode_record-append :
    (r : WalRecord) (rest : Bytes)
    → Fits r
    → encode_record r ++ rest
      ≡ header_of_record r ++ (r.key ++ (payload r.type r.value ++ (crc_field r ++ rest)))
encode_record-append r rest f = rw (encode_record_lem r f) (simp append_assoc)

read_header :
    (r : WalRecord) (bytes : Bytes)
    → read_exact header_size (header_of_record r ++ bytes) ≡ some (header_of_record r, bytes)
read_header r bytes =
    subst (λ (n : ℕ). read_exact n (header_of_record r ++ bytes) ≡ some (header_of_record r, bytes))
      (length-header_bytes r.type (length r.key) (length r.value) r.seq)
      (read_exact-append (header_of_record r) bytes)

check_crc_passes :
    (r : WalRecord) (rest : Bytes)
    → check_crc (parsed_header r) (header_of_record r) r.key r.value (crc_field r, rest)
      ≡ some (r, rest)
unfolding check_crc
check_crc_passes r rest =
    let same : le_value (crc_field r) ≡ crc_of_record r =
      le_value-le_bytes 4 (crc_of_record r)
        (record_crc-lt r.type (header_of_record r) r.key r.value) in
    ground (arith, same)

read_crc :
    (r : WalRecord) (rest : Bytes) → read_exact 4 (crc_field r ++ rest) ≡ some (crc_field r, rest)
read_crc r rest =
    subst (λ (n : ℕ). read_exact n (crc_field r ++ rest) ≡ some (crc_field r, rest))
      (length-le_bytes 4 (crc_of_record r)) (read_exact-append (crc_field r) rest)

decode_record-header :
    (r : WalRecord) (bytes : Bytes)
    → Fits r
    → decode_record (header_of_record r ++ bytes)
      ≡ decode_body (parsed_header r) (header_of_record r) bytes
unfolding decode_record
decode_record-header r bytes f = rw (read_header r bytes) (
    rw
      (parse-header_bytes r.type (length r.key) (length r.value) r.seq f.key_fits f.value_fits
        f.seq_fits)
      refl)

-- A record that fits its fields, written and read back with anything behind it, is itself, and what
-- was behind it is left to read.
pub decode-encode_record :
    (r : WalRecord) (rest : Bytes)
    → Fits r
    → decode_record (encode_record r ++ rest) ≡ some (r, rest)
unfolding decode_body decode_tail
decode-encode_record r rest f = rw (encode_record-append r rest f) (
    rw (decode_record-header r (r.key ++ (payload r.type r.value ++ (crc_field r ++ rest))) f) (
      rw (read_exact-append r.key (payload r.type r.value ++ (crc_field r ++ rest)), decode_body)
        (rw (read_value-append (parsed_header r) r.value (crc_field r ++ rest) refl f.del_empty)
          (rw (read_crc r rest, decode_tail) (check_crc_passes r rest)))))

cut_crc :
    (r : WalRecord) (n : ℕ) (key value : Bytes)
    → n < 4
    → decode_tail (parsed_header r) (header_of_record r) key (value, take n (crc_field r)) ≡ none
unfolding decode_tail
cut_crc r n key value h =
    rw (read_exact_short 4 (take n (crc_field r)) (omega (arith, length-take-le n (crc_field r))))
      refl

read_value_short :
    (h : WalHeader) (v bytes : Bytes)
    → h.val_len ≡ length v
    → length bytes < length (payload h.type v)
    → read_value h bytes ≡ none
unfolding read_value
read_value_short h v bytes e lt = ground (arith, read_exact_short h.val_len bytes)

cut_body :
    (r : WalRecord) (n : ℕ)
    → Fits r
    → n < length (r.key ++ (payload r.type r.value ++ crc_field r))
    → decode_body
        (parsed_header r)
        (header_of_record r)
        (take n (r.key ++ (payload r.type r.value ++ crc_field r)))
      ≡ none
unfolding decode_body
cut_body r n f h =
    let tail = payload r.type r.value ++ crc_field r in
    let len : length (r.key ++ tail) ≡ length r.key + (length (payload r.type r.value) + 4) =
      omega (
        arith,
        length-append r.key tail,
        length-append (payload r.type r.value) (crc_field r),
        length-le_bytes 4 (crc_of_record r),
      ) in
    elim (dec_lt n (length r.key)) [
      | yes lt ↦
          rw
            (
              read_exact_short (length r.key) (take n (r.key ++ tail))
                  (omega (arith, length-take-le n (r.key ++ tail))),
              decode_body,
            )
            refl
      | no ge ↦
          let m = n - length r.key in
          rw (take-append_right n r.key tail (omega arith)) (
            rw (read_exact-append r.key (take m tail), decode_body)
              (elim (dec_lt m (length (payload r.type r.value))) [
                | yes lt ↦
                    rw
                      (read_value_short (parsed_header r) r.value (take m tail) refl
                        (omega (arith, length-take-le m tail)))
                      refl
                | no ge' ↦
                    let k = m - length (payload r.type r.value) in
                    rw (take-append_right m (payload r.type r.value) (crc_field r) (omega arith)) (
                      rw
                        (read_value-append (parsed_header r) r.value (take k (crc_field r)) refl
                          f.del_empty)
                        (cut_crc r k r.key r.value (omega arith)))
              ]))
    ]

-- A record that fits its fields and is cut short anywhere is not read.
pub decode-cut_record :
    (r : WalRecord) (n : ℕ)
    → Fits r
    → n < length (encode_record r)
    → decode_record (take n (encode_record r)) ≡ none
decode-cut_record r n f h =
    let header = header_of_record r in
    let body = r.key ++ (payload r.type r.value ++ crc_field r) in
    let hl : length header ≡ 23 =
      length-header_bytes r.type (length r.key) (length r.value) r.seq in
    let len : length (encode_record r) ≡ 23 + length body =
      ap length (encode_record_lem r f) ∙ omega (arith, length-append header body) in
    elim (dec_lt n 23) [
      | yes lt ↦
          unfold decode_record in
          rw
            (read_exact_short 23 (take n (encode_record r))
              (omega (arith, length-take-le n (encode_record r))))
            refl
      | no ge ↦ rw (encode_record_lem r f) (
          rw (take-append_right n header body (omega arith)) (
            rw (decode_record-header r (take (n - length header) body) f)
              (cut_body r (n - length header) f (omega arith))))
    ]

-- A record takes at least 27 bytes.
pub encode_record-long : (r : WalRecord) → Fits r → 27 ≤ length (encode_record r)
encode_record-long r f =
    let body = r.key ++ (payload r.type r.value ++ crc_field r) in
    rw (encode_record_lem r f) (
      omega (
        arith,
        length-append (header_of_record r) body,
        length-header_bytes r.type (length r.key) (length r.value) r.seq,
        length-append r.key (payload r.type r.value ++ crc_field r),
        length-append (payload r.type r.value) (crc_field r),
        length-le_bytes 4 (crc_of_record r),
      ))
