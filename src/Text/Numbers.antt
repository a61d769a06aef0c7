-- ===== src/Text/Numbers.antt =====
-- `std::stoull` and `std::stoi`, and `std::getline` with a delimiter.
use veri_store.Common.{
  ℕ, ◌-◌, ◌%◌, ◌^◌, ◌<◌, ◌≡◌, ◌≢◌, refl, Bool, true, false, Option, none, some, List, [], ◌∷◌, ◌++◌,
  Bytes, ltb, ◌==◌, if◌then◌else◌, All, All-map, arith,
}
use veri_store.Text.{
  add_to_first, skip_space, is_digit, split_digits, digits_value, u64_mod, read_uint, print_uint,
}
use veri_store.Text.Decimal.{
  AllDigits, print_uint-AllDigits, print_uint-ne-nil, digits_value-print_uint, digit-not-space,
  no_sign,
}
use veri_store.Text.Words.{skip_space-id}

-- The pieces that successive calls of `std::getline(in, piece, delimiter)` give.
unfoldable pub pieces : ℕ → Bytes → List Bytes
pieces delimiter [] = []
pieces delimiter (c ∷ bytes) =
    let rest = pieces delimiter bytes in if c == delimiter then [] ∷ rest else add_to_first c rest

abbrev number_part : Option (ℕ × Bytes) → Option ℕ
number_part none = none
number_part (some n) = some n.0

-- `std::stoull`, and `std::stoul` where a `long` has 64 bits; `none` is an exception.
unfoldable pub stoull : Bytes → Option ℕ
unfolding read_uint
stoull text = number_part (read_uint text)

-- The low byte of a number with a sign, if it is one of 32 bits.
abbrev int_byte : Bool → Bytes × Bytes → Option ℕ
int_byte negative ([], rest) = none
int_byte false (c ∷ digits, rest) =
    let n = digits_value 0 (c ∷ digits) in if ltb n (2 ^ 31) then some (n % 256) else none
int_byte true (c ∷ digits, rest) =
    let n = digits_value 0 (c ∷ digits) in
    if ltb (2 ^ 31) n then none else some ((256 - n % 256) % 256)

abbrev signed_byte : Bytes → Option ℕ
signed_byte [] = none
signed_byte (c ∷ bytes) =
    if c == 43
    then int_byte false (split_digits bytes)
    else if c == 45
    then int_byte true (split_digits bytes)
    else int_byte false (split_digits (c ∷ bytes))

-- `static_cast<std::uint8_t>(std::stoi(text))`
unfoldable pub stoi_byte : Bytes → Option ℕ
unfolding skip_space split_digits digits_value
stoi_byte text = signed_byte (skip_space text)

split_digits-all : (xs : Bytes) → AllDigits xs → split_digits xs ≡ (xs, [])
unfolding split_digits
split_digits-all [] a = refl
split_digits-all (x ∷ xs) (d, a) = ground (arith, split_digits-all xs a)

stoull-digits :
    (xs : Bytes) (n : ℕ)
    → xs ≢ []
    → AllDigits xs
    → digits_value 0 xs ≡ n
    → n < u64_mod
    → stoull xs ≡ some n
unfolding stoull
stoull-digits [] n ne a e lt = absurd (ne refl)
stoull-digits (x ∷ xs) n ne (d, a) e lt = ground (
  arith,
  skip_space-id (x ∷ xs) (digit-not-space x d),
  no_sign x d,
  split_digits-all (x ∷ xs) (d, a),
  e,
)

pub stoull-print : (n : ℕ) → n < u64_mod → stoull (print_uint n) ≡ some n
stoull-print n lt =
    stoull-digits (print_uint n) n (print_uint-ne-nil n) (print_uint-AllDigits n)
      (digits_value-print_uint n) lt

stoi_byte-digits :
    (xs : Bytes) (n : ℕ)
    → xs ≢ []
    → AllDigits xs
    → digits_value 0 xs ≡ n
    → n < 256
    → stoi_byte xs ≡ some n
unfolding stoi_byte
stoi_byte-digits [] n ne a e lt = absurd (ne refl)
stoi_byte-digits (x ∷ xs) n ne (d, a) e lt = ground (
  arith,
  skip_space-id (x ∷ xs) (digit-not-space x d),
  no_sign x d,
  split_digits-all (x ∷ xs) (d, a),
  e,
)

pub stoi_byte-print : (n : ℕ) → n < 256 → stoi_byte (print_uint n) ≡ some n
stoi_byte-print n lt =
    stoi_byte-digits (print_uint n) n (print_uint-ne-nil n) (print_uint-AllDigits n)
      (digits_value-print_uint n) lt

-- Bytes without this one.
abbrev pub Without : ℕ → Bytes → Type 0
Without d = All (λ c. c ≢ d)

pub print_uint-Without : (d n : ℕ) → is_digit d ≡ false → Without d (print_uint n)
print_uint-Without d n h =
    All-map (λ c. is_digit c ≡ true) (λ c. c ≢ d) (print_uint n) (λ c e f. cc)
      (print_uint-AllDigits n)

-- A piece with its delimiter, and a last piece without.
pub pieces-piece :
    (d : ℕ) (p rest : Bytes) → Without d p → pieces d (p ++ d ∷ rest) ≡ p ∷ pieces d rest
unfolding pieces
pieces-piece d [] rest a = ground arith
pieces-piece d (c ∷ p) rest (h, a) = ground (arith, pieces-piece d p rest a)

pub pieces-last : (d : ℕ) (p : Bytes) → p ≢ [] → Without d p → pieces d p ≡ p ∷ []
unfolding pieces
pieces-last d [] ne a = absurd (ne refl)
pieces-last d (c ∷ []) ne (h, a) = ground arith
pieces-last d (c ∷ e ∷ p) ne (h, a) = ground (arith, pieces-last d (e ∷ p) (λ x. cc) a)
