-- ===== src/Text.antt =====
-- What the code uses of the standard text streams: `std::getline`, `operator>>` for a word, a 64-bit
-- number and a character, `std::ws`, and the printing of a number. A stream is the list of bytes that
-- it has still to read; the locale is "C".
pub mod Decimal
pub mod Words
pub mod Lines
pub mod Numbers
use veri_store.Common.{
  ℕ, zero, suc, ◌+◌, ◌-◌, ◌*◌, ◌/◌, ◌%◌, ◌^◌, Bool, true, false, not, ◌&&◌, ◌||◌, Option, none,
  some, List, [], ◌∷◌, ◌++◌, Bytes, length, ltb, leb, ◌==◌, if◌then◌else◌,
}

abbrev pub newline : ℕ
newline = 10

abbrev pub tab : ℕ
tab = 9

-- The lines that successive calls of `std::getline(in, line)` give. A last line needs no newline.
abbrev pub add_to_first : ℕ → List Bytes → List Bytes
add_to_first c [] = (c ∷ []) ∷ []
add_to_first c (l ∷ ls) = (c ∷ l) ∷ ls

unfoldable pub lines : Bytes → List Bytes
lines [] = []
lines (c ∷ bytes) =
    let rest = lines bytes in if c == newline then [] ∷ rest else add_to_first c rest

-- `std::isspace`
unfoldable pub is_space : ℕ → Bool
is_space c = (leb 9 c && leb c 13) || c == 32

-- `>> std::ws`
unfoldable pub skip_space : Bytes → Bytes
skip_space [] = []
skip_space (c ∷ bytes) = let rest = skip_space bytes in if is_space c then rest else c ∷ bytes

-- The bytes before the first space, and the rest.
unfoldable pub split_word : Bytes → Bytes × Bytes
split_word [] = ([], [])
split_word (c ∷ bytes) =
    let rest = split_word bytes in if is_space c then ([], c ∷ bytes) else (c ∷ rest.0, rest.1)

abbrev if_any : Bytes × Bytes → Option (Bytes × Bytes)
if_any ([], rest) = none
if_any (c ∷ word, rest) = some (c ∷ word, rest)

-- `>> word`: fails where no word is left.
unfoldable pub read_word : Bytes → Option (Bytes × Bytes)
unfolding skip_space split_word
read_word bytes = if_any (split_word (skip_space bytes))

unfoldable pub is_digit : ℕ → Bool
is_digit c = leb 48 c && leb c 57

unfoldable pub split_digits : Bytes → Bytes × Bytes
unfolding is_digit
split_digits [] = ([], [])
split_digits (c ∷ bytes) =
    let rest = split_digits bytes in if is_digit c then (c ∷ rest.0, rest.1) else ([], c ∷ bytes)

-- The number that digits spell behind `n`.
unfoldable pub digits_value : ℕ → Bytes → ℕ
digits_value n [] = n
digits_value n (c ∷ digits) = digits_value (n * 10 + (c - 48)) digits

abbrev pub u64_mod : ℕ
u64_mod = 2 ^ 64

-- A number without sign: no digit and a number past 64 bits are failures.
abbrev number_of : Bool → Bytes × Bytes → Option (ℕ × Bytes)
number_of negative ([], rest) = none
number_of negative (c ∷ digits, rest) =
    let n = digits_value 0 (c ∷ digits) in
    if ltb n u64_mod then some ((if negative then (u64_mod - n) % u64_mod else n), rest) else none

-- A sign may stand first; a minus negates modulo 2^64.
abbrev signed_number : Bytes → Option (ℕ × Bytes)
signed_number [] = none
signed_number (c ∷ bytes) =
    if c == 43
    then number_of false (split_digits bytes)
    else if c == 45
    then number_of true (split_digits bytes)
    else number_of false (split_digits (c ∷ bytes))

-- `>> number` for a `uint64_t`
unfoldable pub read_uint : Bytes → Option (ℕ × Bytes)
unfolding skip_space split_digits digits_value
read_uint bytes = signed_number (skip_space bytes)

abbrev first_char : Bytes → Option (ℕ × Bytes)
first_char [] = none
first_char (c ∷ rest) = some (c, rest)

-- `>> type` for a `char`
unfoldable pub read_char : Bytes → Option (ℕ × Bytes)
unfolding skip_space
read_char bytes = first_char (skip_space bytes)

-- The decimal digits of a number, on fuel that bounds the number.
unfoldable pub digits_of : ℕ → ℕ → Bytes
digits_of zero n = []
digits_of (suc fuel) n =
    let high = digits_of fuel (n / 10) in (if ltb n 10 then [] else high) ++ (48 + n % 10) ∷ []

-- `out << number`
unfoldable pub print_uint : ℕ → Bytes
unfolding digits_of
print_uint n = digits_of (n + 1) n
