-- ===== src/Text/Decimal.antt =====
-- A printed number is read back.
use mathlib.Core.List.{concat-ne-nil}
use veri_store.Common.{
  ℕ, zero, suc, ◌+◌, ◌-◌, ◌*◌, ◌/◌, ◌%◌, ◌<◌, ◌≤◌, ◌≡◌, ◌≢◌, refl, ◌∙◌, sym, ap, true, false, some,
  [], ◌∷◌, ◌++◌, Bytes, ltb, if◌then◌else◌, All, All-append, arith, Bool-cases, if_intro, inl, inr,
  ltb→lt,
}
use veri_store.Text.Words.{NoLeadingSpace, skip_space-id}
use veri_store.Text.{
  is_space, skip_space, is_digit, split_digits, digits_value, u64_mod, read_uint, digits_of,
  print_uint,
}

abbrev pub AllDigits : Bytes → Type 0
AllDigits = All (λ c. is_digit c ≡ true)

digits_value-append :
    (n c : ℕ) (xs : Bytes) → digits_value n (xs ++ c ∷ []) ≡ digits_value n xs * 10 + (c - 48)
unfolding digits_value
digits_value-append n c [] = refl
digits_value-append n c (x ∷ xs) = digits_value-append (n * 10 + (x - 48)) c xs

digits_of-AllDigits : (fuel n : ℕ) → AllDigits (digits_of fuel n)
unfolding digits_of is_digit
digits_of-AllDigits zero n = tt
digits_of-AllDigits (suc fuel) n =
    All-append _ (if ltb n 10 then [] else digits_of fuel (n / 10)) ((48 + n % 10) ∷ [])
      (if_intro AllDigits (ltb n 10) (λ _. tt) (λ _. digits_of-AllDigits fuel (n / 10)))
      (ground arith, tt)

digits_value-digits_of : (fuel n : ℕ) → n < fuel → digits_value 0 (digits_of fuel n) ≡ n
unfolding digits_of
digits_value-digits_of zero n h = absurd (omega arith)
digits_value-digits_of (suc fuel) n h = elim (Bool-cases (ltb n 10)) [
  | inl lt ↦ rw lt (
      digits_value-append 0 (48 + n % 10) [] ∙ unfold digits_value in omega (arith, ltb→lt n 10 lt))
  | inr ge ↦
      let big : 10 ≤ n = ground arith in
      rw ge (
        digits_value-append 0 (48 + n % 10) (digits_of fuel (n / 10))
        ∙ omega (arith, digits_value-digits_of fuel (n / 10) (omega arith)))
]

digits_of-ne-nil : (fuel n : ℕ) → n < fuel → digits_of fuel n ≢ []
unfolding digits_of
digits_of-ne-nil zero n h = absurd (omega arith)
digits_of-ne-nil (suc fuel) n h =
    concat-ne-nil (48 + n % 10) (if ltb n 10 then [] else digits_of fuel (n / 10))

split_digits-append :
    (xs : Bytes) (c : ℕ) (rest : Bytes)
    → AllDigits xs
    → is_digit c ≡ false
    → split_digits (xs ++ c ∷ rest) ≡ (xs, c ∷ rest)
unfolding split_digits
split_digits-append [] c rest a h = ground arith
split_digits-append (x ∷ xs) c rest (d, a) h = ground (arith, split_digits-append xs c rest a h)

pub digit-not-space : (c : ℕ) → is_digit c ≡ true → is_space c ≡ false
unfolding is_digit is_space
digit-not-space c h = ground arith

skip_tab : (bytes : Bytes) → NoLeadingSpace bytes → skip_space (9 ∷ bytes) ≡ bytes
unfolding is_space
skip_tab bytes h = unfold skip_space in skip_space-id bytes h

pub no_sign : (c : ℕ) → is_digit c ≡ true → (c ≢ 43) × (c ≢ 45)
unfolding is_digit
no_sign c h = ground arith

-- A number that digits spell is read behind a tab, up to a byte that is no digit.
read_uint-digits :
    (xs : Bytes) (n c : ℕ) (rest : Bytes)
    → xs ≢ []
    → AllDigits xs
    → digits_value 0 xs ≡ n
    → n < u64_mod
    → is_digit c ≡ false
    → read_uint (9 ∷ (xs ++ c ∷ rest)) ≡ some (n, c ∷ rest)
unfolding read_uint
read_uint-digits [] n c rest ne a e lt h = absurd (ne refl)
read_uint-digits (x ∷ xs) n c rest ne (d, a) e lt h = ground (
  arith,
  skip_tab (x ∷ (xs ++ c ∷ rest)) (digit-not-space x d),
  no_sign x d,
  split_digits-append (x ∷ xs) c rest (d, a) h,
  e,
)

-- A printed 64-bit number is read back.
pub read_uint-print :
    (n c : ℕ) (rest : Bytes)
    → n < u64_mod
    → is_digit c ≡ false
    → read_uint (9 ∷ (print_uint n ++ c ∷ rest)) ≡ some (n, c ∷ rest)
unfolding print_uint
read_uint-print n c rest lt h =
    read_uint-digits (digits_of (n + 1) n) n c rest (digits_of-ne-nil (n + 1) n (omega arith))
      (digits_of-AllDigits (n + 1) n) (digits_value-digits_of (n + 1) n (omega arith)) lt h

pub print_uint-AllDigits : (n : ℕ) → AllDigits (print_uint n)
unfolding print_uint
print_uint-AllDigits n = digits_of-AllDigits (n + 1) n

pub print_uint-ne-nil : (n : ℕ) → print_uint n ≢ []
unfolding print_uint
print_uint-ne-nil n = digits_of-ne-nil (n + 1) n (omega arith)

pub digits_value-print_uint : (n : ℕ) → digits_value 0 (print_uint n) ≡ n
unfolding print_uint
digits_value-print_uint n = digits_value-digits_of (n + 1) n (omega arith)

-- Two numbers that are printed alike are the same.
pub print_uint-injective : (m n : ℕ) → print_uint m ≡ print_uint n → m ≡ n
print_uint-injective m n e =
    sym (digits_value-print_uint m) ∙ (ap (digits_value 0) e ∙ digits_value-print_uint n)
