-- ===== src/Text/Words.antt =====
-- Words and spaces.
use veri_store.Common.{ℕ, ◌≡◌, ◌≢◌, refl, true, false, some, [], ◌∷◌, ◌++◌, Bytes, All, arith}
use veri_store.Text.{is_space, skip_space, split_word, read_word, newline}

-- No space in it, and not empty: what `>>` reads as one word.
abbrev pub IsWord : Bytes → Type 0
IsWord w = (w ≢ []) × All (λ c. is_space c ≡ false) w

-- Nothing that `>> std::ws` would drop.
abbrev pub NoLeadingSpace : Bytes → Type 0
NoLeadingSpace [] = Unit
NoLeadingSpace (c ∷ bytes) = is_space c ≡ false

abbrev pub OneLine : Bytes → Type 0
OneLine = All (λ c. c ≢ newline)

pub skip_space-id : (v : Bytes) → NoLeadingSpace v → skip_space v ≡ v
unfolding skip_space
skip_space-id [] h = refl
skip_space-id (c ∷ v) h = ground arith

split_word-append :
    (w : Bytes) (c : ℕ) (rest : Bytes)
    → All (λ c. is_space c ≡ false) w
    → is_space c ≡ true
    → split_word (w ++ c ∷ rest) ≡ (w, c ∷ rest)
unfolding split_word
split_word-append [] c rest a h = ground arith
split_word-append (x ∷ w) c rest (p, a) h = ground (arith, split_word-append w c rest a h)

pub read_word-append :
    (w : Bytes) (c : ℕ) (rest : Bytes)
    → IsWord w
    → is_space c ≡ true
    → read_word (w ++ c ∷ rest) ≡ some (w, c ∷ rest)
unfolding read_word
read_word-append [] c rest (ne, a) h = absurd (ne refl)
read_word-append (x ∷ w) c rest (ne, a) h = ground (arith, split_word-append w c rest a.1 h)

pub newline-space : (c : ℕ) → is_space c ≡ false → c ≢ newline
unfolding is_space
newline-space c h = ground arith
