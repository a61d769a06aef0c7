-- ===== src/Text/Lines.antt =====
-- Lines that were written are read back.
use veri_store.Common.{◌≡◌, refl, List, [], ◌∷◌, ◌++◌, Bytes, All, arith, append_assoc}
use veri_store.Text.{lines, newline}
use veri_store.Text.Words.{OneLine}

-- Each line with its newline.
unfoldable pub print_lines : List Bytes → Bytes
print_lines [] = []
print_lines (l ∷ ls) = l ++ newline ∷ print_lines ls

lines-line : (l rest : Bytes) → OneLine l → lines (l ++ newline ∷ rest) ≡ l ∷ lines rest
unfolding lines
lines-line [] rest a = refl
lines-line (c ∷ l) rest (h, a) = ground (arith, lines-line l rest a)

pub lines-print_lines : (ls : List Bytes) → All OneLine ls → lines (print_lines ls) ≡ ls
unfolding print_lines
lines-print_lines [] a = unfold lines in refl
lines-print_lines (l ∷ ls) (h, a) =
    rw (lines-line l (print_lines ls) h, lines-print_lines ls a) refl

pub print_lines-append :
    (ls ms : List Bytes) → print_lines (ls ++ ms) ≡ print_lines ls ++ print_lines ms
unfolding print_lines
print_lines-append [] ms = refl
print_lines-append (l ∷ ls) ms =
    rw (print_lines-append ls ms, append_assoc l (newline ∷ print_lines ls) (print_lines ms)) refl
