-- ===== src/Ditdah/Morse.antt =====
-- `morse_to_char` of cw-skimmer/src/ditdah_decoder.c, against the tree of the Morse code.
use cw_skimmer.Prelude.{
  ℕ, ◌≡◌, ◌≢◌, ◌⊎◌, refl, ap, ◌∙◌, Bool, true, ◌||◌, List, [], ◌∷◌, arith, ◌==◌, ℕ_discrete, inl,
  inr, Bool-cases, if◌then◌else◌,
}
use cw_skimmer.Prelude.Bytes.{Bytes, codes, str_eq}
use cw_skimmer.Libc.Chars.{within}

abbrev pub Table : Type 0
Table = List (Bytes × ℕ)

-- the comparisons, in their order
unfoldable pub morse_table : Table
morse_table =
    (codes ".-", b'A')
    ∷ (codes "-...", b'B')
    ∷ (codes "-.-.", b'C')
    ∷ (codes "-..", b'D')
    ∷ (codes ".", b'E')
    ∷ (codes "..-.", b'F')
    ∷ (codes "--.", b'G')
    ∷ (codes "....", b'H')
    ∷ (codes "..", b'I')
    ∷ (codes ".---", b'J')
    ∷ (codes "-.-", b'K')
    ∷ (codes ".-..", b'L')
    ∷ (codes "--", b'M')
    ∷ (codes "-.", b'N')
    ∷ (codes "---", b'O')
    ∷ (codes ".--.", b'P')
    ∷ (codes "--.-", b'Q')
    ∷ (codes ".-.", b'R')
    ∷ (codes "...", b'S')
    ∷ (codes "-", b'T')
    ∷ (codes "..-", b'U')
    ∷ (codes "...-", b'V')
    ∷ (codes ".--", b'W')
    ∷ (codes "-..-", b'X')
    ∷ (codes "-.--", b'Y')
    ∷ (codes "--..", b'Z')
    ∷ (codes ".----", b'1')
    ∷ (codes "..---", b'2')
    ∷ (codes "...--", b'3')
    ∷ (codes "....-", b'4')
    ∷ (codes ".....", b'5')
    ∷ (codes "-....", b'6')
    ∷ (codes "--...", b'7')
    ∷ (codes "---..", b'8')
    ∷ (codes "----.", b'9')
    ∷ (codes "-----", b'0')
    ∷ []

-- 0 where no comparison fits
unfoldable pub find_code : Table → Bytes → ℕ
find_code [] s = 0
find_code ((code, c) ∷ table) s = let rest = find_code table s in if str_eq s code then c else rest

-- `morse_to_char`, of a string that is not NULL
unfoldable pub morse_to_char : Bytes → ℕ
morse_to_char s = find_code morse_table s

-- A tree of codes: the character of the code that leads to a node, or 0, and where a dot and where a
-- dash lead.
pub data Tree : Type 0 where
  leaf : Tree
  node : ℕ → Tree → Tree → Tree

abbrev letter : ℕ → Tree
letter c = node c leaf leaf

-- The International Morse code, the letters and the digits.
unfoldable pub morse_tree : Tree
morse_tree =
    node 0
      (node b'E'
        (node b'I'
          (node b'S' (node b'H' (letter b'5') (letter b'4')) (node b'V' leaf (letter b'3')))
          (node b'U' (letter b'F') (node 0 leaf (letter b'2'))))
        (node b'A' (node b'R' (letter b'L') leaf)
          (node b'W' (letter b'P') (node b'J' leaf (letter b'1')))))
      (node b'T'
        (node b'N' (node b'D' (node b'B' (letter b'6') leaf) (letter b'X'))
          (node b'K' (letter b'C') (letter b'Y')))
        (node b'M' (node b'G' (node b'Z' (letter b'7') leaf) (letter b'Q'))
          (node b'O' (node 0 (letter b'8') leaf) (node 0 (letter b'9') (letter b'0')))))

-- the character that a string of dots and dashes leads to; 0 if it leads nowhere
unfoldable pub walk : Tree → Bytes → ℕ
walk leaf s = 0
walk (node c dot dash) [] = c
walk (node c dot dash) (b ∷ s) =
    let by_dot = walk dot s in
    let by_dash = walk dash s in if b == b'.' then by_dot else if b == b'-' then by_dash else 0

-- the codes of a table that start with a byte, without it
abbrev strip : ℕ → Table → Table
strip b [] = []
strip b (([], c) ∷ table) = strip b table
strip b ((d ∷ code, c) ∷ table) =
    let rest = strip b table in if b == d then (code, c) ∷ rest else rest

find_code-strip :
    (b : ℕ) (s : Bytes) (table : Table) → find_code table (b ∷ s) ≡ find_code (strip b table) s
unfolding find_code str_eq
find_code-strip b s [] = refl
find_code-strip b s (([], c) ∷ table) = find_code-strip b s table
find_code-strip b s ((d ∷ code, c) ∷ table) = elim (Bool-cases (b == d)) [
  | inl same ↦ rw same (ap (λ rest. if str_eq s code then c else rest) (find_code-strip b s table))
  | inr other ↦ rw other (find_code-strip b s table)
]

-- A table and a tree say the same: for the empty code, behind a dot and behind a dash, and no code of the
-- table starts otherwise.
abbrev DotsDashes : Table → Type 0
DotsDashes [] = Unit
DotsDashes (([], c) ∷ table) = DotsDashes table
DotsDashes ((d ∷ code, c) ∷ table) = ((d == b'.' || d == b'-') ≡ true) × DotsDashes table

abbrev Agrees : Tree → Table → Type 0
Agrees leaf table = table ≡ []
Agrees (node c dot dash) table =
    (find_code table [] ≡ c)
    × DotsDashes table
    × Agrees dot (strip b'.' table)
    × Agrees dash (strip b'-' table)

strip_other : (b : ℕ) (table : Table) → DotsDashes table → b ≢ b'.' → b ≢ b'-' → strip b table ≡ []
strip_other b [] h n n' = refl
strip_other b (([], c) ∷ table) h n n' = strip_other b table h n n'
strip_other b ((d ∷ code, c) ∷ table) (here, h) n n' = ground (arith, strip_other b table h n n')

find_code-walk :
    (tree : Tree) (table : Table) (s : Bytes) → Agrees tree table → find_code table s ≡ walk tree s
unfolding find_code walk
find_code-walk leaf table s e = rw e
find_code-walk (node c dot dash) table [] (e, h, hd, hD) = e
find_code-walk (node c dot dash) table (b ∷ s) (e, h, hd, hD) =
    find_code-strip b s table ∙ elim (ℕ_discrete b b'.') [
      | yes is_dot ↦ rw is_dot (find_code-walk dot (strip b'.' table) s hd)
      | no not_dot ↦ elim (ℕ_discrete b b'-') [
        | yes is_dash ↦ rw is_dash (find_code-walk dash (strip b'-' table) s hD)
        | no not_dash ↦ rw (strip_other b table h not_dot not_dash) (ground arith)
      ]
    ]

-- The chain of comparisons reads the International Morse code: on every string it gives the letter or the
-- digit that the string's dots and dashes lead to in the tree of the code, and 0 for every other string.
pub morse_to_char_lem : (s : Bytes) → morse_to_char s ≡ walk morse_tree s
unfolding morse_to_char morse_table morse_tree find_code str_eq
morse_to_char_lem s = find_code-walk morse_tree morse_table s (ground arith)

-- what is written for a code: a question mark where it is none
abbrev pub shown : ℕ → ℕ
shown c = if c == 0 then b'?' else c

-- capitals and digits
abbrev pub is_code_char : ℕ → Bool
is_code_char c = within b'A' b'Z' c || within b'0' b'9' c

abbrev AllChars : Table → Type 0
AllChars [] = Unit
AllChars ((code, c) ∷ table) = (is_code_char c ≡ true) × AllChars table

find_code-chars :
    (table : Table) (s : Bytes)
    → AllChars table
    → (find_code table s ≡ 0) ⊎ (is_code_char (find_code table s) ≡ true)
unfolding find_code
find_code-chars [] s h = inl refl
find_code-chars ((code, c) ∷ table) s (here, h) = elim (Bool-cases (str_eq s code)) [
  | inl same ↦ rw same (inr here)
  | inr other ↦ rw other (find_code-chars table s h)
]

pub morse_to_char-chars :
    (s : Bytes) → (morse_to_char s ≡ 0) ⊎ (is_code_char (morse_to_char s) ≡ true)
unfolding morse_to_char morse_table
morse_to_char-chars s = find_code-chars morse_table s (ground arith)
