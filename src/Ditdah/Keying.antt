-- ===== src/Ditdah/Keying.antt =====
-- Morse code as it is keyed, and the signal that it makes: the description against which
-- `decode_with_params` (cw-skimmer/src/ditdah_decoder.c) is read.
use cw_skimmer.Prelude.{ℕ, ◌*◌, ◌<◌, Bool, true, false, List, [], ◌∷◌, ◌++◌, length, replicate}
use cw_skimmer.Prelude.Bytes.{Bytes}
use cw_skimmer.Ditdah.Morse.{morse_to_char, shown}

pub data Element : Type 0 where
  dit dah : Element

-- how many dots an element lasts
abbrev pub units : Element → ℕ
units dit = 1
units dah = 3

abbrev pub symbol : Element → ℕ
symbol dit = b'.'
symbol dah = b'-'

abbrev pub symbols : List Element → Bytes
symbols [] = []
symbols (e ∷ es) = symbol e ∷ symbols es

-- A letter has an element at least; a word may end behind it.
pub record Letter : Type 0 where
  pub first : Element
  pub rest : List Element
  pub ends_word : Bool

abbrev pub code : Letter → Bytes
code l = symbol l.first ∷ symbols l.rest

abbrev pub char_of : Letter → ℕ
char_of l = shown (morse_to_char (code l))

-- what follows a letter that is not the last
abbrev pub blank : Bool → Bytes
blank true = b' ' ∷ []
blank false = []

-- the text of a message
abbrev pub text_of : Letter → List Letter → Bytes
text_of l [] = char_of l ∷ []
text_of l (m ∷ ms) = char_of l ∷ (blank l.ends_word ++ text_of m ms)

abbrev pub last_of : Letter → List Letter → Letter
last_of l [] = l
last_of l (m ∷ ms) = last_of m ms

-- the elements and gaps in samples, with `d` samples to a dot: each mark is on for the first number, and
-- off for the second
abbrev pub gap : ℕ → Bool → ℕ
gap d true = 7 * d
gap d false = 3 * d

abbrev pub letter_marks : ℕ → ℕ → Element → List Element → List (ℕ × ℕ)
letter_marks d g e [] = (units e * d, g) ∷ []
letter_marks d g e (f ∷ fs) = (units e * d, 1 * d) ∷ letter_marks d g f fs

abbrev pub marks_of : ℕ → Letter → List (ℕ × ℕ)
marks_of d l = letter_marks d (gap d l.ends_word) l.first l.rest

abbrev pub message_marks : ℕ → List Letter → List (ℕ × ℕ)
message_marks d [] = []
message_marks d (l ∷ ls) = marks_of d l ++ message_marks d ls

abbrev pub keyed : List (ℕ × ℕ) → List Bool
keyed [] = []
keyed ((on, off) ∷ marks) = replicate on true ++ (replicate off false ++ keyed marks)

-- no letter has more elements than a code of the decoder can hold
abbrev pub AllShort : List Letter → Type 0
AllShort [] = Unit
AllShort (l ∷ ls) = (length l.rest < 15) × AllShort ls
