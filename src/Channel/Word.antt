-- ===== src/Channel/Word.antt =====
-- The word that cw_decoder_get_callsign (cw-skimmer/src/cw_decoder.c) gives.
use cw_skimmer.Prelude.{
  ℕ, suc, ◌≡◌, refl, sym, ap, ◌∙◌, subst, inl, inr, Bool, true, false, [], ◌∷◌, ◌++◌, arith, length,
  take, ◌==◌, Bool-cases, if◌then◌else◌,
}
use cw_skimmer.Prelude.Bytes.{Bytes, AllTrue}
use cw_skimmer.Libc.Floats.{Floats}
use cw_skimmer.Libc.Search.{before_chr}
use cw_skimmer.Ditdah.Decoder.{is_empty, clear_dirty}
use cw_skimmer.Channel.{ChannelDecoder, skip_spaces, copy_word, on_word_gap, get_callsign}

-- no blank, and a blank
abbrev pub solid : ℕ → Bool
solid c = if c == b' ' then false else true

abbrev pub is_space : ℕ → Bool
is_space c = c == b' '

-- how the text behind a word goes on
abbrev pub AtSpace : Bytes → Type 0
AtSpace [] = Unit
AtSpace (c ∷ s) = is_space c ≡ true

-- `word` is the first of the text.
pub record IsFirstWord (text word : Bytes) : Type 0 where
  pub spaces : Bytes
  pub rest : Bytes
  pub parts : text ≡ spaces ++ (word ++ rest)
  pub all_spaces : AllTrue is_space spaces
  pub all_solid : AllTrue solid word
  pub at_space : AtSpace rest
  -- a text without a word is blank
  pub none_only : is_empty word ≡ true → rest ≡ []

solid_char : (c : ℕ) → (c == b' ') ≡ false → solid c ≡ true
solid_char c h = rw h refl

before_chr-word :
    (s : Bytes)
    → (rest : Bytes) × (s ≡ before_chr s b' ' ++ rest)
      × AllTrue solid (before_chr s b' ')
      × AtSpace rest
unfolding before_chr
before_chr-word [] = ([], refl, tt, tt)
before_chr-word (c ∷ s) = elim (Bool-cases (c == b' ')) [
  | inl space ↦ rw space (c ∷ s, refl, tt, space)
  | inr letter ↦
      let (rest, e, all, at) = before_chr-word s in
      rw letter (rest, ap (◌∷◌ c) e, (solid_char c letter, all), at)
]

skip_spaces-rest :
    (s : Bytes) → (spaces : Bytes) × (s ≡ spaces ++ skip_spaces s) × AllTrue is_space spaces
unfolding skip_spaces
skip_spaces-rest [] = ([], refl, tt)
skip_spaces-rest (c ∷ s) = elim (Bool-cases (c == b' ')) [
  | inl space ↦
      let (spaces, e, all) = skip_spaces-rest s in rw space (c ∷ spaces, ap (◌∷◌ c) e, (space, all))
  | inr letter ↦ rw letter ([], refl, tt)
]

-- where no word is left, nothing is
skip_spaces-word :
    (s : Bytes) → is_empty (before_chr (skip_spaces s) b' ') ≡ true → skip_spaces s ≡ []
unfolding skip_spaces before_chr
skip_spaces-word [] h = refl
skip_spaces-word (c ∷ s) h = elim (Bool-cases (c == b' ')) [
  | inl space ↦ rw space (skip_spaces-word s (blank_step c s space h))
  | inr letter ↦ absurd (letter_step c s letter h)
]
  where
    blank_step :
        (c : ℕ) (s : Bytes)
        → (c == b' ') ≡ true
        → is_empty (before_chr (skip_spaces (c ∷ s)) b' ') ≡ true
        → is_empty (before_chr (skip_spaces s) b' ') ≡ true
    blank_step c s space h =
        subst (λ b. is_empty (before_chr (if b then skip_spaces s else c ∷ s) b' ') ≡ true) space h

    letter_step :
        (c : ℕ) (s : Bytes)
        → (c == b' ') ≡ false
        → is_empty (before_chr (skip_spaces (c ∷ s)) b' ') ≡ true
        → ⊥
    letter_step c s letter h =
        let h' : is_empty (before_chr (c ∷ s) b' ') ≡ true =
          subst (λ b. is_empty (before_chr (if b then skip_spaces s else c ∷ s) b' ') ≡ true) letter
            h in
        let h'' : false ≡ true =
          subst (λ b. is_empty (if b then [] else c ∷ before_chr s b' ') ≡ true) letter h' in
        ground (arith, h'')

-- the first word of a text
abbrev pub first_word : Bytes → Bytes
first_word s = before_chr (skip_spaces s) b' '

first_word-IsFirstWord : (s : Bytes) → IsFirstWord s (first_word s)
first_word-IsFirstWord s =
    let (spaces, e, all) = skip_spaces-rest s in
    let (rest, e', all', at) = before_chr-word (skip_spaces s) in
    record {
      spaces = spaces;
      rest = rest;
      parts = e ∙ ap (◌++◌ spaces) e';
      all_spaces = all;
      all_solid = all';
      at_space = at;
      none_only = λ none_left. behind (first_word s) rest (sym e' ∙ skip_spaces-word s none_left);
    }
  where
    behind : (word rest : Bytes) → word ++ rest ≡ [] → rest ≡ []
    behind [] rest h = h
    behind (c ∷ word) rest h = absurd (omega (arith, ap length h))

is_empty-take : (n : ℕ) (s : Bytes) → is_empty (take (suc n) s) ≡ is_empty s
is_empty-take n [] = refl
is_empty-take n (c ∷ s) = refl

-- Behind the end of a word, the call gives the first word of the decoded text, cut to 15 bytes, and says that
-- it is valid exactly if the text is not blank; the text itself stays. A second call gives no callsign,
-- until the next end of a word.
pub get_callsign_lem :
    {F : Type 0} (float : Floats F) (c : ChannelDecoder F)
    → (word : Bytes) × IsFirstWord c.ditdah.plain_text word
      × (let (result, c') = get_callsign float (on_word_gap float c) in
          (result.callsign ≡ take 15 word)
          × (result.valid ≡ (if is_empty word then false else true))
          × (c'.ditdah.plain_text ≡ c.ditdah.plain_text)
          × ((get_callsign float c').0.valid ≡ false)
          × ((get_callsign float c').0.callsign ≡ [])
          × ((get_callsign float c').1 ≡ c'))
unfolding get_callsign on_word_gap copy_word clear_dirty
get_callsign_lem float c = (
  first_word c.ditdah.plain_text,
  first_word-IsFirstWord c.ditdah.plain_text,
  (
    refl,
    ap (λ b. if b then false else true) (is_empty-take 14 (first_word c.ditdah.plain_text)),
    refl,
    refl,
    refl,
    refl,
  ),
)
