-- ===== src/Ditdah/Emit.antt =====
-- The letters that ditdah_decoder_take_new_letter (cw-skimmer/src/ditdah_decoder.c) gives of a text that grows.
use cw_skimmer.Prelude.{
  ℕ, suc, ◌+◌, ◌-◌, ◌≤◌, ◌<◌, ◌≡◌, refl, sym, ap, ◌∙◌, true, false, not, [], ◌∷◌, ◌++◌, arith,
  subst, length, length-append, take, take_of_le, get_or, ltb, lt→ltb, ◌==◌, if◌then◌else◌,
  append-nil, inl, inr, Bool-cases,
}
use cw_skimmer.Prelude.Bytes.{Bytes, AllTrue}
use cw_skimmer.Libc.Floats.{Floats}
use cw_skimmer.Ditdah.Bounds.{is_text_char}
use cw_skimmer.Ditdah.Audio.{Decoder}
use cw_skimmer.Ditdah.Decoder.{text_buf, emit_letter, take_new_letter}

-- the first character of what is new, behind a blank; 0 if there is none
abbrev pub newest : Bytes → ℕ
newest [] = 0
newest (c ∷ []) = if c == b' ' then 0 else c
newest (c ∷ c' ∷ rest) = if c == b' ' then c' else c

abbrev pub given : {F : Type 0} → Decoder F → ℕ → Decoder F
given d c = record d {
  last_emitted_plain = d.plain_text;
  new_letter = if c == 0 then d.new_letter else c;
}

get_or-append :
    (s : Bytes) (rest : Bytes) (k : ℕ) → get_or (s ++ rest) (length s + k) 0 ≡ get_or rest k 0
get_or-append [] rest k = ap (λ n. get_or rest n 0) (omega arith)
get_or-append (x ∷ s) rest k =
    ap (λ n. get_or (x ∷ (s ++ rest)) n 0) {x = suc (length s) + k} {y = suc (length s + k)}
      (omega arith)
    ∙ get_or-append s rest k

AllTrue-behind : (s rest : Bytes) → AllTrue is_text_char (s ++ rest) → AllTrue is_text_char rest
AllTrue-behind [] rest h = h
AllTrue-behind (x ∷ s) rest h = AllTrue-behind s rest h.1

text_char : (c : ℕ) → is_text_char c ≡ true → (c == 0) ≡ false
text_char c h = ground arith

module _ {F : Type 0} (float : Floats F) where
  -- on the two characters behind the text that was given
  emit_letter-given :
      (d : Decoder F) (c : ℕ)
      → length d.plain_text < text_buf
      → (c == 0) ≡ false
      → emit_letter float c d ≡ (not (c == 0), c, given d c)
  unfolding emit_letter
  emit_letter-given d c h n = rw (n, take_of_le 255 d.plain_text (omega arith)) refl

  -- the three ways of the call
  take_new_letter-none :
      (d : Decoder F)
      → d.plain_text ≡ d.last_emitted_plain
      → take_new_letter float d ≡ (false, 0, given d 0)
  unfolding take_new_letter
  take_new_letter-none d e =
      rw (not_less (length d.last_emitted_plain) (length d.plain_text) (omega (arith, ap length e)))
        (ap (λ s. (false, 0, record d { last_emitted_plain = s })) (sym e))
    where
      not_less : (m n : ℕ) → n ≤ m → ltb m n ≡ false
      not_less m n l = ground arith

  module _ (d : Decoder F) (c : ℕ) (rest : Bytes)
      (e : d.plain_text ≡ d.last_emitted_plain ++ c ∷ rest) where
    longer : length d.last_emitted_plain < length d.plain_text
    longer = omega (arith, ap length e, length-append d.last_emitted_plain (c ∷ rest))

    char_at :
        (k : ℕ) → get_or d.plain_text (length d.last_emitted_plain + k) 0 ≡ get_or (c ∷ rest) k 0
    char_at k =
        ap (λ s. get_or s (length d.last_emitted_plain + k) 0) e
        ∙ get_or-append d.last_emitted_plain (c ∷ rest) k

    first_char : get_or d.plain_text (length d.last_emitted_plain) 0 ≡ c
    first_char = ap (λ n. get_or d.plain_text n 0) (omega arith) ∙ char_at 0

    take_new_letter-blank :
        (c == b' ') ≡ true
        → take_new_letter float d
          ≡ emit_letter float
              (get_or (c ∷ rest) 1 0)
              (record d { last_emitted_plain = take (text_buf - 1) d.plain_text })
    unfolding take_new_letter
    take_new_letter-blank blank = rw (lt→ltb _ _ longer, first_char, blank, char_at 1) refl

    take_new_letter-letter : (c == b' ') ≡ false → take_new_letter float d ≡ emit_letter float c d
    unfolding take_new_letter
    take_new_letter-letter letter = rw (lt→ltb _ _ longer, first_char, letter) refl

  take_new_letter_new :
      (d : Decoder F) (rest : Bytes)
      → d.plain_text ≡ d.last_emitted_plain ++ rest
      → length d.plain_text < text_buf
      → AllTrue is_text_char rest
      → take_new_letter float d ≡ (not (newest rest == 0), newest rest, given d (newest rest))
  unfolding emit_letter
  take_new_letter_new d [] e h all = take_new_letter-none d (e ∙ append-nil d.last_emitted_plain)
  take_new_letter_new d (c ∷ []) e h all = elim (Bool-cases (c == b' ')) [
    | inl blank ↦
        rw (take_new_letter-blank d c [] e blank, blank)
          (ap (λ s. (false, 0, record d { last_emitted_plain = s }))
            (take_of_le 255 d.plain_text (omega arith)))
    | inr letter ↦
        rw letter
          (take_new_letter-letter d c [] e letter ∙ emit_letter-given d c h (text_char c all.0))
  ]
  take_new_letter_new d (c ∷ c' ∷ rest) e h all = elim (Bool-cases (c == b' ')) [
    | inl blank ↦ rw blank (
        take_new_letter-blank d c (c' ∷ rest) e blank
        ∙ emit_letter-given (record d { last_emitted_plain = take (text_buf - 1) d.plain_text }) c'
            h (text_char c' all.1.0))
    | inr letter ↦ rw letter (
        take_new_letter-letter d c (c' ∷ rest) e letter
        ∙ emit_letter-given d c h (text_char c all.0))
  ]

  -- Where the text has grown by `rest` since a letter was given last, the call gives the first character of
  -- `rest`, or the second where the first is a blank, and says that there is one; where `rest` is empty
  -- or a blank alone it gives none. A second call gives none: of what was new, only that one letter is
  -- ever given. Asked for is a text as the decoder leaves it.
  pub take_new_letter_lem :
      (d : Decoder F) (rest : Bytes)
      → d.plain_text ≡ d.last_emitted_plain ++ rest
      → length d.plain_text < text_buf
      → AllTrue is_text_char d.plain_text
      → let d' = given d (newest rest) in
        (take_new_letter float d ≡ (not (newest rest == 0), newest rest, d'))
        × (take_new_letter float d' ≡ (false, 0, d'))
  take_new_letter_lem d rest e h all = (
    take_new_letter_new d rest e h
        (AllTrue-behind d.last_emitted_plain rest (subst (AllTrue is_text_char) e all)),
    take_new_letter-none (given d (newest rest)) refl,
  )
