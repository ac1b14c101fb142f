-- ===== src/Ditdah/ReadBack.antt =====
-- What `decode_with_params` (cw-skimmer/src/ditdah_decoder.c) reads in the signal of a keyed message.
use cw_skimmer.Prelude.{
  ℕ, zero, suc, ◌+◌, ◌*◌, ◌≤◌, ◌<◌, ◌≡◌, refl, ap, ◌∙◌, Bool, true, false, List, [], ◌∷◌, ◌++◌,
  append_assoc, arith, length, length-append, ltb, lt→ltb, ◌==◌, ◌⊎◌, inl, inr, if◌then◌else◌,
}
use cw_skimmer.Prelude.Bytes.{Bytes}
use cw_skimmer.Libc.Floats.{Floats}
use cw_skimmer.Ditdah.Morse.{morse_to_char, shown, is_code_char, morse_to_char-chars}
use cw_skimmer.Ditdah.Letters.{
  letter_size, Letters, put, ends_blank, end_letter, end_word, add_element, debounce_samples, norm,
  end_of_interval, read_samples,
}
use cw_skimmer.Ditdah.Keying.{
  Element, dit, dah, units, symbol, symbols, Letter, code, char_of, blank, text_of, last_of, gap,
  letter_marks, message_marks, keyed, AllShort,
}
use cw_skimmer.Ditdah.Marks.{AllPositive, fold_marks, read_samples-marks}

char_of-blank : (l : Letter) → (char_of l == b' ') ≡ false
char_of-blank l = split (morse_to_char (code l)) (morse_to_char-chars (code l))
  where
    split : (c : ℕ) → (c ≡ 0) ⊎ (is_code_char c ≡ true) → (shown c == b' ') ≡ false
    split c (inl none) = rw none refl
    split c (inr char) = ground arith

ends_blank-append : (s : Bytes) (c : ℕ) → ends_blank (s ++ c ∷ []) ≡ (c == b' ')
ends_blank-append [] c = refl
ends_blank-append (x ∷ []) c = refl
ends_blank-append (x ∷ y ∷ s) c = ends_blank-append (y ∷ s) c

put-room :
    (out_max : ℕ) (out : Bytes) (c : ℕ)
    → length out + 1 < out_max
    → put out_max out c ≡ out ++ c ∷ []
put-room out_max out c h = rw (lt→ltb (length out + 1) out_max h) refl

abbrev pub at : Bytes → Bytes → Letters
at letter out = record { letter = letter; out = out }

-- the end of a letter, and of a word
end_letter-code :
    (out_max : ℕ) (l : Letter) (out : Bytes)
    → length out + 1 < out_max
    → end_letter out_max (at (code l) out) ≡ at [] (out ++ char_of l ∷ [])
unfolding end_letter
end_letter-code out_max l out h = ap (at []) (put-room out_max out (char_of l) h)

end_word-char :
    (out_max : ℕ) (l : Letter) (out : Bytes)
    → length out + 2 < out_max
    → end_word out_max (at [] (out ++ char_of l ∷ [])) ≡ at [] (out ++ char_of l ∷ b' ' ∷ [])
unfolding end_word
end_word-char out_max l out h =
    let long : length (out ++ char_of l ∷ []) ≡ length out + 1 =
      length-append out (char_of l ∷ []) in
    rw
      (
        ends_blank-append out (char_of l),
        char_of-blank l,
        lt→ltb 0 (length (out ++ char_of l ∷ [])) (omega arith),
      )
      (ap (at []) (
        put-room out_max (out ++ char_of l ∷ []) b' ' (omega arith)
        ∙ append_assoc out (char_of l ∷ []) (b' ' ∷ [])))

-- With `d` samples to a dot, the length that the decoder takes for a dot is such that up to seven dots
-- compare with its boundaries, which are whole numbers of dots, as they do without rounding, and it takes
-- no dot for a glitch.
pub record IsExact {F : Type 0} (float : Floats F) (dot : F) (d : ℕ) : Type 0 where
  pub below :
      (m k : ℕ) → m ≤ 7 → k ≤ 5 → float.less (norm float dot (m * d)) (float.dec k 0) ≡ ltb m k
  pub over :
      (m k : ℕ) → m ≤ 7 → k ≤ 5 → float.less (float.dec k 0) (norm float dot (m * d)) ≡ ltb k m
  pub lasts : debounce_samples float dot < d

module _ {F : Type 0} (float : Floats F) (out_max : ℕ) (dot : F) (d : ℕ)
    (exact : IsExact float dot d) where
  longer : (m : ℕ) → 1 ≤ m → ltb (debounce_samples float dot) (m * d) ≡ true
  longer zero h = elim h [ ]
  longer (suc m) h = lt→ltb (debounce_samples float dot) (suc m * d) (omega (arith, exact.lasts))

  add_element-room :
      (is_dot : Bool) (letter out : Bytes)
      → length letter + 1 < letter_size
      → add_element is_dot (at letter out) ≡ at (letter ++ (if is_dot then b'.' else b'-') ∷ []) out
  unfolding add_element
  add_element-room is_dot letter out h = rw (lt→ltb (length letter + 1) letter_size h) refl

  read_element :
      (e : Element) (letter out : Bytes)
      → length letter + 1 < letter_size
      → end_of_interval float out_max dot true (units e * d) (at letter out)
        ≡ at (letter ++ symbol e ∷ []) out
  unfolding end_of_interval
  read_element dit letter out h =
      rw (longer 1 (omega arith), exact.below 1 2 (omega arith) (omega arith))
        (add_element-room true letter out h)
  read_element dah letter out h =
      rw (longer 3 (omega arith), exact.below 3 2 (omega arith) (omega arith))
        (add_element-room false letter out h)

  -- the gap inside a letter
  read_inner :
      (letter out : Bytes)
      → end_of_interval float out_max dot false (1 * d) (at letter out) ≡ at letter out
  unfolding end_of_interval
  read_inner letter out =
      rw (longer 1 (omega arith), exact.over 1 2 (omega arith) (omega arith)) refl

  -- the gap behind a letter, and behind a word
  read_gap :
      (ends_word : Bool) (l : Letter) (out : Bytes)
      → length out + 2 < out_max
      → end_of_interval float out_max dot false (gap d ends_word) (at (code l) out)
        ≡ at [] (out ++ char_of l ∷ blank ends_word)
  unfolding end_of_interval
  read_gap false l out h =
      rw
        (
          longer 3 (omega arith),
          exact.over 3 2 (omega arith) (omega arith),
          exact.over 3 5 (omega arith) (omega arith),
        )
        (end_letter-code out_max l out (omega arith))
  read_gap true l out h =
      rw
        (
          longer 7 (omega arith),
          exact.over 7 2 (omega arith) (omega arith),
          exact.over 7 5 (omega arith) (omega arith),
        )
        (ap (end_word out_max) (end_letter-code out_max l out (omega arith))
          ∙ end_word-char out_max l out h)

  -- the marks of one letter, the first of which ends an interval that leaves `before`
  read_letter :
      (k : ℕ) (st : Letters) (before out : Bytes) (g : ℕ) (e : Element) (es : List Element)
      (marks : List (ℕ × ℕ))
      → end_of_interval float out_max dot false k st ≡ at before out
      → length before + length es + 1 < letter_size
      → fold_marks float out_max dot k st (letter_marks d g e es ++ marks)
        ≡ fold_marks float out_max dot g (at (before ++ symbol e ∷ symbols es) out) marks
  read_letter k st before out g e [] marks eq h =
      ap (λ s. fold_marks float out_max dot g s marks)
        (ap (end_of_interval float out_max dot true (units e * d)) eq
          ∙ read_element e before out (omega arith))
  read_letter k st before out g e (f ∷ es) marks eq h =
      ap (λ s. fold_marks float out_max dot (1 * d) s (letter_marks d g f es ++ marks))
        (ap (end_of_interval float out_max dot true (units e * d)) eq
          ∙ read_element e before out (omega arith))
      ∙ read_letter (1 * d) (at (before ++ symbol e ∷ []) out) (before ++ symbol e ∷ []) out g f es
          marks (read_inner (before ++ symbol e ∷ []) out)
          (omega (arith, length-append before (symbol e ∷ [])))
      ∙ ap (λ s. fold_marks float out_max dot g (at s out) marks)
          (append_assoc before (symbol e ∷ []) (symbol f ∷ symbols es))

  pub length-text_of : (l : Letter) (ls : List Letter) → 1 ≤ length (text_of l ls)
  length-text_of l [] = omega arith
  length-text_of l (m ∷ ms) = omega arith

  -- the letters behind the first: what the last one leaves open, and the text before it
  read_message :
      (l : Letter) (ls : List Letter) (out : Bytes)
      → length out + length (text_of l ls) < out_max
      → AllShort ls
      → let st =
          fold_marks float out_max dot (gap d l.ends_word) (at (code l) out) (message_marks d ls) in
        (st.letter ≡ code (last_of l ls)) × ((end_letter out_max st).out ≡ out ++ text_of l ls)
  read_message l [] out h short =
      (refl, ap (λ (st : Letters). st.out) (end_letter-code out_max l out (omega arith)))
  read_message l (m ∷ ms) out h (here, short) =
      let out' : Bytes = out ++ char_of l ∷ blank l.ends_word in
      let room : length out + 2 < out_max =
        omega (arith, length-append (blank l.ends_word) (text_of m ms), length-text_of m ms) in
      let (open_code, text) =
        read_message m ms out'
          (omega (
            arith,
            length-append out (char_of l ∷ blank l.ends_word),
            length-append (blank l.ends_word) (text_of m ms),
          ))
          short in
      rw
        (read_letter (gap d l.ends_word) (at (code l) out) [] out' (gap d m.ends_word) m.first
          m.rest (message_marks d ms) (read_gap l.ends_word l out room) (omega arith))
        (open_code, text ∙ append_assoc out (char_of l ∷ blank l.ends_word) (text_of m ms))

  units_long : (e : Element) → 0 < units e * d
  units_long dit = omega (arith, exact.lasts)
  units_long dah = omega (arith, exact.lasts)

  letter_marks-AllPositive :
      (g : ℕ) (e : Element) (es : List Element) (marks : List (ℕ × ℕ))
      → 0 < g
      → AllPositive marks
      → AllPositive (letter_marks d g e es ++ marks)
  letter_marks-AllPositive g e [] marks h all = (units_long e, h, all)
  letter_marks-AllPositive g e (f ∷ es) marks h all =
      (units_long e, omega (arith, exact.lasts), letter_marks-AllPositive g f es marks h all)

  gap_long : (b : Bool) → 0 < gap d b
  gap_long true = omega (arith, exact.lasts)
  gap_long false = omega (arith, exact.lasts)

  pub message_marks-AllPositive : (ls : List Letter) → AllPositive (message_marks d ls)
  message_marks-AllPositive [] = tt
  message_marks-AllPositive (l ∷ ls) =
      letter_marks-AllPositive (gap d l.ends_word) l.first l.rest _ (gap_long l.ends_word)
        (message_marks-AllPositive ls)

  -- nothing happens at the end of the silence
  read_silence : (k : ℕ) → end_of_interval float out_max dot false k (at [] []) ≡ at [] []
  unfolding end_of_interval end_letter end_word
  read_silence k = ground arith

  -- the loop over the message, to the last letter
  pub read_all :
      (k : ℕ) (l : Letter) (ls : List Letter)
      → length (text_of l ls) < out_max
      → AllShort (l ∷ ls)
      → let st =
          read_samples float out_max dot false k
            (at [] [])
            (keyed (message_marks d (l ∷ ls)) ++ false ∷ []) in
        (st.letter ≡ code (last_of l ls)) × ((end_letter out_max st).out ≡ text_of l ls)
  read_all k l ls h (here, short) =
      rw
        (
          read_samples-marks float out_max dot k (at [] []) (message_marks d (l ∷ ls))
              (message_marks-AllPositive (l ∷ ls)),
          read_letter k (at [] []) [] [] (gap d l.ends_word) l.first l.rest (message_marks d ls)
              (read_silence k) (omega arith),
        )
        (read_message l ls [] (omega arith) short)
