-- ===== src/Ditdah/Tests.antt =====
-- Runs of the functions of cw-skimmer/src/ditdah_decoder.c on concrete signals, with the floats counted in
-- hundredths.
use cw_skimmer.Prelude.{
  ℕ, ◌*◌, ◌/◌, ◌≤◌, ◌≡◌, refl, ap₂, ◌∙◌, Bool, true, false, List, [], ◌∷◌, ◌++◌, arith, replicate,
  take, ltb, map, if◌then◌else◌,
}
use cw_skimmer.Prelude.Bytes.{codes, str_eq}
use cw_skimmer.Libc.Sort.{sort_ints}
use cw_skimmer.Ditdah.Hundredths.{hundredths}
use cw_skimmer.Ditdah.{max_intervals}
use cw_skimmer.Ditdah.Morse.{
  morse_to_char, morse_table, find_code, morse_tree, walk, morse_to_char_lem,
}
use cw_skimmer.Ditdah.Signal.{intervals_of, end_interval, intervals_from}
use cw_skimmer.Ditdah.Runs.{runs_of, lengths, intervals_of_lem}
use cw_skimmer.Ditdah.Letters.{dot_length, dot_of_sorted, debounce_samples, decode_with_params}
use cw_skimmer.Ditdah.Bounds.{Decoded, decode_with_params_lem}
use cw_skimmer.Ditdah.Keying.{dit, dah, Letter, code, text_of, message_marks, keyed}
use cw_skimmer.Ditdah.ReadBack.{IsExact}
use cw_skimmer.Ditdah.Message.{ons, decode_with_params-text}

morse_to_char_lem_example : morse_to_char (codes "--.-") ≡ walk morse_tree (codes "--.-")
morse_to_char_lem_example = morse_to_char_lem (codes "--.-")

code_of_q : morse_to_char (codes "--.-") ≡ b'Q'
unfolding morse_to_char morse_table find_code str_eq
code_of_q = refl

abbrev signal : List Bool
signal = false ∷ true ∷ true ∷ true ∷ false ∷ true ∷ []

intervals_of_lem_example : intervals_of signal ≡ record {
  on = take max_intervals (lengths true (runs_of signal));
  off = take max_intervals (lengths false (runs_of signal));
}
intervals_of_lem_example = intervals_of_lem signal

intervals_of-signal : intervals_of signal ≡ record { on = 3 ∷ 1 ∷ []; off = 1 ∷ 1 ∷ [] }
unfolding intervals_of intervals_from end_interval
intervals_of-signal = refl

-- "A B", with ten samples to a dot
abbrev a : Letter
a = record { first = dit; rest = dah ∷ []; ends_word = true }

abbrev b : Letter
b = record { first = dah; rest = dit ∷ dit ∷ dit ∷ []; ends_word = false }

abbrev power : List ℕ
power =
    map (λ on. if on then 100 else 0) (replicate 5 false ++ keyed (message_marks 10 (a ∷ b ∷ [])))

decode_with_params_lem_example : Decoded 8 4 (decode_with_params hundredths power 50 8 4)
decode_with_params_lem_example =
    decode_with_params_lem hundredths power 50 8 4 (omega arith) (omega arith)

abbrev lens : List ℕ
lens = take max_intervals (ons (message_marks 10 (a ∷ b ∷ [])))

lens-dot : dot_length hundredths lens ≡ 1_000
unfolding dot_length dot_of_sorted sort_ints
lens-dot = refl

ltb-hundred : (m k : ℕ) → ltb (100 * m) (100 * k) ≡ ltb m k
ltb-hundred m k = ground arith

seven : (m : ℕ) → m ≤ 7 → 100 * (100 * (m * 10)) / 1_000 ≡ 100 * m
seven m h = ground arith

five : (k : ℕ) → k ≤ 5 → 100 * k / 1 ≡ 100 * k
five k h = ground arith

thousand-IsExact : IsExact hundredths 1_000 10
unfolding debounce_samples
thousand-IsExact = record {
  below = λ m k h h'. ap₂ (λ x y. ltb x y) (seven m h) (five k h') ∙ ltb-hundred m k;
  over = λ m k h h'. ap₂ (λ x y. ltb x y) (five k h') (seven m h) ∙ ltb-hundred k m;
  lasts = ground arith;
}

lens-IsExact : IsExact hundredths (dot_length hundredths lens) 10
lens-IsExact = rw lens-dot thousand-IsExact

decode_with_params-text_example :
    decode_with_params hundredths power 50 256 32 ≡ (true, text_of a (b ∷ []), take 31 (code b))
decode_with_params-text_example =
    decode_with_params-text hundredths power 50 10 4 256 32 a (b ∷ []) refl refl lens-IsExact
      (ground arith) (ground arith)

text_of_message : text_of a (b ∷ []) ≡ codes "A B"
unfolding morse_to_char morse_table find_code str_eq
text_of_message = refl
