-- ===== src/Ditdah/Letters.antt =====
-- `decode_with_params` of cw-skimmer/src/ditdah_decoder.c: from a power signal and a threshold to text.
use cw_skimmer.Prelude.{
  ℕ, ◌+◌, ◌-◌, ◌/◌, Bool, true, false, not, ◌&&◌, List, [], ◌∷◌, ◌++◌, length, take, get_or, ltb,
  ◌==◌, max, if◌then◌else◌,
}
use cw_skimmer.Prelude.Int.{pos, pos_part}
use cw_skimmer.Prelude.Bytes.{Bytes}
use cw_skimmer.Libc.Floats.{Floats}
use cw_skimmer.Libc.Sort.{sort_ints}
use cw_skimmer.Ditdah.Morse.{morse_to_char, shown}
use cw_skimmer.Ditdah.Signal.{same, get_raw_intervals, above}

-- sizeof current_letter
abbrev pub letter_size : ℕ
letter_size = 16

-- `current_letter` up to `letter_len`, and `out` up to `out_len`
pub record Letters : Type 0 where
  pub letter : Bytes
  pub out : Bytes

abbrev pub ends_blank : Bytes → Bool
ends_blank [] = false
ends_blank (c ∷ []) = c == b' '
ends_blank (c ∷ d ∷ s) = ends_blank (d ∷ s)

-- one more character, where it and the NUL behind it still fit
abbrev pub put : ℕ → Bytes → ℕ → Bytes
put out_max out c = if ltb (length out + 1) out_max then out ++ c ∷ [] else out

unfoldable pub end_letter : ℕ → Letters → Letters
end_letter out_max st = elim st.letter [
  | [] ↦ st
  | c ∷ s ↦ record { letter = []; out = put out_max st.out (shown (morse_to_char (c ∷ s))) }
]

unfoldable pub end_word : ℕ → Letters → Letters
end_word out_max st =
    if ltb 0 (length st.out) && not (ends_blank st.out)
    then record st { out = put out_max st.out b' ' }
    else st

unfoldable pub add_element : Bool → Letters → Letters
add_element is_dot st =
    if ltb (length st.letter + 1) letter_size
    then record st { letter = st.letter ++ (if is_dot then b'.' else b'-') ∷ [] }
    else st

-- behind the loop: whether there is text, the text, and the code that is not ended yet
unfoldable pub finish : ℕ → ℕ → Letters → Bool × Bytes × Bytes
unfolding end_letter
finish out_max pending_max st =
    let out = (end_letter out_max st).out in
    (ltb 0 (length out), out, take (pending_max - 1) st.letter)

-- the first sample, and whether a sample is above the threshold; the loop reads one more, 0
abbrev pub first_above : List Bool → Bool
first_above [] = false
first_above (b ∷ bs) = b

module _ {F : Type 0} (float : Floats F) where
  -- the length of a dot, from the sorted lengths of the on intervals
  unfoldable pub dot_of_sorted : List ℕ → F
  dot_of_sorted sorted =
      let at = λ (i : ℕ). float.of_int (pos (get_or sorted i 0)) in
      let n = length sorted in
      let least = at 0 in
      let ratio =
        float.div (at (n - 1))
          (if float.less (float.dec 0 0) least then least else float.dec 1 0) in
      let median = at (n / 2) in
      let dot =
        if float.less (float.dec 2 0) ratio
        then at (n / 2 / 2)
        else if float.less (float.dec 18 0) median
        then float.div median (float.dec 3 0)
        else median in
      if float.less dot (float.dec 1 0) then float.dec 1 0 else dot

  unfoldable pub dot_length : List ℕ → F
  unfolding dot_of_sorted
  dot_length on = dot_of_sorted (sort_ints on)

  unfoldable pub debounce_samples : F → ℕ
  debounce_samples dot = max 1 (pos_part (float.lround (float.mul dot (float.dec 3 1))))

  -- `len_norm`
  abbrev pub norm : F → ℕ → F
  norm dot len = float.div (float.of_int (pos len)) dot

  -- an interval that ends, `true` for one above the threshold
  unfoldable pub end_of_interval : ℕ → F → Bool → ℕ → Letters → Letters
  end_of_interval out_max dot true len st =
      if ltb (debounce_samples dot) len
      then add_element (float.less (norm dot len) (float.dec 2 0)) st
      else st
  end_of_interval out_max dot false len st =
      let st' = end_letter out_max st in
      if ltb (debounce_samples dot) len && float.less (float.dec 2 0) (norm dot len)
      then (if float.less (float.dec 5 0) (norm dot len) then end_word out_max st' else st')
      else st

  -- the loop over the samples, on whether each is above the threshold
  unfoldable pub read_samples : ℕ → F → Bool → ℕ → Letters → List Bool → Letters
  read_samples out_max dot is_on len st [] = st
  read_samples out_max dot is_on len st (b ∷ bs) =
      let keeps = same b is_on in
      read_samples out_max dot (if keeps then is_on else not is_on) (if keeps then len + 1 else 1)
        (if keeps then st else end_of_interval out_max dot is_on len st) bs

  unfoldable pub decode_signal : List Bool → F → F → ℕ → ℕ → Bool × Bytes × Bytes
  unfolding finish
  decode_signal bs threshold dot out_max pending_max = finish out_max pending_max (
      read_samples out_max dot (first_above bs) 0 (record { letter = []; out = [] })
        (bs ++ float.less threshold (float.dec 0 0) ∷ []))

  -- behind the search for the intervals, whose on lengths are given
  unfoldable pub decode_intervals : List ℕ → List Bool → F → ℕ → ℕ → Bool × Bytes × Bytes
  unfolding decode_signal
  decode_intervals [] signal threshold out_max pending_max = (false, [], [])
  decode_intervals (n ∷ on) signal threshold out_max pending_max =
      decode_signal signal threshold (dot_length (n ∷ on)) out_max pending_max

  -- `decode_with_params`, of a signal that is not NULL, into buffers of at least one byte
  unfoldable pub decode_with_params : List F → F → ℕ → ℕ → Bool × Bytes × Bytes
  unfolding decode_intervals
  decode_with_params power threshold out_max pending_max =
      decode_intervals (get_raw_intervals float power threshold).on (above float threshold power)
        threshold out_max pending_max
