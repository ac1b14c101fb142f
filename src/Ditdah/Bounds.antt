-- ===== src/Ditdah/Bounds.antt =====
-- What any signal leaves in the buffers of `decode_with_params` (cw-skimmer/src/ditdah_decoder.c).
use cw_skimmer.Prelude.{
  ℕ, ◌+◌, ◌-◌, ◌≤◌, ◌<◌, ◌≡◌, refl, Bool, true, false, not, ◌&&◌, ◌||◌, List, [], ◌∷◌, arith,
  length, length-append, length-take, ltb, ◌==◌, ◌⊎◌, inl, inr, Bool-cases, if◌then◌else◌,
}
use cw_skimmer.Prelude.Bytes.{Bytes, AllTrue, AllTrue-append, AllTrue-take}
use cw_skimmer.Libc.Floats.{Floats}
use cw_skimmer.Ditdah.Morse.{morse_to_char, shown, is_code_char, morse_to_char-chars}
use cw_skimmer.Ditdah.Signal.{same}
use cw_skimmer.Ditdah.Letters.{
  letter_size, Letters, put, ends_blank, end_letter, end_word, add_element, debounce_samples, norm,
  end_of_interval, read_samples, finish, first_above, decode_signal, dot_length, decode_intervals,
  decode_with_params,
}

-- what a decoded text consists of
abbrev pub is_text_char : ℕ → Bool
is_text_char c = is_code_char c || c == b'?' || c == b' '

abbrev pub is_element : ℕ → Bool
is_element c = c == b'.' || c == b'-'

shown-text : (s : Bytes) → is_text_char (shown (morse_to_char s)) ≡ true
shown-text s = split (morse_to_char s) (morse_to_char-chars s)
  where
    split : (c : ℕ) → (c ≡ 0) ⊎ (is_code_char c ≡ true) → is_text_char (shown c) ≡ true
    split c (inl none) = rw none refl
    split c (inr char) = ground arith

-- The buffers hold what was written, with room for a NUL.
pub record Fits (out_max : ℕ) (st : Letters) : Type 0 where
  pub letter_fits : length st.letter < letter_size
  pub out_fits : length st.out < out_max
  pub elements : AllTrue is_element st.letter
  pub text : AllTrue is_text_char st.out

-- one more character of a text
put-Fits :
    (out_max : ℕ) (out : Bytes) (c : ℕ)
    → length out < out_max
    → AllTrue is_text_char out
    → is_text_char c ≡ true
    → (length (put out_max out c) < out_max) × AllTrue is_text_char (put out_max out c)
put-Fits out_max out c h all hc = elim (Bool-cases (ltb (length out + 1) out_max)) [
  | inl room ↦ rw room (
    ground (arith, length-append out (c ∷ [])),
    AllTrue-append is_text_char out (c ∷ []) all (hc, tt),
  )
  | inr full ↦ rw full (h, all)
]

end_letter-Fits :
    (out_max : ℕ) (letter out : Bytes)
    → Fits out_max (record { letter = letter; out = out })
    → Fits out_max (end_letter out_max (record { letter = letter; out = out }))
unfolding end_letter
end_letter-Fits out_max [] out f = f
end_letter-Fits out_max (c ∷ s) out f =
    let (fits, all) =
      put-Fits out_max out (shown (morse_to_char (c ∷ s))) f.out_fits f.text (shown-text (c ∷ s)) in
    record { letter_fits = omega arith; out_fits = fits; elements = tt; text = all }

either-Fits :
    {out_max : ℕ} (b : Bool) (x y : Letters)
    → Fits out_max x
    → Fits out_max y
    → Fits out_max (if b then x else y)
either-Fits true x y fx fy = fx
either-Fits false x y fx fy = fy

end_word-Fits : (out_max : ℕ) (st : Letters) → Fits out_max st → Fits out_max (end_word out_max st)
unfolding end_word
end_word-Fits out_max st f =
    let (fits, all) = put-Fits out_max st.out b' ' f.out_fits f.text refl in
    either-Fits (ltb 0 (length st.out) && not (ends_blank st.out)) _ st
      (record { letter_fits = f.letter_fits; out_fits = fits; elements = f.elements; text = all }) f

element-is : (b : Bool) → is_element (if b then b'.' else b'-') ≡ true
element-is true = refl
element-is false = refl

add_element-Fits :
    (out_max : ℕ) (is_dot : Bool) (st : Letters)
    → Fits out_max st
    → Fits out_max (add_element is_dot st)
unfolding add_element
add_element-Fits out_max is_dot st f = elim (Bool-cases (ltb (length st.letter + 1) letter_size)) [
  | inl room ↦ rw room (record {
    letter_fits = ground (arith, length-append st.letter ((if is_dot then b'.' else b'-') ∷ []));
    out_fits = f.out_fits;
    elements = AllTrue-append is_element st.letter _ f.elements (element-is is_dot, tt);
    text = f.text;
  })
  | inr full ↦ rw full f
]

module _ {F : Type 0} (float : Floats F) (out_max : ℕ) (dot : F) where
  end_of_interval-Fits :
      (b : Bool) (len : ℕ) (st : Letters)
      → Fits out_max st
      → Fits out_max (end_of_interval float out_max dot b len st)
  unfolding end_of_interval
  end_of_interval-Fits true len st f =
      either-Fits (ltb (debounce_samples float dot) len) _ st (add_element-Fits out_max _ st f) f
  end_of_interval-Fits false len st f =
      let f' = end_letter-Fits out_max st.letter st.out f in
      either-Fits
        (ltb (debounce_samples float dot) len && float.less (float.dec 2 0) (norm float dot len)) _
        st
        (either-Fits (float.less (float.dec 5 0) (norm float dot len)) _ _
          (end_word-Fits out_max _ f') f')
        f

  read_samples-Fits :
      (b : Bool) (len : ℕ) (st : Letters) (bs : List Bool)
      → Fits out_max st
      → Fits out_max (read_samples float out_max dot b len st bs)
  unfolding read_samples
  read_samples-Fits b len st [] f = f
  read_samples-Fits b len st (c ∷ bs) f =
      read_samples-Fits (if same c b then b else not b) (if same c b then len + 1 else 1)
        (if same c b then st else end_of_interval float out_max dot b len st) bs
        (either-Fits (same c b) _ _ f (end_of_interval-Fits b len st f))

-- the three results
abbrev pub Decoded : ℕ → ℕ → Bool × Bytes × Bytes → Type 0
Decoded out_max pending_max (found, out, pending) =
    (length out < out_max)
    × (length pending < pending_max)
    × AllTrue is_text_char out
    × AllTrue is_element pending
    × (found ≡ ltb 0 (length out))

finish-Decoded :
    (out_max pending_max : ℕ) (st : Letters)
    → 1 ≤ pending_max
    → Fits out_max st
    → Decoded out_max pending_max (finish out_max pending_max st)
unfolding finish
finish-Decoded out_max pending_max st h f =
    let f' = end_letter-Fits out_max st.letter st.out f in
    (
      f'.out_fits,
      omega (arith, length-take (pending_max - 1) st.letter),
      f'.text,
      AllTrue-take is_element (pending_max - 1) st.letter f.elements,
      refl,
    )

decode_intervals-Decoded :
    {F : Type 0} (float : Floats F) (on : List ℕ) (signal : List Bool) (threshold : F)
    (out_max pending_max : ℕ)
    → 1 ≤ out_max
    → 1 ≤ pending_max
    → Decoded out_max pending_max (decode_intervals float on signal threshold out_max pending_max)
unfolding decode_intervals decode_signal
decode_intervals-Decoded float [] signal threshold out_max pending_max h h' = (h, h', tt, tt, refl)
decode_intervals-Decoded float (n ∷ on) signal threshold out_max pending_max h h' =
    finish-Decoded out_max pending_max _ h' (
      read_samples-Fits float out_max (dot_length float (n ∷ on)) (first_above signal) 0
        (record { letter = []; out = [] }) _
        (record { letter_fits = omega arith; out_fits = h; elements = tt; text = tt }))

-- Whatever the signal, the threshold and the floats are: the text fits its buffer with the NUL and consists of
-- capitals, digits, question marks and blanks; the code that is not ended yet fits its buffer with the NUL
-- and consists of dots and dashes; and the result says whether there is any text.
pub decode_with_params_lem :
    {F : Type 0} (float : Floats F) (power : List F) (threshold : F) (out_max pending_max : ℕ)
    → 1 ≤ out_max
    → 1 ≤ pending_max
    → Decoded out_max pending_max (decode_with_params float power threshold out_max pending_max)
unfolding decode_with_params
decode_with_params_lem float power threshold out_max pending_max h h' =
    decode_intervals-Decoded float _ _ threshold out_max pending_max h h'
