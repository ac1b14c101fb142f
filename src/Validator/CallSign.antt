-- ===== src/Validator/CallSign.antt =====
-- What `looks_like_callsign` of cw-skimmer/src/cw_message_validator.c takes for a call sign, as a shape.
use cw_skimmer.Prelude.{
  ℕ, ◌+◌, ◌≤◌, ◌≡◌, refl, sym, ap, ◌∙◌, true, false, [], ◌∷◌, ◌++◌, arith, length,
}
use cw_skimmer.Prelude.Bytes.{Bytes, AllTrue}
use cw_skimmer.Libc.Chars.{is_digit, is_alpha}
use cw_skimmer.Validator.{
  itu_prefix_plausible, digit_groups, digit_group_count, suffix_from, suffix_letters_after_digit,
  call_bytes, has_vowel, suffix_fits, looks_like_callsign,
}
use cw_skimmer.Validator.Loops.{
  letter_or_slash, Stops, Front, Digits, Suffix, itu_prefix_plausible-Front, call_bytes-append,
  digit_groups-front, suffix_from-front, suffix_from-digits, one_group, suffix_from-Suffix,
}

-- One or two letters, digits, one to three letters, and then the end or a '/' with letters and further
-- '/' behind it; three to eight bytes in all; with three letters behind the digits, a vowel.
pub record CallSign (text : Bytes) : Type 0 where
  pub before : Bytes
  pub digits : Bytes
  pub suffix : Bytes
  pub after : Bytes
  pub parts : text ≡ before ++ (digits ++ (suffix ++ after))
  pub before_letters : AllTrue is_alpha before
  pub before_size : (1 ≤ length before) × (length before ≤ 2)
  pub digits_digits : AllTrue is_digit digits
  pub digits_size : 1 ≤ length digits
  pub suffix_letters : AllTrue is_alpha suffix
  pub suffix_size : (1 ≤ length suffix) × (length suffix ≤ 3)
  pub after_stops : Stops after
  pub after_bytes : AllTrue letter_or_slash after
  pub size : (3 ≤ length text) × (length text ≤ 8)
  pub vowel : length suffix ≡ 3 → has_vowel text ≡ true

-- the tests that the function makes, in order
record Passed (text : Bytes) : Type 0 where
  size : (3 ≤ length text) × (length text ≤ 8)
  bytes : call_bytes text ≡ true
  plausible : itu_prefix_plausible text ≡ true
  groups : digit_group_count text ≡ 1
  fits : suffix_fits text (suffix_letters_after_digit text) ≡ true

looks_like_callsign-Passed : (text : Bytes) → looks_like_callsign text ≡ true → Passed text
unfolding looks_like_callsign
looks_like_callsign-Passed text h = record {
  size = ground arith;
  bytes = ground arith;
  plausible = ground arith;
  groups = ground arith;
  fits = ground arith;
}

suffix_fits_lem :
    (text : Bytes) (n : ℕ)
    → suffix_fits text n ≡ true
    → (1 ≤ n) × (n ≤ 3) × (n ≡ 3 → has_vowel text ≡ true)
unfolding suffix_fits
suffix_fits_lem text n h = (ground arith, ground arith, λ e. ground arith)

digit_groups-digit :
    (d : ℕ) (s : Bytes) → is_digit d ≡ true → digit_groups false (d ∷ s) ≡ digit_groups true s + 1
unfolding digit_groups
digit_groups-digit d s h = rw h refl

suffix_from-digit :
    (d : ℕ) (s : Bytes) → is_digit d ≡ true → suffix_from false 0 (d ∷ s) ≡ suffix_from true 0 s
unfolding suffix_from
suffix_from-digit d s h = rw h refl

-- behind the front and its digit no second group of digits starts
rest_groups :
    (text : Bytes) (f : Front 0 text) → digit_group_count text ≡ 1 → digit_groups true f.rest ≡ 0
unfolding digit_group_count
rest_groups text f h = omega (
  arith,
  h,
  ap (digit_groups false) f.parts,
  digit_groups-front f.front (f.digit ∷ f.rest) f.front_letters,
  digit_groups-digit f.digit f.rest f.is_one,
)

rest_bytes : (text : Bytes) (f : Front 0 text) → call_bytes text ≡ true → call_bytes f.rest ≡ true
rest_bytes text f h =
    call_bytes-append (f.digit ∷ []) f.rest
      (call_bytes-append f.front (f.digit ∷ f.rest) (sym (ap call_bytes f.parts) ∙ h))

-- the letters counted are those behind the digits
suffix_count :
    (text : Bytes) (f : Front 0 text) (g : Digits f.rest) (x : Suffix 0 g.tail)
    → suffix_letters_after_digit text ≡ length x.suffix
unfolding suffix_letters_after_digit
suffix_count text f g x =
    ap (suffix_from false 0) f.parts
    ∙ suffix_from-front f.front (f.digit ∷ f.rest) 0 f.front_letters
    ∙ suffix_from-digit f.digit f.rest f.is_one
    ∙ ap (suffix_from true 0) g.parts
    ∙ suffix_from-digits g.digits g.tail g.all_digits
    ∙ x.counted
    ∙ omega arith

-- What the function takes for a call sign has the shape of one: one or two letters, one group of
-- digits, one to three letters, and then the end or a '/' with letters and further '/' behind it;
-- three to eight bytes in all; and where three letters stand behind the digits, a vowel somewhere.
pub looks_like_callsign_lem : (text : Bytes) → looks_like_callsign text ≡ true → CallSign text
looks_like_callsign_lem text h =
    let p = looks_like_callsign-Passed text h in
    let f = itu_prefix_plausible-Front text p.plausible in
    let g = one_group f.rest (rest_bytes text f p.bytes) (rest_groups text f p.groups) in
    let x = suffix_from-Suffix 0 g.tail g.no_digits in
    let (least, most, vowel) =
      suffix_fits_lem text (length x.suffix)
        (ap (suffix_fits text) (sym (suffix_count text f g x)) ∙ p.fits) in
    record {
      before = f.front;
      digits = f.digit ∷ g.digits;
      suffix = x.suffix;
      after = x.after;
      parts =
          f.parts ∙ ap (λ s. f.front ++ f.digit ∷ s) (g.parts ∙ ap (λ s. g.digits ++ s) x.parts);
      before_letters = f.front_letters;
      before_size = omega (arith, f.few);
      digits_digits = (f.is_one, g.all_digits);
      digits_size = omega arith;
      suffix_letters = x.letters;
      suffix_size = (least, most);
      after_stops = x.stops;
      after_bytes = x.after_bytes;
      size = p.size;
      vowel = vowel;
    }
