-- ===== src/Validator.antt =====
-- The message validator of cw-skimmer/src/cw_message_validator.c: how much a decoded text looks like Morse
-- code traffic. A text is a string; NULL, where the code asks for it, is `none`.
pub mod Score
pub mod Accepts
pub mod Loops
pub mod CallSign
mod Tests
use cw_skimmer.Prelude.{
  ℕ, zero, suc, ◌+◌, ◌-◌, Bool, true, false, not, ◌&&◌, ◌||◌, List, [], ◌∷◌, ◌++◌, map, Option,
  none, some, take, drop, length, ltb, leb, ◌==◌, if◌then◌else◌,
}
use cw_skimmer.Prelude.Bytes.{Bytes, codes, str_eq, str_case_eq}
use cw_skimmer.Libc.Chars.{within, to_upper, is_digit, is_alpha}
use cw_skimmer.Libc.Search.{has_prefix}

-- `k_keywords`
unfoldable pub keywords : List Bytes
keywords =
    codes "CQ"
    ∷ codes "DE"
    ∷ codes "TEST"
    ∷ codes "TU"
    ∷ codes "73"
    ∷ codes "GN"
    ∷ codes "BK"
    ∷ codes "KN"
    ∷ codes "AR"
    ∷ codes "SK"
    ∷ codes "RBN"
    ∷ codes "QSL"
    ∷ codes "QRZ"
    ∷ codes "AGN"
    ∷ codes "PSE"
    ∷ codes "RST"
    ∷ codes "QTH"
    ∷ codes "RIG"
    ∷ codes "WX"
    ∷ codes "5NN"
    ∷ codes "NNN"
    ∷ codes "SRI"
    ∷ codes "CPY"
    ∷ codes "HW"
    ∷ codes "VY"
    ∷ codes "GB"
    ∷ codes "ES"
    ∷ codes "AS"
    ∷ codes "K"
    ∷ []

-- `cw_validation_mode_t`
pub data Mode : Type 0 where
  minimal normal aggressive paranoid : Mode

unfoldable pub parse_mode : Option Bytes → Mode
parse_mode none = normal
parse_mode (some s) =
    if leb (length s) 0
    then normal
    else if str_case_eq s (codes "minimal")
    then minimal
    else if str_case_eq s (codes "aggressive")
    then aggressive
    else if str_case_eq s (codes "paranoid")
    then paranoid
    else normal

unfoldable pub is_word_char : ℕ → Bool
is_word_char c = within b'A' b'Z' c || within b'0' b'9' c || c == b'/'

unfoldable pub is_callsign_char : ℕ → Bool
is_callsign_char c = within b'A' b'Z' c || within b'0' b'9' c || c == b'/' || c == b' '

abbrev pub only_valid : Bytes → Bool
only_valid [] = true
only_valid (c ∷ s) = is_callsign_char c && only_valid s

unfoldable pub text_has_only_valid_chars : Bytes → Bool
text_has_only_valid_chars text = only_valid text && not (leb (length text) 0)

-- a word ends, or starts, beside this byte
abbrev pub is_boundary : Option ℕ → Bool
is_boundary none = true
is_boundary (some c) = not (is_word_char c)

abbrev pub first_byte : Bytes → Option ℕ
first_byte [] = none
first_byte (c ∷ s) = some c

-- The loop over the occurrences of one keyword: `prev` is the byte before, and `skip` the number of
-- bytes of the occurrence before that are still to be passed.
unfoldable pub scan_keyword : Bytes → ℕ → Option ℕ → Bytes → Bool
scan_keyword kw skip prev [] = false
scan_keyword kw (suc skip) prev (c ∷ s) = scan_keyword kw skip (some c) s
scan_keyword kw zero prev (c ∷ s) =
    let here = has_prefix (c ∷ s) kw in
    let bounded = is_boundary prev && is_boundary (first_byte (drop (length kw) (c ∷ s))) in
    let rest = scan_keyword kw (if here then length kw - 1 else 0) (some c) s in
    if here && bounded then true else rest

unfoldable pub scan_keywords : List Bytes → Bytes → Bool
scan_keywords [] upper = false
scan_keywords (kw ∷ kws) upper =
    let rest = scan_keywords kws upper in if scan_keyword kw 0 none upper then true else rest

-- the first 63 bytes, in upper case
unfoldable pub text_contains_keyword : Bytes → Bool
unfolding keywords
text_contains_keyword text = scan_keywords keywords (map to_upper (take 63 text))

-- At most four bytes are looked at; the loop counts letters up to a digit. A blank ends it, and any
-- other byte the function, both with no digit seen.
unfoldable pub itu_from : ℕ → ℕ → Bytes → Bool
itu_from zero letters s = false
itu_from (suc n) letters [] = false
itu_from (suc n) letters (c ∷ s) =
    let rest = itu_from n (letters + 1) s in
    if is_alpha c then rest else if is_digit c then leb 1 letters && leb letters 2 else false

unfoldable pub itu_prefix_plausible : Bytes → Bool
itu_prefix_plausible [] = false
itu_prefix_plausible (c ∷ s) = if is_alpha c then itu_from 4 0 (c ∷ s) else false

-- the loop, with `in_digit`
unfoldable pub digit_groups : Bool → Bytes → ℕ
digit_groups in_digit [] = 0
digit_groups in_digit (c ∷ s) =
    let rest = digit_groups (is_digit c) s in if is_digit c && not in_digit then rest + 1 else rest

unfoldable pub digit_group_count : Bytes → ℕ
digit_group_count text = digit_groups false text

-- the loop, with `seen_digit` and `suffix`
unfoldable pub suffix_from : Bool → ℕ → Bytes → ℕ
suffix_from seen suffix [] = suffix
suffix_from seen suffix (c ∷ s) =
    let counts = seen && is_alpha c in
    let rest =
      suffix_from (seen || is_digit c)
        (if is_digit c then 0 else if counts then suffix + 1 else suffix) s in
    if not (is_digit c) && not counts && c == b'/' then suffix else rest

unfoldable pub suffix_letters_after_digit : Bytes → ℕ
suffix_letters_after_digit text = suffix_from false 0 text

abbrev pub count : (ℕ → Bool) → Bytes → ℕ
count p [] = 0
count p (c ∷ s) = if p c then suc (count p s) else count p s

-- letters, digits and '/' only
abbrev pub call_bytes : Bytes → Bool
call_bytes [] = true
call_bytes (c ∷ s) = (is_alpha c || is_digit c || c == b'/') && call_bytes s

unfoldable pub is_vowel : ℕ → Bool
is_vowel c = c == b'A' || c == b'E' || c == b'I' || c == b'O' || c == b'U' || c == b'Y'

abbrev pub has_vowel : Bytes → Bool
has_vowel [] = false
has_vowel (c ∷ s) = is_vowel (to_upper c) || has_vowel s

-- the last part of `looks_like_callsign`
unfoldable pub suffix_fits : Bytes → ℕ → Bool
suffix_fits text n = if ltb n 1 || ltb 3 n then false else if leb 3 n then has_vowel text else true

unfoldable pub looks_like_callsign : Bytes → Bool
looks_like_callsign text =
    if ltb (length text) 3 || ltb 8 (length text)
    then false
    else if not (call_bytes text)
    then false
    else if ltb (count is_alpha text) 2
        || ltb (count is_digit text) 1
        || not (itu_prefix_plausible text)
    then false
    else if not (digit_group_count text == 1)
    then false
    else suffix_fits text (suffix_letters_after_digit text)
