-- ===== src/Validator/Score.antt =====
-- The score of cw-skimmer/src/cw_message_validator.c. It is a `float`: the type and its operations are a
-- parameter, where `lit n` is the constant of `n` hundredths.
use cw_skimmer.Prelude.{
  ℕ, ◌+◌, ◌-◌, Bool, false, not, ◌&&◌, ◌||◌, [], ◌∷◌, Option, none, some, take, length, ltb, leb,
  ◌==◌, max, if◌then◌else◌,
}
use cw_skimmer.Prelude.Bytes.{Bytes, str_eq}
use cw_skimmer.Libc.Chars.{is_digit, is_alpha}
use cw_skimmer.Validator.{
  Mode, minimal, normal, aggressive, paranoid, text_has_only_valid_chars, text_contains_keyword,
  itu_prefix_plausible, suffix_letters_after_digit, looks_like_callsign,
}

pub record Floats (F : Type 0) : Type 0 where
  pub lit : ℕ → F
  pub add : F → F → F
  pub sub : F → F → F
  pub less : F → F → Bool
  pub at_least : F → F → Bool

-- the loop, with the byte before, and `run` and `max_run`
unfoldable pub run_from : ℕ → ℕ → ℕ → Bytes → ℕ
run_from prev run longest [] = longest
run_from prev run longest (c ∷ s) =
    let again = c == prev && not (c == b' ') in
    run_from c (if again then run + 1 else 1) (if again then max longest (run + 1) else longest) s

unfoldable pub max_run_length : Bytes → ℕ
max_run_length [] = 0
max_run_length (c ∷ s) = run_from c 1 1 s

-- the text without the blanks at its end
unfoldable pub trim_end : Bytes → Bytes
trim_end [] = []
trim_end (c ∷ s) =
    let rest = trim_end s in if c == b' ' && leb (length rest) 0 then [] else c ∷ rest

-- what stands behind the last blank, or all if there is none
unfoldable pub last_word : Bytes → Bytes → Bytes
last_word word [] = word
last_word word (c ∷ s) = if c == b' ' then last_word s s else last_word word s

-- in a buffer of `buf_size` bytes; a text of blanks alone is given back
unfoldable pub primary_score_text : Bytes → ℕ → Bytes
primary_score_text text buf_size =
    let trimmed = trim_end text in
    if leb (length trimmed) 0 then text else take (buf_size - 1) (last_word trimmed trimmed)

abbrev pub text_has_digit : Bytes → Bool
text_has_digit [] = false
text_has_digit (c ∷ s) = is_digit c || text_has_digit s

-- whether a byte is a digit, against what the last letter or digit was
abbrev pub changes : Option Bool → Bool → ℕ
changes none digit = 0
changes (some before) digit = if (before && not digit) || (not before && digit) then 1 else 0

unfoldable pub transitions : Option Bool → Bytes → ℕ
transitions before [] = 0
transitions before (c ∷ s) =
    let other = not (is_alpha c) && not (is_digit c) in
    let rest = transitions (if other then before else some (is_digit c)) s in
    if other then rest else changes before (is_digit c) + rest

unfoldable pub digit_letter_chaos : Bytes → Bool
digit_letter_chaos text = leb 5 (transitions none text)

-- a short word of letters that is no keyword
unfoldable pub is_noise : Bytes → Bool
is_noise primary =
    leb 2 (length primary)
    && leb (length primary) 4
    && not (text_has_digit primary)
    && not (text_contains_keyword primary)

module _ {F : Type 0} (float : Floats F) where
  -- `k_thresholds`
  unfoldable pub display_threshold : Mode → F
  display_threshold minimal = float.lit 40
  display_threshold normal = float.lit 55
  display_threshold aggressive = float.lit 65
  display_threshold paranoid = float.lit 78

  unfoldable pub accept_threshold : Mode → F
  accept_threshold minimal = float.lit 35
  accept_threshold normal = float.lit 50
  accept_threshold aggressive = float.lit 60
  accept_threshold paranoid = float.lit 75

  unfoldable pub clamp01 : F → F
  clamp01 v =
      if float.less v (float.lit 0)
      then float.lit 0
      else if float.less (float.lit 1_00) v
      then float.lit 1_00
      else v

  -- `if (test) score += n`, and `score -= n`
  abbrev pub bonus : Bool → ℕ → F → F
  bonus test n score = if test then float.add score (float.lit n) else score

  abbrev pub malus : Bool → ℕ → F → F
  malus test n score = if test then float.sub score (float.lit n) else score

  abbrev pub is_prior : Bytes → Option Bytes → Bool
  is_prior primary none = false
  is_prior primary (some prior) = not (leb (length prior) 0) && str_eq primary prior

  abbrev pub starts_alpha : Bytes → Bool
  starts_alpha [] = false
  starts_alpha (c ∷ s) = is_alpha c

  -- lines 407 to 425
  unfoldable pub raised : Bytes → Bytes → Option Bytes → F
  raised text primary prior =
      let n = length primary in
      bonus (is_prior primary prior) 12 (
        bonus (leb 3 n && leb n 7 && starts_alpha primary) 6 (
          bonus (looks_like_callsign primary) 24 (
            bonus (itu_prefix_plausible primary) 18 (
              bonus (text_contains_keyword primary) 14
                (bonus (text_contains_keyword text) 24 (float.lit 18))))))

  -- lines 432 to 453
  unfoldable pub lowered : Bytes → Bytes → F → F
  lowered text primary score =
      let n = length primary in
      let plain = not (looks_like_callsign primary) && not (text_contains_keyword primary) in
      malus (leb 6 n && plain) 22 (
        malus (digit_letter_chaos primary) 25 (
          malus (leb 4 (max_run_length primary)) 30 (
            malus (ltb 12 (length text)) 25 (
              malus (ltb 3 (suffix_letters_after_digit primary)) 18
                (malus (text_has_digit primary && leb 4 n && leb n 7 && plain) 28 score)))))

  -- from line 403 on
  unfoldable pub score_primary : Bytes → Bytes → Option Bytes → F
  score_primary text primary prior =
      if length primary == 1
      then float.lit 22
      else if is_noise primary
      then clamp01 (float.lit 28)
      else clamp01 (lowered text primary (raised text primary prior))

  unfoldable pub score_text : Bytes → Option Bytes → F
  score_text text prior =
      if leb (length text) 0
      then float.lit 0
      else if not (text_has_only_valid_chars text)
      then float.lit 5
      else score_primary text (primary_score_text text 64) prior

  -- `cw_message_validator_score`, which does not look at the mode
  unfoldable pub score : Option Bytes → Mode → Option Bytes → F
  score none mode prior = float.lit 0
  score (some text) mode prior = score_text text prior

  unfoldable pub accepts : Option Bytes → Mode → Option Bytes → Bool
  accepts text mode prior = float.at_least (score text mode prior) (accept_threshold mode)
