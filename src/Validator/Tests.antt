-- ===== src/Validator/Tests.antt =====
-- Runs of the model of cw-skimmer/src/cw_message_validator.c on texts, and the theorems at concrete texts.
use cw_skimmer.Prelude.{
  ℕ, ◌+◌, ◌-◌, ◌≤◌, ◌≡◌, refl, true, false, [], none, some, length, ltb, leb, ◌≢◌, ◌⊎◌,
}
use cw_skimmer.Prelude.Bytes.{codes, AllTrue}
use cw_skimmer.Libc.Chars.{to_upper, is_digit, is_alpha}
use cw_skimmer.Libc.Search.{has_prefix}
use cw_skimmer.Validator.{
  normal, keywords, is_callsign_char, is_word_char, text_has_only_valid_chars,
  text_contains_keyword, scan_keyword, scan_keywords, itu_from, itu_prefix_plausible, digit_groups,
  digit_group_count, suffix_from, suffix_letters_after_digit, is_vowel, suffix_fits,
  looks_like_callsign,
}
use cw_skimmer.Validator.Score.{
  Floats, primary_score_text, trim_end, last_word, run_from, max_run_length, transitions,
  digit_letter_chaos, text_has_digit, accept_threshold, clamp01, raised, lowered, is_noise,
  score_primary, score_text, score, accepts,
}
use cw_skimmer.Validator.Accepts.{accepts_lem, score_bounds}
use cw_skimmer.Validator.CallSign.{CallSign, looks_like_callsign_lem}

-- numbers of hundredths, for `float`
abbrev hundredths : Floats ℕ
hundredths = record {
  lit = λ n. n;
  add = λ a b. a + b;
  sub = λ a b. a - b;
  less = ltb;
  at_least = λ a b. leb b a;
}

k1abc-callsign : looks_like_callsign (codes "K1ABC") ≡ true
unfolding looks_like_callsign itu_prefix_plausible itu_from digit_group_count digit_groups
    suffix_letters_after_digit suffix_from suffix_fits is_vowel is_alpha is_digit to_upper
k1abc-callsign = refl

looks_like_callsign_lem_example : CallSign (codes "K1ABC")
looks_like_callsign_lem_example = looks_like_callsign_lem (codes "K1ABC") k1abc-callsign

cq-accepted : accepts hundredths (some (codes "CQ DE K1ABC")) normal none ≡ true
unfolding accepts score score_text score_primary lowered raised clamp01 accept_threshold is_noise
    digit_letter_chaos transitions max_run_length run_from primary_score_text trim_end last_word
    looks_like_callsign itu_prefix_plausible itu_from digit_group_count digit_groups
    suffix_letters_after_digit suffix_from suffix_fits is_vowel is_alpha is_digit to_upper
    text_has_only_valid_chars is_callsign_char text_contains_keyword keywords scan_keywords
    scan_keyword has_prefix is_word_char
cq-accepted = refl

accepts_lem_example :
    let primary = primary_score_text (codes "CQ DE K1ABC") 64 in
    AllTrue is_callsign_char (codes "CQ DE K1ABC")
    × (codes "CQ DE K1ABC" ≢ [])
    × (length primary ≢ 1)
    × ((2 ≤ length primary)
        → (length primary ≤ 4)
        → (text_has_digit primary ≡ true) ⊎ (text_contains_keyword primary ≡ true))
accepts_lem_example =
    accepts_lem hundredths (λ a b. refl) (λ a b. refl) (codes "CQ DE K1ABC") normal none cq-accepted

score_bounds_example :
    (ltb (score hundredths (some (codes "K1ABC")) normal none) 0 ≡ false)
    × (ltb 1_00 (score hundredths (some (codes "K1ABC")) normal none) ≡ false)
score_bounds_example =
    score_bounds hundredths (λ a b. refl) (λ a b. refl) (some (codes "K1ABC")) normal none
