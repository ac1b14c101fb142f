-- ===== src/Validator/Accepts.antt =====
-- What the score of cw-skimmer/src/cw_message_validator.c says of a text, for any floats whose constants
-- compare like the numbers that they stand for.
use cw_skimmer.Prelude.{
  ℕ, ◌≤◌, ◌≡◌, refl, ◌∙◌, Bool, true, false, not, [], ◌∷◌, ◌≢◌, Option, none, some, arith, length,
  ltb, leb, ◌==◌, ◌⊎◌, inl, inr, Bool-cases, if◌then◌else◌,
}
use cw_skimmer.Prelude.Bytes.{Bytes, AllTrue}
use cw_skimmer.Validator.{
  Mode, minimal, normal, aggressive, paranoid, is_callsign_char, only_valid,
  text_has_only_valid_chars, text_contains_keyword,
}
use cw_skimmer.Validator.Score.{
  Floats, text_has_digit, primary_score_text, accept_threshold, clamp01, is_noise, score_primary,
  score_text, score, accepts,
}

only_valid-AllTrue : (text : Bytes) → only_valid text ≡ true → AllTrue is_callsign_char text
only_valid-AllTrue [] h = tt
only_valid-AllTrue (c ∷ s) h = (ground arith, only_valid-AllTrue s (ground arith))

text_has_only_valid_chars_lem :
    (text : Bytes)
    → text_has_only_valid_chars text ≡ true
    → AllTrue is_callsign_char text × (text ≢ [])
unfolding text_has_only_valid_chars
text_has_only_valid_chars_lem [] h = absurd (ground arith)
text_has_only_valid_chars_lem (c ∷ s) h = (only_valid-AllTrue (c ∷ s) (ground arith), λ e. cc e)

not-false : (b : Bool) → not b ≡ false → b ≡ true
not-false b h = ground arith

not-true : (b : Bool) → not b ≡ true → b ≡ false
not-true b h = ground arith

no_noise :
    (word : Bytes)
    → 2 ≤ length word
    → length word ≤ 4
    → is_noise word ≡ false
    → (text_has_digit word ≡ true) ⊎ (text_contains_keyword word ≡ true)
unfolding is_noise
no_noise word lo hi e = split (text_has_digit word) (text_contains_keyword word) refl refl
  where
    split :
        (digit keyword : Bool)
        → text_has_digit word ≡ digit
        → text_contains_keyword word ≡ keyword
        → (text_has_digit word ≡ true) ⊎ (text_contains_keyword word ≡ true)
    split true keyword ed ek = inl ed
    split false true ed ek = inr ek
    split false false ed ek = absurd (ground arith)

module _ {F : Type 0} (float : Floats F)
    (less_lit : (a b : ℕ) → float.less (float.lit a) (float.lit b) ≡ ltb a b)
    (at_least_lit : (a b : ℕ) → float.at_least (float.lit a) (float.lit b) ≡ leb b a) where
  -- no mode accepts a score of 28 hundredths or less
  too_low :
      (n : ℕ) (mode : Mode)
      → n ≤ 28
      → float.at_least (float.lit n) (accept_threshold float mode) ≡ false
  unfolding accept_threshold
  too_low n minimal h = at_least_lit n 35 ∙ ground arith
  too_low n normal h = at_least_lit n 50 ∙ ground arith
  too_low n aggressive h = at_least_lit n 60 ∙ ground arith
  too_low n paranoid h = at_least_lit n 75 ∙ ground arith

  clamp01_lit : (n : ℕ) → n ≤ 100 → clamp01 float (float.lit n) ≡ float.lit n
  unfolding clamp01
  clamp01_lit n h = rw (less_lit n 0, less_lit 100 n) (ground arith)

  abbrev Fits : F → Type 0
  Fits v = (float.less v (float.lit 0) ≡ false) × (float.less (float.lit 1_00) v ≡ false)

  lit-Fits : (n : ℕ) → n ≤ 100 → Fits (float.lit n)
  lit-Fits n h = (less_lit n 0 ∙ ground arith, less_lit 100 n ∙ ground arith)

  clamp01-Fits : (v : F) → Fits (clamp01 float v)
  unfolding clamp01
  clamp01-Fits v = elim (Bool-cases (float.less v (float.lit 0))) [
    | inl low ↦ rw low (lit-Fits 0 (omega arith))
    | inr up ↦ rw up (elim (Bool-cases (float.less (float.lit 100) v)) [
      | inl high ↦ rw high (lit-Fits 100 (omega arith))
      | inr fits ↦ rw fits (up, fits)
    ])
  ]

  either-Fits : (b : Bool) (x y : F) → Fits x → Fits y → Fits (if b then x else y)
  either-Fits true x y fx fy = fx
  either-Fits false x y fx fy = fy

  score_text-Fits : (text : Bytes) (prior : Option Bytes) → Fits (score_text float text prior)
  unfolding score_text score_primary
  score_text-Fits text prior =
      let primary = primary_score_text text 64 in
      either-Fits (leb (length text) 0) _ _ (lit-Fits 0 (omega arith)) (
        either-Fits (not (text_has_only_valid_chars text)) _ _ (lit-Fits 5 (omega arith)) (
          either-Fits (length primary == 1) _ _ (lit-Fits 22 (omega arith))
            (either-Fits (is_noise primary) _ _ (clamp01-Fits _) (clamp01-Fits _))))

  -- Every score lies between 0 and 1, both included, whatever the text, the mode and the prior word.
  pub score_bounds :
      (text : Option Bytes) (mode : Mode) (prior : Option Bytes)
      → Fits (score float text mode prior)
  unfolding score
  score_bounds none mode prior = lit-Fits 0 (omega arith)
  score_bounds (some text) mode prior = score_text-Fits text prior

  -- a score that no mode accepts
  abbrev Low : F → Type 0
  Low v = (n : ℕ) × (n ≤ 28) × (v ≡ float.lit n)

  either-Low : (b : Bool) (x y : F) → Low x → Low y → Low (if b then x else y)
  either-Low true x y lx ly = lx
  either-Low false x y lx ly = ly

  invalid-Low :
      (text : Bytes) (prior : Option Bytes)
      → text_has_only_valid_chars text ≡ false
      → Low (score_text float text prior)
  unfolding score_text
  invalid-Low text prior e =
      rw e (either-Low (leb (length text) 0) _ _ (0, omega arith, refl) (5, omega arith, refl))

  one-Low :
      (text : Bytes) (prior : Option Bytes)
      → (length (primary_score_text text 64) == 1) ≡ true
      → Low (score_text float text prior)
  unfolding score_text score_primary
  one-Low text prior e = rw e (
      either-Low (leb (length text) 0) _ _ (0, omega arith, refl)
        (either-Low (not (text_has_only_valid_chars text)) _ _ (5, omega arith, refl)
          (22, omega arith, refl)))

  noise-Low :
      (text : Bytes) (prior : Option Bytes)
      → is_noise (primary_score_text text 64) ≡ true
      → Low (score_text float text prior)
  unfolding score_text score_primary
  noise-Low text prior e = rw e (
      either-Low (leb (length text) 0) _ _ (0, omega arith, refl)
        (either-Low (not (text_has_only_valid_chars text)) _ _ (5, omega arith, refl)
          (either-Low (length (primary_score_text text 64) == 1) _ _ (22, omega arith, refl)
            (28, omega arith, clamp01_lit 28 (omega arith)))))

  Low-refused :
      (v : F) (mode : Mode) → Low v → float.at_least v (accept_threshold float mode) ≡ false
  Low-refused v mode (n, h, e) = rw e (too_low n mode h)

  refuses :
      (text : Bytes) (mode : Mode) (prior : Option Bytes) (b : Bool)
      → accepts float (some text) mode prior ≡ true
      → (b ≡ true → Low (score_text float text prior))
      → b ≡ false
  unfolding accepts score
  refuses text mode prior false h low = refl
  refuses text mode prior true h low =
      cc (h, Low-refused (score_text float text prior) mode (low refl))

  -- A text that any mode accepts, after whatever word, is not empty and consists of capitals, digits,
  -- '/' and blanks; its last word does not have length 1; and a last word of two to four bytes
  -- holds a digit or a keyword.
  pub accepts_lem :
      (text : Bytes) (mode : Mode) (prior : Option Bytes)
      → accepts float (some text) mode prior ≡ true
      → let primary = primary_score_text text 64 in
        AllTrue is_callsign_char text
        × (text ≢ [])
        × (length primary ≢ 1)
        × ((2 ≤ length primary)
            → (length primary ≤ 4)
            → (text_has_digit primary ≡ true) ⊎ (text_contains_keyword primary ≡ true))
  accepts_lem text mode prior h =
      let primary = primary_score_text text 64 in
      let (good, full) = text_has_only_valid_chars_lem text (
        not-false (text_has_only_valid_chars text) (
          refuses text mode prior (not (text_has_only_valid_chars text)) h
            (λ e. invalid-Low text prior (not-true (text_has_only_valid_chars text) e)))) in
      let one = refuses text mode prior (length primary == 1) h (one-Low text prior) in
      let noise = refuses text mode prior (is_noise primary) h (noise-Low text prior) in
      (good, full, ground arith, λ lo hi. no_noise primary lo hi noise)
