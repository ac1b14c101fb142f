-- ===== src/Ditdah/Marks.antt =====
-- The loop over the samples of `decode_with_params` (cw-skimmer/src/ditdah_decoder.c), on a signal of marks: it
-- handles each interval once, when it ends.
use cw_skimmer.Prelude.{
  ℕ, zero, suc, ◌+◌, ◌<◌, ◌≡◌, refl, ap, ◌∙◌, Bool, true, false, List, [], ◌∷◌, ◌++◌, append_assoc,
  arith, replicate,
}
use cw_skimmer.Libc.Floats.{Floats}
use cw_skimmer.Ditdah.Letters.{Letters, end_of_interval, read_samples}
use cw_skimmer.Ditdah.Keying.{keyed}

abbrev pub AllPositive : List (ℕ × ℕ) → Type 0
AllPositive [] = Unit
AllPositive ((on, off) ∷ marks) = (0 < on) × (0 < off) × AllPositive marks

module _ {F : Type 0} (float : Floats F) (out_max : ℕ) (dot : F) where
  -- The reference: behind an off interval of `k` samples that has not ended, the marks one by one.
  abbrev pub fold_marks : ℕ → Letters → List (ℕ × ℕ) → Letters
  fold_marks k st [] = st
  fold_marks k st ((on, off) ∷ marks) =
      fold_marks off
        (end_of_interval float out_max dot true on (end_of_interval float out_max dot false k st))
        marks

  read_on :
      (a k : ℕ) (st : Letters) (rest : List Bool)
      → read_samples float out_max dot true k st (replicate a true ++ rest)
        ≡ read_samples float out_max dot true (k + a) st rest
  unfolding read_samples
  read_on zero k st rest = ap (λ n. read_samples float out_max dot true n st rest) (omega arith)
  read_on (suc a) k st rest =
      read_on a (k + 1) st rest
      ∙ ap (λ n. read_samples float out_max dot true n st rest) (omega arith)

  pub read_off :
      (a k : ℕ) (st : Letters) (rest : List Bool)
      → read_samples float out_max dot false k st (replicate a false ++ rest)
        ≡ read_samples float out_max dot false (k + a) st rest
  unfolding read_samples
  read_off zero k st rest = ap (λ n. read_samples float out_max dot false n st rest) (omega arith)
  read_off (suc a) k st rest =
      read_off a (k + 1) st rest
      ∙ ap (λ n. read_samples float out_max dot false n st rest) (omega arith)

  read_mark :
      (a b k : ℕ) (st : Letters) (rest : List Bool)
      → 0 < a
      → 0 < b
      → read_samples float out_max dot false k st (replicate a true ++ (replicate b false ++ rest))
        ≡ read_samples float out_max dot false b
            (end_of_interval float out_max dot true a
              (end_of_interval float out_max dot false k st))
            rest
  unfolding read_samples
  read_mark zero b k st rest h h' = absurd (omega arith)
  read_mark (suc a) zero k st rest h h' = absurd (omega arith)
  read_mark (suc a) (suc b) k st rest h h' =
      let before : Letters = end_of_interval float out_max dot false k st in
      read_on a 1 before (replicate (suc b) false ++ rest)
      ∙ read_off b 1 (end_of_interval float out_max dot true (1 + a) before) rest
      ∙ ap
          (λ n.
            read_samples float out_max dot false (1 + b)
              (end_of_interval float out_max dot true n before) rest)
          {x = 1 + a} {y = suc a} (omega arith)
      ∙ ap
          (λ n.
            read_samples float out_max dot false n
              (end_of_interval float out_max dot true (suc a) before) rest)
          {x = 1 + b} {y = suc b} (omega arith)

  -- On marks, with one sample of silence behind them, the loop does what the reference does.
  pub read_samples-marks :
      (k : ℕ) (st : Letters) (marks : List (ℕ × ℕ))
      → AllPositive marks
      → read_samples float out_max dot false k st (keyed marks ++ false ∷ [])
        ≡ fold_marks k st marks
  unfolding read_samples
  read_samples-marks k st [] h = refl
  read_samples-marks k st ((a, b) ∷ marks) (ha, hb, h) =
      ap (read_samples float out_max dot false k st) (
        append_assoc (replicate a true) (replicate b false ++ keyed marks) (false ∷ [])
        ∙ ap (◌++◌ (replicate a true))
            (append_assoc (replicate b false) (keyed marks) (false ∷ [])))
      ∙ read_mark a b k st (keyed marks ++ false ∷ []) ha hb
      ∙ read_samples-marks b _ marks h
