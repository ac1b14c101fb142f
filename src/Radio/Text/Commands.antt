-- ===== src/Radio/Text/Commands.antt =====
-- The commands of cw-skimmer/src/radio_control.c for a tuning, a text and a keying speed.
use cw_skimmer.Prelude.{
  ℕ, suc, ◌+◌, ◌-◌, ◌^◌, ◌≤◌, ◌<◌, ◌≡◌, refl, true, [], ◌∷◌, ◌++◌, ◌≢◌, some, arith, length,
  length-append, take_of_le, inl, inr, Bool-cases, if◌then◌else◌,
}
use cw_skimmer.Prelude.Int.{ℤ, pos, negsuc, pos_part, ◌≤ℤ◌}
use cw_skimmer.Prelude.Bytes.{Bytes, codes}
use cw_skimmer.Libc.Print.{show_int, show_nat, length-show_nat}
use cw_skimmer.Radio.Text.{
  text_size, clamp_wpm, sanitize_from, is_frequency, receiver, dds_text, vfo_text, format_tune,
  macro_text, macro_of_clean, format_cw_macro, keyer_text, macros_text, format_wpm,
}
use cw_skimmer.Radio.Text.Sanitize.{length-sanitize_from}

-- A number that is not negative and has at most `k + 1` digits prints in that many bytes.
length-show_int :
    (k : ℕ) (i : ℤ) → pos 0 ≤ℤ i → pos_part i < 10 ^ suc k → length (show_int i) ≤ suc k
unfolding show_int
length-show_int k (pos n) h l = length-show_nat k n l
length-show_int k (negsuc n) h l = absurd (omega arith)

length-dds_text :
    (rx hz : ℤ)
    → pos 0 ≤ℤ rx
    → pos_part rx < 2 ^ 31
    → pos 0 ≤ℤ hz
    → pos_part hz < 10 ^ 10
    → length (dds_text rx hz) ≤ 26
unfolding dds_text
length-dds_text rx hz h0 h1 h2 h3 = omega (
  arith,
  length-show_int 9 rx h0 (omega arith),
  length-show_int 9 hz h2 h3,
  length-append (show_int rx) (b',' ∷ (show_int hz ++ (b';' ∷ []))),
  length-append (show_int hz) (b';' ∷ []),
)

length-vfo_text :
    (rx hz : ℤ)
    → pos 0 ≤ℤ rx
    → pos_part rx < 2 ^ 31
    → pos 0 ≤ℤ hz
    → pos_part hz < 10 ^ 10
    → length (vfo_text rx hz) ≤ 28
unfolding vfo_text
length-vfo_text rx hz h0 h1 h2 h3 = omega (
  arith,
  length-show_int 9 rx h0 (omega arith),
  length-show_int 9 hz h2 h3,
  length-append (show_int rx) (codes ",0," ++ (show_int hz ++ (b';' ∷ []))),
  length-append (show_int hz) (b';' ∷ []),
)

receiver_bounds :
    (rx : ℤ) → pos_part rx < 2 ^ 31 → (pos 0 ≤ℤ receiver rx) × (pos_part (receiver rx) < 2 ^ 31)
receiver_bounds rx h = ground arith

pub is_frequency_bounds :
    (hz : ℤ) → is_frequency hz ≡ true → (pos 0 ≤ℤ hz) × (pos_part hz < 10 ^ 10)
unfolding is_frequency
is_frequency_bounds hz h = ground arith

-- For a receiver number that is an `int`, a frequency between 100 kHz and 6 GHz, and buffers of the
-- sizes that the function asks for, it returns 0 and both commands in full: neither is cut off by
-- `snprintf`. At any other frequency it returns -1 and writes nothing.
pub format_tune_lem :
    (rx hz : ℤ) (dds vfo : Bytes) (dds_max vfo_max : ℕ)
    → pos_part rx < 2 ^ 31
    → 32 ≤ dds_max
    → 40 ≤ vfo_max
    → format_tune rx hz (some dds) dds_max (some vfo) vfo_max ≡ (
        if is_frequency hz
        then (pos 0, some (dds_text (receiver rx) hz), some (vfo_text (receiver rx) hz))
        else (negsuc 0, some dds, some vfo))
unfolding format_tune
format_tune_lem rx hz dds vfo dds_max vfo_max hr hd hv = elim (Bool-cases (is_frequency hz)) [
  | inl good ↦
      let (lo, hi) = is_frequency_bounds hz good in
      let (r0, r1) = receiver_bounds rx hr in
      let short_dds = length-dds_text (receiver rx) hz r0 r1 lo hi in
      let short_vfo = length-vfo_text (receiver rx) hz r0 r1 lo hi in
      ground (
        arith,
        take_of_le (dds_max - 1) (dds_text (receiver rx) hz) (omega arith),
        take_of_le (vfo_max - 1) (vfo_text (receiver rx) hz) (omega arith),
      )
  | inr bad ↦ rw bad
]

length-macro_text :
    (rx : ℤ) (s : Bytes)
    → pos 0 ≤ℤ rx
    → pos_part rx < 2 ^ 31
    → length (macro_text rx s) ≤ 22 + length s
unfolding macro_text
length-macro_text rx s h0 h1 = omega (
  arith,
  length-show_int 9 rx h0 (omega arith),
  length-append (show_int rx) (b',' ∷ (s ++ (b';' ∷ []))),
  length-append s (b';' ∷ []),
)

macro_of_clean_lem :
    (rx : ℤ) (s : Bytes) (cmd_max : ℕ)
    → length (macro_text rx s) < cmd_max
    → s ≢ []
    → macro_of_clean rx (pos (length s)) s cmd_max ≡ (pos (length s), some (macro_text rx s))
unfolding macro_of_clean
macro_of_clean_lem rx [] cmd_max h ne = absurd (ne refl)
macro_of_clean_lem rx (c ∷ s) cmd_max h ne = ground arith

length_pos : (s : Bytes) → s ≢ [] → 0 < length s
length_pos [] ne = absurd (ne refl)
length_pos (c ∷ s) ne = omega arith

-- A text that holds a byte for the keyer, and a buffer as large as the one that
-- `radio_control_service` passes: the macro is written in full with the cleaned text in it, and the
-- function returns the length of the cleaned text, which is positive.
pub format_cw_macro_lem :
    (rx : ℤ) (s cmd : Bytes) (cmd_max : ℕ)
    → pos_part rx < 2 ^ 31
    → text_size + 32 ≤ cmd_max
    → sanitize_from s (text_size - 1) ≢ []
    → let clean = sanitize_from s (text_size - 1) in
      (format_cw_macro rx (some s) (some cmd) cmd_max
        ≡ (pos (length clean), some (macro_text (receiver rx) clean)))
      × (0 < length clean)
unfolding format_cw_macro
format_cw_macro_lem rx s cmd cmd_max hr hc ne =
    let clean : Bytes = sanitize_from s (text_size - 1) in
    let (r0, r1) = receiver_bounds rx hr in
    let short = length-macro_text (receiver rx) clean r0 r1 in
    let room = length-sanitize_from s (text_size - 1) in
    (
      ground (arith, macro_of_clean_lem (receiver rx) clean cmd_max (omega arith) ne),
      length_pos clean ne,
    )

length-keyer_text : (n : ℕ) → n ≤ 60 → length (keyer_text (pos n)) ≤ 18
unfolding keyer_text show_int
length-keyer_text n h =
    omega (arith, length-show_nat 1 n (omega arith), length-append (show_nat n) (b';' ∷ []))

length-macros_text : (n : ℕ) → n ≤ 60 → length (macros_text (pos n)) ≤ 19
unfolding macros_text show_int
length-macros_text n h =
    omega (arith, length-show_nat 1 n (omega arith), length-append (show_nat n) (b';' ∷ []))

pub clamp_wpm_bounds : (wpm : ℤ) → (pos 5 ≤ℤ clamp_wpm wpm) × (clamp_wpm wpm ≤ℤ pos 60)
unfolding clamp_wpm
clamp_wpm_bounds wpm = ground arith

-- What a clamped speed prints.
clamp_wpm_pos : (wpm : ℤ) → (n : ℕ) × (clamp_wpm wpm ≡ pos n) × (5 ≤ n) × (n ≤ 60)
clamp_wpm_pos wpm = split (clamp_wpm wpm) refl
  where
    split : (w : ℤ) → clamp_wpm wpm ≡ w → (n : ℕ) × (clamp_wpm wpm ≡ pos n) × (5 ≤ n) × (n ≤ 60)
    split (pos n) e =
        let (lo, hi) = rw e at (clamp_wpm_bounds wpm) in (n, e, omega arith, omega arith)
    split (negsuc n) e = let (lo, hi) = rw e at (clamp_wpm_bounds wpm) in absurd (omega arith)

-- With buffers of the sizes that the function asks for, any speed is clamped to 5..60 words a minute,
-- and that is the number returned and the one in both commands, neither of which is cut off.
pub format_wpm_lem :
    (wpm : ℤ) (keyer macros : Bytes) (keyer_max macros_max : ℕ)
    → 24 ≤ keyer_max
    → 28 ≤ macros_max
    → (n : ℕ) × (5 ≤ n)
      × (n ≤ 60)
      × (clamp_wpm wpm ≡ pos n)
      × (format_wpm wpm (some keyer) keyer_max (some macros) macros_max
          ≡ (pos n, some (keyer_text (pos n)), some (macros_text (pos n))))
unfolding format_wpm
format_wpm_lem wpm keyer macros keyer_max macros_max hk hm =
    let (n, e, lo, hi) = clamp_wpm_pos wpm in
    (
      n,
      lo,
      hi,
      e,
      ground (
        arith,
        take_of_le (keyer_max - 1) (keyer_text (pos n)) (omega (arith, length-keyer_text n hi)),
        take_of_le (macros_max - 1) (macros_text (pos n)) (omega (arith, length-macros_text n hi)),
      ),
    )
