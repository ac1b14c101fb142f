-- ===== src/Ditdah/Signal.antt =====
-- The power signal of cw-skimmer/src/ditdah_decoder.c: its on and off intervals, the moving average, the
-- Goertzel filter and the search for the speed and the threshold. A buffer with its length is a list.
use cw_skimmer.Prelude.{
  ℕ, zero, suc, ◌+◌, Bool, true, false, not, List, [], ◌∷◌, ◌++◌, length, take, drop, get_or, ltb,
  leb, if◌then◌else◌,
}
use cw_skimmer.Prelude.Int.{pos}
use cw_skimmer.Libc.Floats.{Floats}
use cw_skimmer.Ditdah.{max_intervals}

-- DITDAH_TARGET_SAMPLE_RATE and MAX_POWER_SAMPLES
abbrev pub target_rate : ℕ
target_rate = 12_000

abbrev pub max_power : ℕ
max_power = 8_192

-- `a == b`, of two tests
abbrev pub same : Bool → Bool → Bool
same true b = b
same false b = not b

-- the lengths of the intervals above the threshold, and of those below
pub record Intervals : Type 0 where
  pub on : List ℕ
  pub off : List ℕ

-- an interval that ends; behind 512 of its kind it is left out
unfoldable pub end_interval : Bool → ℕ → Intervals → Intervals
end_interval true len iv =
    if ltb (length iv.on) max_intervals then record iv { on = iv.on ++ len ∷ [] } else iv
end_interval false len iv =
    if ltb (length iv.off) max_intervals then record iv { off = iv.off ++ len ∷ [] } else iv

-- The loop of `get_raw_intervals`, on whether each sample is above the threshold.
unfoldable pub intervals_from : Bool → ℕ → Intervals → List Bool → Intervals
intervals_from is_on current_len iv [] = end_interval is_on current_len iv
intervals_from is_on current_len iv (above ∷ rest) =
    let keeps = same above is_on in
    intervals_from (if keeps then is_on else not is_on) (if keeps then current_len + 1 else 1)
      (if keeps then iv else end_interval is_on current_len iv) rest

abbrev pub no_intervals : Intervals
no_intervals = record { on = []; off = [] }

unfoldable pub intervals_of : List Bool → Intervals
unfolding intervals_from
intervals_of [] = no_intervals
intervals_of (above ∷ rest) = intervals_from above 0 no_intervals (above ∷ rest)

module _ {F : Type 0} (float : Floats F) where
  -- `power_signal[i] > threshold`, for each sample
  abbrev pub above : F → List F → List Bool
  above threshold [] = []
  above threshold (p ∷ ps) = float.less threshold p ∷ above threshold ps

  -- `get_raw_intervals`
  unfoldable pub get_raw_intervals : List F → F → Intervals
  get_raw_intervals power threshold = intervals_of (above threshold power)

  -- the loop of `moving_average`, with the window's samples, oldest first
  unfoldable pub average_from : ℕ → F → List F → List F → List F
  average_from window sum held [] = []
  average_from window sum held (x ∷ rest) =
      let full = leb window (length held) in
      let sum' = float.add sum x in
      let sum'' = if full then float.sub sum' (get_or held 0 x) else sum' in
      let held' = (if full then drop 1 held else held) ++ x ∷ [] in
      float.div sum'' (float.of_int (pos (length held'))) ∷ average_from window sum'' held' rest

  -- `moving_average`, with room for `out_max` values
  unfoldable pub moving_average : List F → ℕ → ℕ → List F
  moving_average samples window out_max =
      if leb window 1
      then take out_max samples
      else take out_max (average_from window (float.dec 0 0) [] samples)

  -- `goertzel_run`: the two values of the recursion, over the samples and the window
  unfoldable pub goertzel_from : F → F → F → List F → List F → F × F
  goertzel_from coeff q1 q2 samples [] = (q1, q2)
  goertzel_from coeff q1 q2 [] (w ∷ window) = (q1, q2)
  goertzel_from coeff q1 q2 (x ∷ samples) (w ∷ window) =
      goertzel_from coeff (float.add (float.sub (float.mul coeff q1) q2) (float.mul x w)) q1 samples
        window

  unfoldable pub goertzel_run : F → List F → List F → F
  goertzel_run coeff window samples =
      let (q1, q2) = goertzel_from coeff (float.dec 0 0) (float.dec 0 0) samples window in
      float.sub (float.add (float.mul q1 q1) (float.mul q2 q2)) (float.mul (float.mul coeff q1) q2)

  -- the loop of `goertzel_process_decimated`, with room for `room` more values, on what stands from `i` on
  unfoldable pub goertzel_process : ℕ → F → List F → ℕ → List F → List F
  goertzel_process zero coeff window step samples = []
  goertzel_process (suc room) coeff window step samples =
      let rest = goertzel_process room coeff window step (drop step samples) in
      if leb (length window) (length samples) then goertzel_run coeff window samples ∷ rest else []

  unfoldable pub goertzel_process_decimated : F → List F → List F → ℕ → ℕ → List F
  goertzel_process_decimated coeff window samples step out_max =
      if leb step 0 then [] else goertzel_process out_max coeff window step samples

  -- `goertzel_init`: the coefficient and the Hamming window
  abbrev two_pi : F
  two_pi = float.mul (float.dec 2 0) float.pi

  unfoldable pub goertzel_coeff : F → ℕ → F
  goertzel_coeff target_freq window_size =
      let size = float.of_int (pos window_size) in
      let k =
        float.add (float.dec 5 1)
          (float.div (float.mul size target_freq) (float.of_int (pos target_rate))) in
      float.mul (float.dec 2 0) (float.cos (float.div (float.mul two_pi k) size))

  unfoldable pub hamming_from : ℕ → ℕ → ℕ → List F
  hamming_from size i zero = []
  hamming_from size i (suc n) =
      float.sub (float.dec 54 2) (
        float.mul (float.dec 46 2) (
          float.cos
            (float.div (float.mul two_pi (float.of_int (pos i))) (float.of_int (pos size)))))
      ∷ hamming_from size (i + 1) n

  unfoldable pub goertzel_window : ℕ → List F
  goertzel_window size = hamming_from size 0 size
