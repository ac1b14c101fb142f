-- ===== src/Ditdah/Params.antt =====
-- The search for the speed and the threshold: calculate_cost and find_best_params of
-- cw-skimmer/src/ditdah_decoder.c.
use cw_skimmer.Prelude.{
  ℕ, zero, suc, ◌+◌, ◌/◌, ◌^◌, ◌||◌, List, [], ◌∷◌, ◌++◌, Option, none, some, length, take, get_or,
  ltb, leb, if◌then◌else◌,
}
use cw_skimmer.Prelude.Int.{pos, pos_part}
use cw_skimmer.Libc.Floats.{Floats}
use cw_skimmer.Ditdah.Signal.{max_power, get_raw_intervals}

-- the local variables of `find_best_params`: the best cost so far, its speed and its threshold
pub record Best (F : Type 0) : Type 0 where
  pub cost : F
  pub wpm : F
  pub threshold : F

module _ {F : Type 0} (float : Floats F) where
  -- 1e30f
  abbrev pub huge : F
  huge = float.dec (10 ^ 30) 0

  abbrev lesser : F → F → F
  lesser x y = if float.less x y then x else y

  -- (ratio - k)²
  abbrev square_to : F → ℕ → F
  square_to ratio k = let r = float.sub ratio (float.dec k 0) in float.mul r r

  -- the cost of an on length, and of an off length
  unfoldable pub on_cost : F → F → F
  on_cost median x =
      let ratio = float.div x median in lesser (square_to ratio 1) (square_to ratio 3)

  unfoldable pub off_cost : F → F → F
  off_cost median x =
      let ratio = float.div x median in
      lesser (square_to ratio 7) (lesser (square_to ratio 3) (square_to ratio 1))

  -- a loop that adds
  abbrev pub sum_from : (F → F) → F → List F → F
  sum_from cost sum [] = sum
  sum_from cost sum (x ∷ xs) = sum_from cost (float.add sum (cost x)) xs

  -- the items below 2
  abbrev pub short_of : List F → List F
  short_of [] = []
  short_of (x ∷ xs) =
      let rest = short_of xs in if float.less x (float.dec 2 0) then x ∷ rest else rest

  -- `lens[i] / dot_len_samples`
  abbrev pub norms : F → List ℕ → List F
  norms dot [] = []
  norms dot (n ∷ ns) = float.div (float.of_int (pos n)) dot ∷ norms dot ns

  -- behind the choice of the median
  unfoldable pub mean_cost : F → List F → List F → F
  mean_cost median on_norm off_norm =
      float.add
        (float.div (sum_from (on_cost median) (float.dec 0 0) on_norm)
          (float.of_int (pos (length on_norm))))
        (float.div (sum_from (off_cost median) (float.dec 0 0) off_norm)
          (float.of_int (pos (length off_norm))))

  -- of the lengths in dots
  unfoldable pub cost_of_norms : List F → List F → F
  unfolding mean_cost
  cost_of_norms on_norm off_norm =
      let short = short_of on_norm ++ short_of off_norm in
      let median = get_or (float.sort short) (length short / 2) (float.dec 0 0) in
      if leb (length short) 0 || float.less median (float.dec 25 2)
      then huge
      else mean_cost median on_norm off_norm

  unfoldable pub calculate_cost : List F → F → F → F → F
  unfolding cost_of_norms
  calculate_cost power wpm threshold rate =
      let iv = get_raw_intervals float power threshold in
      let dot =
        float.mul (float.div (float.div (float.dec 1_200 0) wpm) (float.dec 1_000 0)) rate in
      if ltb (length iv.on) 3 || ltb (length iv.off) 3 || float.less dot (float.dec 1 0)
      then huge
      else cost_of_norms (norms dot iv.on) (norms dot iv.off)

  -- the samples above 0
  abbrev pub positive : List F → List F
  positive [] = []
  positive (x ∷ xs) =
      let rest = positive xs in if float.less (float.dec 0 0) x then x ∷ rest else rest

  -- `sorted[(int)((float)sorted_n * q)]`
  abbrev quantile : List F → F → F
  quantile sorted q =
      get_or sorted (pos_part (float.to_int (float.mul (float.of_int (pos (length sorted))) q)))
        (float.dec 0 0)

  -- the threshold a given part of the way between the quartiles
  abbrev candidate : F → F → F → F
  candidate p25 iqr part = float.add p25 (float.mul iqr part)

  -- the candidates: the first, the one that is taken when nothing is better, the last
  unfoldable pub candidates : List F → F × F × F
  candidates sorted =
      let p25 = quantile sorted (float.dec 25 2) in
      let iqr = float.sub (quantile sorted (float.dec 75 2)) p25 in
      (
        candidate p25 iqr (float.dec 25 2),
        candidate p25 iqr (float.dec 50 2),
        candidate p25 iqr (float.dec 75 2),
      )

  -- one round: a cost, of a speed and a threshold
  unfoldable pub better : F → F → F → Best F → Best F
  better cost wpm threshold best =
      if float.less cost best.cost
      then record { cost = cost; wpm = wpm; threshold = threshold }
      else best

  -- the loop over `n` speeds, from `wpm_int` on
  unfoldable pub try_speeds : List F → F → F → ℕ → ℕ → Best F → Best F
  unfolding better
  try_speeds power rate threshold wpm_int zero best = best
  try_speeds power rate threshold wpm_int (suc n) best =
      let wpm = float.of_int (pos wpm_int) in
      try_speeds power rate threshold (wpm_int + 1) n
        (better (calculate_cost power wpm threshold rate) wpm threshold best)

  -- the loop over the candidates: the speeds 5 to 40 for each
  unfoldable pub try_thresholds : List F → F → List F → Best F → Best F
  unfolding try_speeds
  try_thresholds power rate [] best = best
  try_thresholds power rate (threshold ∷ rest) best =
      try_thresholds power rate rest (try_speeds power rate threshold 5 36 best)

  -- `find_best_params`, of a signal that is not NULL: the speed and the threshold
  unfoldable pub find_best_params : List F → F → Option (F × F)
  unfolding candidates try_thresholds
  find_best_params power rate =
      let sorted = take max_power (positive power) in
      let (low, middle, high) = candidates (float.sort sorted) in
      let best =
        try_thresholds power rate (low ∷ middle ∷ high ∷ [])
          (record { cost = huge; wpm = float.dec 20 0; threshold = middle }) in
      if ltb (length sorted) 10 then none else some (best.wpm, best.threshold)
