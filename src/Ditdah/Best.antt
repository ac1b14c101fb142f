-- ===== src/Ditdah/Best.antt =====
-- What find_best_params (cw-skimmer/src/ditdah_decoder.c) chooses: the pair that costs least.
use cw_skimmer.Prelude.{
  ℕ, zero, suc, ◌+◌, ◌≤◌, ◌<◌, ◌≡◌, refl, ◌∙◌, ◌⊎◌, inl, inr, true, false, List, [], ◌∷◌, none,
  some, arith, length, take, ltb, ℕ_discrete, lt→ltb, Bool-cases,
}
use cw_skimmer.Prelude.Int.{pos}
use cw_skimmer.Libc.Floats.{Floats}
use cw_skimmer.Ditdah.Signal.{max_power}
use cw_skimmer.Ditdah.Params.{
  Best, huge, calculate_cost, positive, candidates, better, try_speeds, try_thresholds,
  find_best_params,
}

abbrev pub Each : {A : Type 0} → (A → Type 0) → List A → Type 0
Each P [] = Unit
Each P (x ∷ xs) = P x × Each P xs

abbrev pub Any : {A : Type 0} → (A → Type 0) → List A → Type 0
Any P [] = ⊥
Any P (x ∷ xs) = P x ⊎ Any P xs

-- what the search relies on in the order of floats (NaN is below nothing and above nothing)
pub record IsOrder {F : Type 0} (float : Floats F) : Type 0 where
  pub irreflexive : (x : F) → float.less x x ≡ false
  pub transitive :
      (x y z : F) → float.less x y ≡ true → float.less y z ≡ true → float.less x z ≡ true

not_less : (m n : ℕ) → n ≤ m → ltb m n ≡ false
not_less m n h = ground arith

module _ {F : Type 0} (float : Floats F) (power : List F) (rate : F) where
  abbrev cost_of : ℕ → F → F
  cost_of w threshold = calculate_cost float power (float.of_int (pos w)) threshold rate

  -- No speed of 5 to 40 costs less with this threshold.
  abbrev pub NoneBelow : F → F → Type 0
  NoneBelow cost threshold =
      (w : ℕ) → 5 ≤ w → w ≤ 40 → float.less (cost_of w threshold) cost ≡ false

  -- The choice is a speed of 5 to 40 with this threshold, and its cost is known.
  abbrev pub Chose : Best F → F → Type 0
  Chose best threshold =
      (w : ℕ) × (5 ≤ w)
      × (w ≤ 40)
      × (best ≡ record {
        cost = cost_of w threshold;
        wpm = float.of_int (pos w);
        threshold = threshold;
      })

  module _ (order : IsOrder float) where
    better-cost :
        (cost wpm threshold : F) (best : Best F) (x : F)
        → float.less x best.cost ≡ false
        → float.less x (better float cost wpm threshold best).cost ≡ false
    unfolding better
    better-cost cost wpm threshold best x h = elim (Bool-cases (float.less cost best.cost)) [
      | inl less ↦ rw less (elim (Bool-cases (float.less x cost)) [
        | inl below ↦ absurd (ground (arith, order.transitive x cost best.cost below less))
        | inr above ↦ above
      ])
      | inr more ↦ rw more h
    ]

    better_self :
        (cost wpm threshold : F) (best : Best F)
        → float.less cost (better float cost wpm threshold best).cost ≡ false
    unfolding better
    better_self cost wpm threshold best = elim (Bool-cases (float.less cost best.cost)) [
      | inl less ↦ rw less (order.irreflexive cost)
      | inr more ↦ rw more more
    ]

    try_speeds-cost :
        (threshold : F) (w n : ℕ) (best : Best F) (x : F)
        → float.less x best.cost ≡ false
        → float.less x (try_speeds float power rate threshold w n best).cost ≡ false
    unfolding try_speeds
    try_speeds-cost threshold w zero best x h = h
    try_speeds-cost threshold w (suc n) best x h =
        try_speeds-cost threshold (w + 1) n _ x
          (better-cost (cost_of w threshold) (float.of_int (pos w)) threshold best x h)

    try_speeds-least :
        (threshold : F) (w n : ℕ) (best : Best F) (v : ℕ)
        → w ≤ v
        → v < w + n
        → float.less (cost_of v threshold) (try_speeds float power rate threshold w n best).cost
          ≡ false
    unfolding try_speeds
    try_speeds-least threshold w zero best v h h' = absurd (omega arith)
    try_speeds-least threshold w (suc n) best v h h' = elim (ℕ_discrete w v) [
      | yes here ↦
          try_speeds-cost threshold (w + 1) n _ (cost_of v threshold)
            (rw here (better_self (cost_of v threshold) (float.of_int (pos v)) threshold best))
      | no later ↦ try_speeds-least threshold (w + 1) n _ v (omega arith) (omega arith)
    ]

    try_thresholds-cost :
        (ts : List F) (best : Best F) (x : F)
        → float.less x best.cost ≡ false
        → float.less x (try_thresholds float power rate ts best).cost ≡ false
    unfolding try_thresholds
    try_thresholds-cost [] best x h = h
    try_thresholds-cost (t ∷ ts) best x h =
        try_thresholds-cost ts _ x (try_speeds-cost t 5 36 best x h)

    try_thresholds-least :
        (ts : List F) (best : Best F)
        → Each (NoneBelow (try_thresholds float power rate ts best).cost) ts
    unfolding try_thresholds
    try_thresholds-least [] best = tt
    try_thresholds-least (t ∷ ts) best = (
      λ v h h'.
          try_thresholds-cost ts _ (cost_of v t) (try_speeds-least t 5 36 best v h (omega arith)),
      try_thresholds-least ts (try_speeds float power rate t 5 36 best),
    )

  try_speeds-Chose :
      (threshold : F) (w n : ℕ) (best : Best F)
      → 5 ≤ w
      → w + n ≤ 41
      → (try_speeds float power rate threshold w n best ≡ best)
        ⊎ Chose (try_speeds float power rate threshold w n best) threshold
  unfolding try_speeds better
  try_speeds-Chose threshold w zero best h h' = inl refl
  try_speeds-Chose threshold w (suc n) best h h' =
      elim (Bool-cases (float.less (cost_of w threshold) best.cost)) [
        | inl less ↦
            rw less
              (elim (try_speeds-Chose threshold (w + 1) n
                (record {
                  cost = cost_of w threshold;
                  wpm = float.of_int (pos w);
                  threshold = threshold;
                })
                (omega arith) (omega arith)) [
                  | inl same ↦ inr (w, h, omega arith, same)
                  | inr later ↦ inr later
                ])
        | inr more ↦ rw more (try_speeds-Chose threshold (w + 1) n best (omega arith) (omega arith))
      ]

  try_thresholds-Chose :
      (ts : List F) (best : Best F)
      → (try_thresholds float power rate ts best ≡ best)
        ⊎ Any (Chose (try_thresholds float power rate ts best)) ts
  unfolding try_thresholds
  try_thresholds-Chose [] best = inl refl
  try_thresholds-Chose (t ∷ ts) best =
      elim (try_thresholds-Chose ts (try_speeds float power rate t 5 36 best)) [
        | inl same ↦ elim (try_speeds-Chose t 5 36 best (omega arith) (omega arith)) [
          | inl kept ↦ inl (same ∙ kept)
          | inr (w, low, high, chosen) ↦ inr (inl (w, low, high, same ∙ chosen))
        ]
        | inr later ↦ inr (inr later)
      ]

  abbrev pub thresholds : F × F × F → List F
  thresholds (low, middle, high) = low ∷ middle ∷ high ∷ []

  abbrev pub at_first : F × F × F → Best F
  at_first (low, middle, high) = record {
    cost = huge float;
    wpm = float.dec 20 0;
    threshold = middle;
  }

  -- the samples that are counted
  abbrev pub counted : List F
  counted = take max_power (positive float power)

  abbrev pub tried : F × F × F
  tried = candidates float (float.sort counted)

  -- Of a signal with at least ten samples above 0, the speed and the threshold chosen cost least: no speed
  -- of 5 to 40 and no candidate cost less. They are such a pair with its cost, or, where no pair costs
  -- less than 1e30, they are 20 and the middle candidate. Of another signal there is none. Of floats
  -- it is asked that their order is irreflexive and transitive.
  pub find_best_params_lem :
      IsOrder float
      → (length counted < 10 → find_best_params float power rate ≡ none)
        × (10 ≤ length counted
            → (best : Best F) × (find_best_params float power rate
                ≡ some (best.wpm, best.threshold))
              × Each (NoneBelow best.cost) (thresholds tried)
              × ((best ≡ at_first tried) ⊎ Any (Chose best) (thresholds tried)))
  unfolding find_best_params
  find_best_params_lem order = (
    λ few. rw (lt→ltb (length counted) 10 few) refl,
    λ many. (
      try_thresholds float power rate (thresholds tried) (at_first tried),
      rw (not_less (length counted) 10 many) refl,
      try_thresholds-least order (thresholds tried) (at_first tried),
      try_thresholds-Chose (thresholds tried) (at_first tried),
    ),
  )
