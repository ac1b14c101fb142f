-- ===== src/Ditdah/Runs.antt =====
-- The intervals that `get_raw_intervals` (cw-skimmer/src/ditdah_decoder.c) finds, against the run lengths of
-- the signal.
use cw_skimmer.Prelude.{
  ℕ, zero, suc, ◌+◌, ◌≤◌, ◌≡◌, refl, sym, ap, ap₂, ◌∙◌, Bool, true, false, not, List, [], ◌∷◌, ◌++◌,
  append_assoc, append-nil, arith, length, length-append, take, take_of_le, ltb, inl, inr,
  Bool-cases, if◌then◌else◌,
}
use cw_skimmer.Ditdah.{max_intervals}
use cw_skimmer.Ditdah.Signal.{
  same, Intervals, end_interval, intervals_from, no_intervals, intervals_of,
}

-- The run lengths of a signal, from its end on.
abbrev pub add_to : Bool → List (Bool × ℕ) → List (Bool × ℕ)
add_to b [] = (b, 1) ∷ []
add_to b ((c, n) ∷ runs) = if same b c then (c, n + 1) ∷ runs else (b, 1) ∷ (c, n) ∷ runs

abbrev pub runs_of : List Bool → List (Bool × ℕ)
runs_of [] = []
runs_of (b ∷ bs) = add_to b (runs_of bs)

-- the lengths of the runs of one kind
abbrev pub lengths : Bool → List (Bool × ℕ) → List ℕ
lengths b [] = []
lengths b ((c, n) ∷ runs) = let rest = lengths b runs in if same b c then n ∷ rest else rest

-- a run of `k` samples that is still open, before the runs of the rest
abbrev merge : Bool → ℕ → List (Bool × ℕ) → List (Bool × ℕ)
merge b k [] = (b, k) ∷ []
merge b k ((c, n) ∷ runs) = if same b c then (c, k + n) ∷ runs else (b, k) ∷ (c, n) ∷ runs

abbrev fold_runs : Intervals → List (Bool × ℕ) → Intervals
fold_runs iv [] = iv
fold_runs iv ((b, n) ∷ runs) = fold_runs (end_interval b n iv) runs

merge-suc :
    (b : Bool) (k : ℕ) (runs : List (Bool × ℕ)) → merge b (k + 1) runs ≡ merge b k (add_to b runs)
merge-suc true k [] = refl
merge-suc false k [] = refl
merge-suc true k ((true, n) ∷ runs) = ap (λ m. (true, m) ∷ runs) (omega arith)
merge-suc false k ((false, n) ∷ runs) = ap (λ m. (false, m) ∷ runs) (omega arith)
merge-suc true k ((false, n) ∷ runs) = refl
merge-suc false k ((true, n) ∷ runs) = refl

merge-one : (b : Bool) (runs : List (Bool × ℕ)) → merge b 1 runs ≡ add_to b runs
merge-one b [] = refl
merge-one true ((true, n) ∷ runs) = ap (λ m. (true, m) ∷ runs) (omega arith)
merge-one false ((false, n) ∷ runs) = ap (λ m. (false, m) ∷ runs) (omega arith)
merge-one true ((false, n) ∷ runs) = refl
merge-one false ((true, n) ∷ runs) = refl

merge-zero : (b : Bool) (runs : List (Bool × ℕ)) → merge b 0 (add_to b runs) ≡ add_to b runs
merge-zero b runs = sym (merge-suc b 0 runs) ∙ merge-one b runs

merge-other :
    (b : Bool) (k : ℕ) (runs : List (Bool × ℕ))
    → merge b k (add_to (not b) runs) ≡ (b, k) ∷ add_to (not b) runs
merge-other true k [] = refl
merge-other false k [] = refl
merge-other true k ((true, n) ∷ runs) = refl
merge-other true k ((false, n) ∷ runs) = refl
merge-other false k ((true, n) ∷ runs) = refl
merge-other false k ((false, n) ∷ runs) = refl

intervals_from-runs :
    (b : Bool) (k : ℕ) (iv : Intervals) (bs : List Bool)
    → intervals_from b k iv bs ≡ fold_runs iv (merge b k (runs_of bs))
unfolding intervals_from
intervals_from-runs b k iv [] = refl
intervals_from-runs true k iv (true ∷ bs) =
    intervals_from-runs true (k + 1) iv bs ∙ ap (fold_runs iv) (merge-suc true k (runs_of bs))
intervals_from-runs false k iv (false ∷ bs) =
    intervals_from-runs false (k + 1) iv bs ∙ ap (fold_runs iv) (merge-suc false k (runs_of bs))
intervals_from-runs true k iv (false ∷ bs) =
    intervals_from-runs false 1 (end_interval true k iv) bs
    ∙ ap (fold_runs (end_interval true k iv)) (merge-one false (runs_of bs))
    ∙ ap (fold_runs iv) (sym (merge-other true k (runs_of bs)))
intervals_from-runs false k iv (true ∷ bs) =
    intervals_from-runs true 1 (end_interval false k iv) bs
    ∙ ap (fold_runs (end_interval false k iv)) (merge-one true (runs_of bs))
    ∙ ap (fold_runs iv) (sym (merge-other false k (runs_of bs)))

take-whole : (n : ℕ) (xs rest : List ℕ) → length xs ≡ n → take n (xs ++ rest) ≡ xs
take-whole zero [] rest h = refl
take-whole zero (x ∷ xs) rest h = absurd (omega arith)
take-whole (suc n) [] rest h = absurd (omega arith)
take-whole (suc n) (x ∷ xs) rest h = ap (◌∷◌ x) (take-whole n xs rest (omega arith))

abbrev bounded : List ℕ → ℕ → List ℕ
bounded xs n = if ltb (length xs) max_intervals then xs ++ n ∷ [] else xs

end_interval-on :
    (n : ℕ) (iv : Intervals)
    → end_interval true n iv ≡ record { on = bounded iv.on n; off = iv.off }
unfolding end_interval
end_interval-on n iv = elim (Bool-cases (ltb (length iv.on) max_intervals)) [
  | inl room ↦ rw room refl
  | inr full ↦ rw full refl
]

end_interval-off :
    (n : ℕ) (iv : Intervals)
    → end_interval false n iv ≡ record { on = iv.on; off = bounded iv.off n }
unfolding end_interval
end_interval-off n iv = elim (Bool-cases (ltb (length iv.off) max_intervals)) [
  | inl room ↦ rw room refl
  | inr full ↦ rw full refl
]

-- a bounded append is a part of an unbounded one
take-bounded :
    (xs : List ℕ) (n : ℕ) (rest : List ℕ)
    → length xs ≤ max_intervals
    → take max_intervals ((bounded xs n) ++ rest) ≡ take max_intervals (xs ++ n ∷ rest)
take-bounded xs n rest h = elim (Bool-cases (ltb (length xs) max_intervals)) [
  | inl room ↦ rw room (ap (take max_intervals) (append_assoc xs (n ∷ []) rest))
  | inr full ↦ rw full (
      take-whole max_intervals xs rest (ground arith)
      ∙ sym (take-whole max_intervals xs (n ∷ rest) (ground arith)))
]

length-bounded :
    (xs : List ℕ) (n : ℕ) → length xs ≤ max_intervals → length (bounded xs n) ≤ max_intervals
length-bounded xs n h = ground (arith, length-append xs (n ∷ []))

fold_runs-lengths :
    (iv : Intervals) (runs : List (Bool × ℕ))
    → length iv.on ≤ max_intervals
    → length iv.off ≤ max_intervals
    → fold_runs iv runs ≡ record {
      on = take max_intervals (iv.on ++ lengths true runs);
      off = take max_intervals (iv.off ++ lengths false runs);
    }
fold_runs-lengths iv [] h h' =
    ap₂ (λ on off. record { on = on; off = off }) (whole iv.on h) (whole iv.off h')
  where
    whole : (xs : List ℕ) → length xs ≤ max_intervals → xs ≡ take max_intervals (xs ++ [])
    whole xs l = sym (ap (take max_intervals) (append-nil xs) ∙ take_of_le max_intervals xs l)
fold_runs-lengths iv ((true, n) ∷ runs) h h' =
    ap (λ v. fold_runs v runs) (end_interval-on n iv)
    ∙ fold_runs-lengths (record { on = bounded iv.on n; off = iv.off }) runs
        (length-bounded iv.on n h) h'
    ∙ ap (λ on. record { on = on; off = take max_intervals (iv.off ++ lengths false runs) })
        (take-bounded iv.on n (lengths true runs) h)
fold_runs-lengths iv ((false, n) ∷ runs) h h' =
    ap (λ v. fold_runs v runs) (end_interval-off n iv)
    ∙ fold_runs-lengths (record { on = iv.on; off = bounded iv.off n }) runs h
        (length-bounded iv.off n h')
    ∙ ap (λ off. record { on = take max_intervals (iv.on ++ lengths true runs); off = off })
        (take-bounded iv.off n (lengths false runs) h')

-- The scan over the signal, which keeps one open interval and at most 512 lengths of each kind, finds what
-- the run lengths of the signal say: the first 512 lengths of the runs above the threshold, and those
-- below, in their order.
pub intervals_of_lem :
    (bs : List Bool)
    → intervals_of bs ≡ record {
      on = take max_intervals (lengths true (runs_of bs));
      off = take max_intervals (lengths false (runs_of bs));
    }
unfolding intervals_of
intervals_of_lem [] = refl
intervals_of_lem (b ∷ bs) =
    intervals_from-runs b 0 no_intervals (b ∷ bs)
    ∙ ap (fold_runs no_intervals) (merge-zero b (runs_of bs))
    ∙ fold_runs-lengths no_intervals (add_to b (runs_of bs)) (omega arith) (omega arith)
