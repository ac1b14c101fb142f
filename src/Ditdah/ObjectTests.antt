-- ===== src/Ditdah/ObjectTests.antt =====
-- Runs of the decoder object of cw-skimmer/src/ditdah_decoder.c, with the floats counted in hundredths.
use cw_skimmer.Prelude.{
  ℕ, ◌≤◌, ◌<◌, ◌≡◌, refl, ◌⊎◌, true, false, List, [], ◌∷◌, ◌++◌, none, some, arith, length, ltb,
  inl,
}
use cw_skimmer.Prelude.Bytes.{codes}
use cw_skimmer.Prelude.Int.{pos}
use cw_skimmer.Ditdah.Hundredths.{hundredths}
use cw_skimmer.Ditdah.Params.{Best, find_best_params}
use cw_skimmer.Ditdah.Best.{
  Each, Any, IsOrder, NoneBelow, Chose, thresholds, at_first, counted, tried, find_best_params_lem,
}
use cw_skimmer.Ditdah.Audio.{Decoder, accum_max, mix_omega, feed_iq}
use cw_skimmer.Ditdah.Window.{IsWindow}
use cw_skimmer.Ditdah.Feed.{IsFed, mixed_all, feed_iq_lem}
use cw_skimmer.Ditdah.Decoder.{
  create, take_new_letter, Call, feed_call, update_call, take_call, set_tone_call, run_calls,
}
use cw_skimmer.Ditdah.Calls.{Holds, run_calls-Holds}
use cw_skimmer.Ditdah.Overflow.{feed_iq_outside}
use cw_skimmer.Ditdah.Emit.{given, take_new_letter_lem}

hundredths-IsOrder : IsOrder hundredths
hundredths-IsOrder = record {
  irreflexive = λ x. below_itself x;
  transitive = λ x y z h h'. through x y z h h';
}
  where
    below_itself : (x : ℕ) → ltb x x ≡ false
    below_itself x = ground arith

    through : (x y z : ℕ) → ltb x y ≡ true → ltb y z ≡ true → ltb x z ≡ true
    through x y z h h' = ground arith

abbrev levels : List ℕ
levels = 0 ∷ 10 ∷ 90 ∷ 10 ∷ 80 ∷ 20 ∷ 90 ∷ 10 ∷ 80 ∷ 20 ∷ 90 ∷ 10 ∷ []

find_best_params_lem_example :
    (length (counted hundredths levels 4_000) < 10
      → find_best_params hundredths levels 4_000 ≡ none)
    × (10 ≤ length (counted hundredths levels 4_000)
        → (best : Best ℕ) × (find_best_params hundredths levels 4_000
            ≡ some (best.wpm, best.threshold))
          × Each
              (NoneBelow hundredths levels 4_000 best.cost)
              (thresholds hundredths levels 4_000 (tried hundredths levels 4_000))
          × ((best ≡ at_first hundredths levels 4_000 (tried hundredths levels 4_000))
              ⊎ Any
                  (Chose hundredths levels 4_000 best)
                  (thresholds hundredths levels 4_000 (tried hundredths levels 4_000))))
find_best_params_lem_example = find_best_params_lem hundredths levels 4_000 hundredths-IsOrder

-- at 48 kHz
abbrev fresh : Decoder ℕ
fresh = create hundredths 7 (pos 48_000) 80_000

abbrev block : List (ℕ × ℕ)
block = (100, 0) ∷ (90, 10) ∷ (80, 20) ∷ (70, 30) ∷ (60, 40) ∷ []

fresh-IsWindow : IsWindow fresh.audio []
unfolding create
fresh-IsWindow = record { gone = []; end_of = refl; kept = inl refl; fits = omega arith }

feed_iq_lem_example :
    (d' : Decoder ℕ) × (feed_iq hundredths fresh block ≡ some d')
    × IsFed hundredths fresh d'
        (mixed_all hundredths (mix_omega hundredths fresh) fresh.mix_index block)
        []
unfolding create
feed_iq_lem_example =
    feed_iq_lem hundredths fresh block [] (omega arith) (omega arith, omega arith) fresh-IsWindow

abbrev calls : List (ℕ × Call hundredths)
calls =
    (8, feed_call block)
    ∷ (9, update_call)
    ∷ (9, take_call)
    ∷ (9, set_tone_call 70_000)
    ∷ (15, feed_call block)
    ∷ []

fresh_step : fresh.decim_step ≤ accum_max
unfolding create
fresh_step = omega arith

run_calls-Holds_example : (d : Decoder ℕ) × (run_calls hundredths calls fresh ≡ some d) × Holds d
run_calls-Holds_example = run_calls-Holds hundredths 7 (pos 48_000) 80_000 calls fresh_step

-- at 192 kHz, where a group has 16 samples
abbrev wide : Decoder ℕ
wide = create hundredths 7 (pos 192_000) 80_000

feed_iq_outside_example : feed_iq hundredths wide (block ++ block) ≡ none
unfolding create
feed_iq_outside_example =
    feed_iq_outside hundredths wide (block ++ block) (omega arith) (omega arith) (omega arith)
      (omega arith)

-- two letters more
abbrev grown : Decoder ℕ
grown = record fresh { plain_text = codes "CQ DE"; last_emitted_plain = codes "CQ" }

take_new_letter_lem_example :
    (take_new_letter hundredths grown ≡ (true, b'D', given grown b'D'))
    × (take_new_letter hundredths (given grown b'D') ≡ (false, 0, given grown b'D'))
take_new_letter_lem_example =
    take_new_letter_lem hundredths grown (codes " DE") refl (omega arith) (ground arith)
