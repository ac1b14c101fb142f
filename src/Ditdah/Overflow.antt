-- ===== src/Ditdah/Overflow.antt =====
-- Where the samples that wait for a group outgrow `decim_accum` of cw-skimmer/src/ditdah_decoder.c.
use cw_skimmer.Prelude.{
  ℕ, ◌+◌, ◌≤◌, ◌<◌, ◌≡◌, refl, false, List, [], ◌∷◌, ◌++◌, none, some, arith, length, length-append,
  ltb, leb, lt→ltb, ltb→lt, inl, inr, Bool-cases,
}
use cw_skimmer.Libc.Floats.{Floats}
use cw_skimmer.Ditdah.Audio.{
  accum_max, Decoder, push_resampled, mix_omega, mixed, feed_from, feed_iq,
}

module _ {F : Type 0} (float : Floats F) where
  push_waits :
      (d : Decoder F) (x : F)
      → accum_max < d.decim_step
      → length d.decim_accum < accum_max
      → push_resampled float d x ≡ some (record d { decim_accum = d.decim_accum ++ x ∷ [] })
  unfolding push_resampled
  push_waits d x h h' =
      rw
        (
          lt→ltb 1 d.decim_step (omega arith),
          lt→ltb (length d.decim_accum) accum_max h',
          lt→ltb (length (d.decim_accum ++ x ∷ [])) d.decim_step
              (omega (arith, length-append d.decim_accum (x ∷ []))),
        )
        refl

  push_outside :
      (d : Decoder F) (x : F)
      → accum_max < d.decim_step
      → accum_max ≤ length d.decim_accum
      → push_resampled float d x ≡ none
  unfolding push_resampled
  push_outside d x h h' =
      rw (lt→ltb 1 d.decim_step (omega arith), not_less (length d.decim_accum) accum_max h') refl
    where
      not_less : (m n : ℕ) → n ≤ m → ltb m n ≡ false
      not_less m n l = ground arith

  feed_from_outside :
      (turn : F) (d : Decoder F) (iqs : List (F × F))
      → accum_max < d.decim_step
      → accum_max < length d.decim_accum + length iqs
      → length d.decim_accum ≤ accum_max
      → feed_from float turn d iqs ≡ none
  unfolding feed_from
  feed_from_outside turn d [] h h' h'' = absurd (omega arith)
  feed_from_outside turn d (iq ∷ iqs) h h' h'' =
      let x = mixed float turn d.mix_index iq in
      elim (Bool-cases (ltb (length d.decim_accum) accum_max)) [
        | inl room ↦
            let l = ltb→lt (length d.decim_accum) accum_max room in
            rw (push_waits d x h l, feed_from)
              (feed_from_outside turn
                (record d { decim_accum = d.decim_accum ++ x ∷ []; mix_index = d.mix_index + 1 })
                iqs h (omega (arith, length-append d.decim_accum (x ∷ [])))
                (omega (arith, length-append d.decim_accum (x ∷ []))))
        | inr full ↦ rw (push_outside d x h (filled (length d.decim_accum) full), feed_from) refl
      ]
    where
      filled : (m : ℕ) → ltb m accum_max ≡ false → accum_max ≤ m
      filled m e = ground arith

  -- With more than 8 samples to a group (a source rate of 108 kHz or more that is a multiple of 12 kHz), the
  -- samples are written behind the end of `decim_accum` as soon as more than 8 have come since the last
  -- group, in whatever blocks.
  pub feed_iq_outside :
      (d : Decoder F) (iqs : List (F × F))
      → 1 ≤ d.source_sample_rate
      → accum_max < d.decim_step
      → length d.decim_accum ≤ accum_max
      → accum_max < length d.decim_accum + length iqs
      → feed_iq float d iqs ≡ none
  unfolding feed_iq
  feed_iq_outside d iqs rate h h' h'' =
      rw (no_rate d.source_sample_rate rate) (feed_from_outside (mix_omega float d) d iqs h h'' h')
    where
      no_rate : (n : ℕ) → 1 ≤ n → leb n 0 ≡ false
      no_rate n l = ground arith
