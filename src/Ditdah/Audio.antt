-- ===== src/Ditdah/Audio.antt =====
-- The decoder object of cw-skimmer/src/ditdah_decoder.c and the way of its samples: the mixer, the decimation, the
-- filters and the audio buffer.
use cw_skimmer.Prelude.{
  ℕ, ◌+◌, ◌/◌, Bool, List, [], ◌∷◌, ◌++◌, Option, none, some, length, drop, get_or, ltb, leb,
  if◌then◌else◌,
}
use cw_skimmer.Prelude.Int.{pos, negsuc}
use cw_skimmer.Prelude.Bytes.{Bytes}
use cw_skimmer.Libc.Floats.{Floats}
use cw_skimmer.Ditdah.Signal.{target_rate}

-- MAX_AUDIO_SAMPLES and DECIMATE_ACCUM_MAX
abbrev pub audio_cap : ℕ
audio_cap = 144_000

abbrev pub accum_max : ℕ
accum_max = 8

-- `biquad_t`
pub record Biquad (F : Type 0) : Type 0 where
  pub a0 : F
  pub a1 : F
  pub a2 : F
  pub b1 : F
  pub b2 : F
  pub x1 : F
  pub x2 : F
  pub y1 : F
  pub y2 : F

-- `struct ditdah_decoder`. `audio_buffer` and `decim_accum` are the lists of their first `audio_len` and
-- `decim_count` values.
pub record Decoder (F : Type 0) : Type 0 where
  pub source_sample_rate : ℕ
  pub tone_hz : F
  pub created_at : ℕ
  pub filter_hp : Biquad F
  pub filter_lp : Biquad F
  pub audio : List F
  pub decim_accum : List F
  pub decim_step : ℕ
  pub mix_index : ℕ
  pub plain_text : Bytes
  pub display_text : Bytes
  pub pending : Bytes
  pub last_emitted_plain : Bytes
  pub new_letter : ℕ
  pub dirty : Bool
  pub estimated_wpm : F
  pub keying_on_intervals : ℕ
  pub has_keying : Bool
  pub birdie : Bool

-- BIQUAD_HIGHPASS and BIQUAD_LOWPASS
pub data BiquadType : Type 0 where
  highpass lowpass : BiquadType

module _ {F : Type 0} (float : Floats F) where
  abbrev one : F
  one = float.dec 1 0

  abbrev two : F
  two = float.dec 2 0

  -- `biquad_init`
  unfoldable pub biquad_init : BiquadType → F → ℕ → Biquad F
  biquad_init type cutoff_hz sample_rate =
      let c =
        float.tan (float.div (float.mul float.pi cutoff_hz) (float.of_int (pos sample_rate))) in
      let sqrt2 = float.sqrt two in
      let cc = float.mul c c in
      let d = float.div one (float.add (float.add one (float.mul sqrt2 c)) cc) in
      let zero_f = float.dec 0 0 in
      let low = float.mul cc d in
      let b1 = float.mul (float.mul two (float.sub cc one)) d in
      let b2 = float.mul (float.add (float.sub one (float.mul sqrt2 c)) cc) d in
      elim type [
        | highpass ↦ record {
          a0 = d;
          a1 = float.mul (float.of_int (negsuc 1)) d;
          a2 = d;
          b1 = b1;
          b2 = b2;
          x1 = zero_f;
          x2 = zero_f;
          y1 = zero_f;
          y2 = zero_f;
        }
        | lowpass ↦ record {
          a0 = low;
          a1 = float.mul two low;
          a2 = low;
          b1 = b1;
          b2 = b2;
          x1 = zero_f;
          x2 = zero_f;
          y1 = zero_f;
          y2 = zero_f;
        }
      ]

  -- `biquad_process_sample`: the value, and the filter behind it
  unfoldable pub biquad_process_sample : Biquad F → F → F × Biquad F
  biquad_process_sample f x0 =
      let fed =
        float.add (float.add (float.mul f.a0 x0) (float.mul f.a1 f.x1)) (float.mul f.a2 f.x2) in
      let y0 = float.sub (float.sub fed (float.mul f.b1 f.y1)) (float.mul f.b2 f.y2) in
      (y0, record f { x2 = f.x1; x1 = x0; y2 = f.y1; y1 = y0 })

  -- `ditdah_append_audio`, whose result nobody reads
  unfoldable pub drop_oldest_half : List F → List F
  drop_oldest_half audio =
      if leb audio_cap (length audio)
      then (if leb (length audio) (target_rate / 2) then [] else drop (target_rate / 2) audio)
      else audio

  unfoldable pub append_audio : List F → F → List F
  unfolding drop_oldest_half
  append_audio audio sample =
      let audio' = drop_oldest_half audio in
      if leb audio_cap (length audio') then audio' else audio' ++ sample ∷ []

  -- the end of `ditdah_push_resampled`: a sample at the target rate
  unfoldable pub push_filtered : Decoder F → F → Decoder F
  unfolding append_audio biquad_process_sample
  push_filtered d sample =
      let (high, hp) = biquad_process_sample d.filter_hp sample in
      let (filtered, lp) = biquad_process_sample d.filter_lp high in
      record d { filter_hp = hp; filter_lp = lp; audio = append_audio d.audio filtered }

  -- `ditdah_push_resampled`; `none` where it writes behind `decim_accum`, of which C says nothing
  unfoldable pub push_resampled : Decoder F → F → Option (Decoder F)
  unfolding push_filtered
  push_resampled d sample =
      let accum = d.decim_accum ++ sample ∷ [] in
      if ltb 1 d.decim_step
      then (if ltb (length d.decim_accum) accum_max
          then (if ltb (length accum) d.decim_step
              then some (record d { decim_accum = accum })
              else some (push_filtered (record d { decim_accum = [] }) (get_or accum 0 sample)))
          else none)
      else some (push_filtered d sample)

  -- `omega`, and the audio of an I/Q sample
  unfoldable pub mix_omega : Decoder F → F
  mix_omega d =
      float.div (float.mul (float.mul two float.pi) d.tone_hz)
        (float.of_int (pos d.source_sample_rate))

  unfoldable pub mixed : F → ℕ → F × F → F
  mixed omega mix_index (re, im) =
      let phase = float.mul omega (float.of_int (pos mix_index)) in
      float.add (float.mul re (float.cos phase)) (float.mul im (float.sin phase))

  -- the loop of `ditdah_decoder_feed_iq`
  unfoldable pub feed_from : F → Decoder F → List (F × F) → Option (Decoder F)
  unfolding push_resampled mixed
  feed_from omega d [] = some d
  feed_from omega d (iq ∷ rest) = elim (push_resampled d (mixed omega d.mix_index iq)) [
    | none ↦ none
    | some d' ↦ feed_from omega (record d' { mix_index = d'.mix_index + 1 }) rest
  ]

  -- `ditdah_decoder_feed_iq`
  unfoldable pub feed_iq : Decoder F → List (F × F) → Option (Decoder F)
  unfolding feed_from mix_omega
  feed_iq d iqs = if leb d.source_sample_rate 0 then some d else feed_from (mix_omega d) d iqs
