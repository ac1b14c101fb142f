-- ===== src/Ditdah/Decoder.antt =====
-- The calls of the decoder object of cw-skimmer/src/ditdah_decoder.c. `now` is what `time` answers; memory is
-- there, and the pointer to the object is not NULL.
use cw_skimmer.Prelude.{
  ℕ, ◌+◌, ◌-◌, ◌/◌, ◌%◌, Bool, true, false, not, ◌&&◌, ◌||◌, List, [], ◌∷◌, Option, none, some,
  length, take, get_or, ltb, leb, ◌==◌, max, if◌then◌else◌,
}
use cw_skimmer.Prelude.Int.{ℤ, pos, pos_part}
use cw_skimmer.Prelude.Bytes.{Bytes, str_eq}
use cw_skimmer.Libc.Floats.{Floats}
use cw_skimmer.Ditdah.Signal.{
  target_rate, max_power, get_raw_intervals, moving_average, goertzel_process_decimated,
  goertzel_coeff, goertzel_window,
}
use cw_skimmer.Ditdah.Letters.{decode_with_params}
use cw_skimmer.Ditdah.Params.{find_best_params}
use cw_skimmer.Ditdah.Audio.{Decoder, highpass, lowpass, biquad_init, feed_iq}

-- the sizes of `plain_text`, `display_text`, `last_emitted_plain` and `decoded`, and of `pending`
abbrev pub text_buf : ℕ
text_buf = 256

abbrev pub pending_size : ℕ
pending_size = 32

abbrev pub is_empty : Bytes → Bool
is_empty [] = true
is_empty (c ∷ s) = false

module _ {F : Type 0} (float : Floats F) where
  -- FREQ_MIN_HZ and FREQ_MAX_HZ
  abbrev freq_min : F
  freq_min = float.dec 200 0

  abbrev freq_max : F
  freq_max = float.dec 1_200 0

  -- `ditdah_decoder_create`
  unfoldable pub create : ℕ → ℤ → F → Decoder F
  create now source_sample_rate tone_hz =
      let rate =
        if ltb 0 (pos_part source_sample_rate) then pos_part source_sample_rate else 48_000 in
      record {
        source_sample_rate = rate;
        tone_hz = tone_hz;
        created_at = now;
        filter_hp = biquad_init float highpass freq_min target_rate;
        filter_lp = biquad_init float lowpass freq_max target_rate;
        audio = [];
        decim_accum = [];
        decim_step = if rate % target_rate == 0 then rate / target_rate else 1;
        mix_index = 0;
        plain_text = [];
        display_text = [];
        pending = [];
        last_emitted_plain = [];
        new_letter = 0;
        dirty = false;
        estimated_wpm = float.dec 20 0;
        keying_on_intervals = 0;
        has_keying = false;
        birdie = false;
      }

  -- `ditdah_decoder_reset`
  unfoldable pub reset : ℕ → Decoder F → Decoder F
  reset now d = record d {
    audio = [];
    decim_accum = [];
    mix_index = 0;
    plain_text = [];
    display_text = [];
    pending = [];
    last_emitted_plain = [];
    new_letter = 0;
    dirty = false;
    keying_on_intervals = 0;
    has_keying = false;
    birdie = false;
    created_at = now;
    filter_hp = biquad_init float highpass freq_min target_rate;
    filter_lp = biquad_init float lowpass freq_max target_rate;
  }

  -- `ditdah_decoder_set_tone`
  unfoldable pub set_tone : ℕ → F → Decoder F → Decoder F
  unfolding reset
  set_tone now tone_hz d =
      if float.less (float.dec 2 0) (float.abs (float.sub d.tone_hz tone_hz))
      then reset now (record d { tone_hz = tone_hz })
      else record d { tone_hz = tone_hz }

  -- the end of `ditdah_run_pipeline`: what was decoded, and whether it is new
  unfoldable pub adopt : Bytes → Bytes → Decoder F → Bool × Decoder F
  adopt decoded pending d =
      if not (is_empty decoded) && not (str_eq decoded d.plain_text)
      then (
        true,
        record d {
          plain_text = take (text_buf - 1) decoded;
          display_text = take (text_buf - 1) decoded;
          pending = take (pending_size - 1) pending;
          dirty = true;
        },
      )
      else if not (is_empty pending) && not (str_eq pending d.pending)
      then (true, record d { pending = take (pending_size - 1) pending; dirty = true })
      else (false, d)

  -- behind the search for the speed and the threshold
  unfoldable pub decode_at : List F → F → F → Decoder F → Bool × Decoder F
  unfolding adopt
  decode_at smoothed best_wpm best_threshold d =
      let on_n = length (get_raw_intervals float smoothed best_threshold).on in
      let (found, decoded, pending) =
        decode_with_params float smoothed best_threshold text_buf pending_size in
      adopt decoded pending
        (record d { estimated_wpm = best_wpm; keying_on_intervals = on_n; has_keying = leb 3 on_n })

  -- the pitch, held within the band
  unfoldable pub pitch : Decoder F → F
  pitch d =
      let at_least = if float.less d.tone_hz freq_min then freq_min else d.tone_hz in
      if float.less freq_max at_least then freq_max else at_least

  abbrev pub window_size : ℕ
  window_size =
      max 32 (pos_part (float.to_int (float.mul (float.of_int (pos target_rate)) (float.dec 25 3))))

  abbrev pub step_size : ℕ
  step_size = max 1 (window_size / 4)

  abbrev pub power_signal_rate : F
  power_signal_rate = float.div (float.of_int (pos target_rate)) (float.of_int (pos step_size))

  -- the power of the audio at the tone, smoothed
  unfoldable pub power_signal : Decoder F → List F
  unfolding pitch
  power_signal d =
      let raw =
        goertzel_process_decimated float (goertzel_coeff float (pitch d) window_size)
          (goertzel_window float window_size) d.audio step_size max_power in
      moving_average float raw
        (max 1 (pos_part (float.lround (float.mul power_signal_rate (float.dec 2 2))))) max_power

  -- `ditdah_run_pipeline`: whether the text has changed
  unfoldable pub run_pipeline : Decoder F → Bool × Decoder F
  unfolding decode_at power_signal
  run_pipeline d =
      if ltb (length d.audio) (target_rate / 2)
      then (false, d)
      else elim (find_best_params float (power_signal d) power_signal_rate) [
        | none ↦ (false, d)
        | some best ↦ decode_at (power_signal d) best.0 best.1 d
      ]

  -- `ditdah_decoder_active_seconds`, and the test that it is long enough for a birdie
  unfoldable pub active_seconds : ℕ → Decoder F → F
  active_seconds now d =
      if leb now d.created_at then float.dec 0 0 else float.of_int (pos (now - d.created_at))

  abbrev pub silent_long : ℕ → Decoder F → Bool
  silent_long now d = not (float.less (active_seconds now d) (float.dec 4 0)) && not d.has_keying

  -- `ditdah_decoder_update`, `_flush`, `_is_birdie`, `_clear_dirty` and `_get_wpm`
  unfoldable pub update : ℕ → Decoder F → Bool × Decoder F
  unfolding run_pipeline active_seconds
  update now d =
      let (changed, d') = run_pipeline d in
      (changed, if silent_long now d' then record d' { birdie = true } else d')

  unfoldable pub flush : Decoder F → Decoder F
  unfolding run_pipeline
  flush d = (run_pipeline d).1

  unfoldable pub is_birdie : ℕ → Decoder F → Bool
  unfolding active_seconds
  is_birdie now d = d.birdie || silent_long now d

  unfoldable pub clear_dirty : Decoder F → Decoder F
  clear_dirty d = record d { dirty = false }

  unfoldable pub get_wpm : Decoder F → ℤ
  get_wpm d = float.lround d.estimated_wpm

  -- `ditdah_decoder_take_new_letter`: whether there is one, the letter or 0, and the object behind it
  unfoldable pub emit_letter : ℕ → Decoder F → Bool × ℕ × Decoder F
  emit_letter c d = if c == 0 then (false, 0, d) else (
    true,
    c,
    record d { new_letter = c; last_emitted_plain = take (text_buf - 1) d.plain_text },
  )

  unfoldable pub take_new_letter : Decoder F → Bool × ℕ × Decoder F
  unfolding emit_letter
  take_new_letter d =
      let old_len = length d.last_emitted_plain in
      let c = get_or d.plain_text old_len 0 in
      if ltb old_len (length d.plain_text)
      then (if c == b' '
          then emit_letter (get_or d.plain_text (old_len + 1) 0)
              (record d { last_emitted_plain = take (text_buf - 1) d.plain_text })
          else emit_letter c d)
      else (false, 0, d)

  -- the calls, each with the time of its clock
  pub data Call : Type 0 where
    set_tone_call : F → Call
    reset_call update_call flush_call take_call clear_call : Call
    feed_call : List (F × F) → Call

  unfoldable pub run_call : ℕ → Call → Decoder F → Option (Decoder F)
  unfolding set_tone reset update flush take_new_letter clear_dirty feed_iq
  run_call now (set_tone_call tone_hz) d = some (set_tone now tone_hz d)
  run_call now reset_call d = some (reset now d)
  run_call now update_call d = some (update now d).1
  run_call now flush_call d = some (flush d)
  run_call now take_call d = some (take_new_letter d).2
  run_call now clear_call d = some (clear_dirty d)
  run_call now (feed_call iqs) d = feed_iq float d iqs

  unfoldable pub run_calls : List (ℕ × Call) → Decoder F → Option (Decoder F)
  unfolding run_call
  run_calls [] d = some d
  run_calls ((now, call) ∷ calls) d = elim (run_call now call d) [
    | none ↦ none
    | some d' ↦ run_calls calls d'
  ]
