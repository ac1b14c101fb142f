-- ===== src/Ditdah/Calls.antt =====
-- What every call of cw-skimmer/src/ditdah_decoder.c keeps of the decoder object.
use cw_skimmer.Prelude.{
  ℕ, ◌+◌, ◌-◌, ◌≤◌, ◌<◌, ◌≡◌, refl, sym, ap, ◌∙◌, subst, inl, inr, Bool, true, false, not, ◌&&◌,
  List, [], ◌∷◌, Option, none, some, arith, length, length-take, take, get_or, ltb, ◌==◌, max,
  Bool-cases, if◌then◌else◌,
}
use cw_skimmer.Prelude.Int.{ℤ, pos_part}
use cw_skimmer.Prelude.Bytes.{Bytes, AllTrue, AllTrue-take, str_eq}
use cw_skimmer.Libc.Floats.{Floats}
use cw_skimmer.Ditdah.Bounds.{is_text_char, is_element, decode_with_params_lem}
use cw_skimmer.Ditdah.Params.{find_best_params}
use cw_skimmer.Ditdah.Audio.{audio_cap, accum_max, Decoder, feed_iq}
use cw_skimmer.Ditdah.Window.{IsWindow}
use cw_skimmer.Ditdah.Feed.{feed_iq_lem}
use cw_skimmer.Ditdah.Decoder.{
  text_buf, pending_size, create, reset, set_tone, is_empty, power_signal, power_signal_rate,
  silent_long, adopt, decode_at, run_pipeline, update, flush, clear_dirty, emit_letter,
  take_new_letter, Call, set_tone_call, reset_call, update_call, flush_call, take_call, clear_call,
  feed_call, run_call, run_calls,
}

-- Every buffer holds what was written, with room for a NUL in the texts; both texts are the same.
pub record Buffers {F : Type 0} (source_rate step : ℕ) (accum audio : List F)
    (plain_text display_text pending last_emitted : Bytes) : Type 0 where
  pub rate : 1 ≤ source_rate
  pub ready : length accum < max 1 step
  pub accum_fits : step ≤ accum_max
  pub audio_fits : length audio ≤ audio_cap
  pub text_fits : length plain_text < text_buf
  pub shown_text : display_text ≡ plain_text
  pub text : AllTrue is_text_char plain_text
  pub pending_fits : length pending < pending_size
  pub elements : AllTrue is_element pending
  pub emitted_fits : length last_emitted < text_buf

abbrev pub Holds : {F : Type 0} → Decoder F → Type 0
Holds d =
    Buffers d.source_sample_rate d.decim_step d.decim_accum d.audio d.plain_text d.display_text
      d.pending d.last_emitted_plain

module _ {F : Type 0} (float : Floats F) where
  either-Holds : (b : Bool) (x y : Decoder F) → Holds x → Holds y → Holds (if b then x else y)
  either-Holds true x y hx hy = hx
  either-Holds false x y hx hy = hy

  reset-Holds : (now : ℕ) (d : Decoder F) → Holds d → Holds (reset float now d)
  unfolding reset
  reset-Holds now d h = record {
    rate = h.rate;
    ready = omega arith;
    accum_fits = h.accum_fits;
    audio_fits = omega arith;
    text_fits = omega arith;
    shown_text = refl;
    text = tt;
    pending_fits = omega arith;
    elements = tt;
    emitted_fits = omega arith;
  }

  set_tone-Holds :
      (now : ℕ) (tone_hz : F) (d : Decoder F) → Holds d → Holds (set_tone float now tone_hz d)
  unfolding set_tone
  set_tone-Holds now tone_hz d h =
      either-Holds (float.less (float.dec 2 0) (float.abs (float.sub d.tone_hz tone_hz))) _ _
        (reset-Holds now (record d { tone_hz = tone_hz }) h) h

  cut_fits : (n : ℕ) (s : Bytes) → length (take n s) < n + 1
  cut_fits n s = omega (arith, length-take n s)

  pending-Holds :
      (d : Decoder F) (pending : Bytes)
      → Holds d
      → AllTrue is_element pending
      → Holds (record d { pending = take (pending_size - 1) pending; dirty = true })
  pending-Holds d pending h all = record {
    rate = h.rate;
    ready = h.ready;
    accum_fits = h.accum_fits;
    audio_fits = h.audio_fits;
    text_fits = h.text_fits;
    shown_text = h.shown_text;
    text = h.text;
    pending_fits = cut_fits 31 pending;
    elements = AllTrue-take is_element 31 pending all;
    emitted_fits = h.emitted_fits;
  }

  abbrev with_text : Decoder F → Bytes → Decoder F
  with_text d out = record d {
    plain_text = take (text_buf - 1) out;
    display_text = take (text_buf - 1) out;
  }

  texts-Holds :
      (d : Decoder F) (out : Bytes) → Holds d → AllTrue is_text_char out → Holds (with_text d out)
  texts-Holds d out h all = record {
    rate = h.rate;
    ready = h.ready;
    accum_fits = h.accum_fits;
    audio_fits = h.audio_fits;
    text_fits = cut_fits 255 out;
    shown_text = refl;
    text = AllTrue-take is_text_char 255 out all;
    pending_fits = h.pending_fits;
    elements = h.elements;
    emitted_fits = h.emitted_fits;
  }

  emitted-Holds :
      (d : Decoder F) (s : Bytes)
      → Holds d
      → Holds (record d { last_emitted_plain = take (text_buf - 1) s })
  emitted-Holds d s h = record {
    rate = h.rate;
    ready = h.ready;
    accum_fits = h.accum_fits;
    audio_fits = h.audio_fits;
    text_fits = h.text_fits;
    shown_text = h.shown_text;
    text = h.text;
    pending_fits = h.pending_fits;
    elements = h.elements;
    emitted_fits = cut_fits 255 s;
  }

  adopt-Holds :
      (out pending : Bytes) (d : Decoder F)
      → AllTrue is_text_char out
      → AllTrue is_element pending
      → Holds d
      → Holds (adopt float out pending d).1
  unfolding adopt
  adopt-Holds out pending d all all' h =
      elim (Bool-cases (not (is_empty out) && not (str_eq out d.plain_text))) [
        | inl new ↦ rw new (pending-Holds (with_text d out) pending (texts-Holds d out h all) all')
        | inr old ↦
            rw old (elim (Bool-cases (not (is_empty pending) && not (str_eq pending d.pending))) [
              | inl new ↦ rw new (pending-Holds d pending h all')
              | inr same ↦ rw same h
            ])
      ]

  decode_at-Holds :
      (smoothed : List F) (wpm threshold : F) (d : Decoder F)
      → Holds d
      → Holds (decode_at float smoothed wpm threshold d).1
  unfolding decode_at
  decode_at-Holds smoothed wpm threshold d h =
      let (fits, fits', all, all', found) =
        decode_with_params_lem float smoothed threshold text_buf pending_size (omega arith)
          (omega arith) in
      adopt-Holds _ _ _ all all' h

  run_pipeline-Holds : (d : Decoder F) → Holds d → Holds (run_pipeline float d).1
  unfolding run_pipeline
  run_pipeline-Holds d h = elim (Bool-cases (ltb (length d.audio) 6_000)) [
    | inl short ↦ rw short h
    | inr long ↦
        rw long (searched (find_best_params float (power_signal float d) (power_signal_rate float)))
  ]
    where
      searched :
          (r : Option (F × F))
          → Holds
              (elim r as (λ r. Bool × Decoder F) [
                | none ↦ (false, d)
                | some best ↦ decode_at float (power_signal float d) best.0 best.1 d
              ]).1
      searched none = h
      searched (some best) = decode_at-Holds (power_signal float d) best.0 best.1 d h

  update-Holds : (now : ℕ) (d : Decoder F) → Holds d → Holds (update float now d).1
  unfolding update
  update-Holds now d h =
      let h' = run_pipeline-Holds d h in
      either-Holds (silent_long float now (run_pipeline float d).1) _ _ h' h'

  emit_letter-Holds : (c : ℕ) (d : Decoder F) → Holds d → Holds (emit_letter float c d).2
  unfolding emit_letter
  emit_letter-Holds c d h = elim (Bool-cases (c == 0)) [
    | inl none_left ↦ rw none_left h
    | inr letter ↦ rw letter (emitted-Holds d d.plain_text h)
  ]

  take_new_letter-Holds : (d : Decoder F) → Holds d → Holds (take_new_letter float d).2
  unfolding take_new_letter
  take_new_letter-Holds d h =
      elim (Bool-cases (ltb (length d.last_emitted_plain) (length d.plain_text))) [
        | inl longer ↦
            rw longer
              (elim (Bool-cases (get_or d.plain_text (length d.last_emitted_plain) 0 == b' ')) [
                | inl blank ↦ rw blank (
                    emit_letter-Holds _
                      (record d { last_emitted_plain = take (text_buf - 1) d.plain_text })
                      (emitted-Holds d d.plain_text h))
                | inr letter ↦ rw letter (emit_letter-Holds _ d h)
              ])
        | inr same ↦ rw same h
      ]

  feed_iq-Holds :
      (d : Decoder F) (iqs : List (F × F))
      → Holds d
      → (d' : Decoder F) × (feed_iq float d iqs ≡ some d') × Holds d'
  feed_iq-Holds d iqs h =
      let whole : IsWindow d.audio d.audio = record {
        gone = [];
        end_of = refl;
        kept = inl refl;
        fits = h.audio_fits;
      } in
      let (d', e, fed) = feed_iq_lem float d iqs d.audio h.rate (h.ready, h.accum_fits) whole in
      (
        d',
        e,
        subst Holds (sym fed.result) (record {
          rate = h.rate;
          ready = fed.short;
          accum_fits = h.accum_fits;
          audio_fits = fed.window.fits;
          text_fits = h.text_fits;
          shown_text = h.shown_text;
          text = h.text;
          pending_fits = h.pending_fits;
          elements = h.elements;
          emitted_fits = h.emitted_fits;
        }),
      )

  create-Holds :
      (now : ℕ) (source_rate : ℤ) (tone_hz : F)
      → (create float now source_rate tone_hz).decim_step ≤ accum_max
      → Holds (create float now source_rate tone_hz)
  unfolding create
  create-Holds now source_rate tone_hz h = record {
    rate = rate_some (pos_part source_rate);
    ready = omega arith;
    accum_fits = h;
    audio_fits = omega arith;
    text_fits = omega arith;
    shown_text = refl;
    text = tt;
    pending_fits = omega arith;
    elements = tt;
    emitted_fits = omega arith;
  }
    where
      rate_some : (n : ℕ) → 1 ≤ (if ltb 0 n then n else 48_000)
      rate_some n = ground arith

  run_call-Holds :
      (now : ℕ) (call : Call float) (d : Decoder F)
      → Holds d
      → (d' : Decoder F) × (run_call float now call d ≡ some d') × Holds d'
  unfolding run_call flush clear_dirty
  run_call-Holds now (set_tone_call tone_hz) d h = (_, refl, set_tone-Holds now tone_hz d h)
  run_call-Holds now reset_call d h = (_, refl, reset-Holds now d h)
  run_call-Holds now update_call d h = (_, refl, update-Holds now d h)
  run_call-Holds now flush_call d h = (_, refl, run_pipeline-Holds d h)
  run_call-Holds now take_call d h = (_, refl, take_new_letter-Holds d h)
  run_call-Holds now clear_call d h = (_, refl, h)
  run_call-Holds now (feed_call iqs) d h = feed_iq-Holds d iqs h

  run_calls-from :
      (calls : List (ℕ × Call float)) (d : Decoder F)
      → Holds d
      → (d' : Decoder F) × (run_calls float calls d ≡ some d') × Holds d'
  unfolding run_calls
  run_calls-from [] d h = (d, refl, h)
  run_calls-from ((now, call) ∷ calls) d h =
      let (d₁, e, h₁) = run_call-Holds now call d h in
      let (d', e', h') = run_calls-from calls d₁ h₁ in
      (
        d',
        ap
              (λ r. elim r as (λ r. Option (Decoder F)) [
                | none ↦ none
                | some x ↦ run_calls float calls x
              ])
              e
            ∙ e',
        h',
      )

  -- A new decoder whose source rate asks for at most 8 samples to a group, used by any sequence of calls, at
  -- any times and on any samples: no write is out of bounds, the audio buffer holds at most 144,000
  -- samples, fewer samples wait than make a group, the texts fit their 256 bytes and the open code
  -- its 32 with the NUL, both texts are the same and consist of capitals, digits, question marks and
  -- blanks, and the open code of dots and dashes.
  pub run_calls-Holds :
      (now : ℕ) (source_rate : ℤ) (tone_hz : F) (calls : List (ℕ × Call float))
      → (create float now source_rate tone_hz).decim_step ≤ accum_max
      → (d : Decoder F) × (run_calls float calls (create float now source_rate tone_hz) ≡ some d)
        × Holds d
  run_calls-Holds now source_rate tone_hz calls h =
      run_calls-from calls (create float now source_rate tone_hz)
        (create-Holds now source_rate tone_hz h)
