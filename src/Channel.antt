-- ===== src/Channel.antt =====
-- The channel decoder of cw-skimmer/src/cw_decoder.c, around the one of ditdah_decoder.c. `now` is what `time`
-- answers; memory is there, and no pointer is NULL.
pub mod Word
mod Tests
use cw_skimmer.Prelude.{
  ℕ, zero, suc, ◌+◌, ◌-◌, Bool, true, false, List, [], ◌∷◌, Option, none, some, take, ltb, ◌==◌,
  if◌then◌else◌,
}
use cw_skimmer.Prelude.Int.{ℤ, pos, pos_part}
use cw_skimmer.Prelude.Bytes.{Bytes}
use cw_skimmer.Libc.Floats.{Floats}
use cw_skimmer.Libc.Search.{before_chr}
use cw_skimmer.Ditdah.Audio.{Decoder, feed_iq}
use cw_skimmer.Ditdah.Decoder.{
  create, set_tone, reset, update, flush, is_birdie, clear_dirty, get_wpm, take_new_letter,
  is_empty,
}

-- sizeof callsign
abbrev pub callsign_size : ℕ
callsign_size = 16

-- `struct cw_decoder`; nothing reads its `callsign_buf`
pub record ChannelDecoder (F : Type 0) : Type 0 where
  pub ditdah : Decoder F
  pub sample_rate : ℕ
  pub wpm : ℕ
  pub tone_hz : F
  pub callsign_ready : Bool

-- `decoded_callsign_t`
pub record DecodedCallsign (F : Type 0) : Type 0 where
  pub callsign : Bytes
  pub confidence : F
  pub valid : Bool

-- `cw_decoder_copy_word`, with room for at least a byte
unfoldable pub skip_spaces : Bytes → Bytes
skip_spaces [] = []
skip_spaces (c ∷ s) = let rest = skip_spaces s in if c == b' ' then rest else c ∷ s

unfoldable pub copy_word : Bytes → ℕ → Bytes
unfolding skip_spaces before_chr
copy_word text out_max = take (out_max - 1) (before_chr (skip_spaces text) b' ')

module _ {F : Type 0} (float : Floats F) where
  -- `cw_decoder_create`
  unfoldable pub channel_create : ℕ → ℤ → ℤ → ChannelDecoder F
  unfolding create
  channel_create now sample_rate wpm =
      let rate = if ltb 0 (pos_part sample_rate) then pos_part sample_rate else 48_000 in
      record {
        ditdah = create float now (pos rate) (float.dec 800 0);
        sample_rate = rate;
        wpm = if ltb 0 (pos_part wpm) then pos_part wpm else 20;
        tone_hz = float.dec 800 0;
        callsign_ready = false;
      }

  -- `cw_decoder_set_tone`, `_process_iq` and `_update`
  unfoldable pub channel_set_tone : ℕ → F → ChannelDecoder F → ChannelDecoder F
  unfolding set_tone
  channel_set_tone now tone_hz c = record c {
    tone_hz = tone_hz;
    ditdah = set_tone float now tone_hz c.ditdah;
  }

  unfoldable pub process_iq : ChannelDecoder F → List (F × F) → Option (ChannelDecoder F)
  unfolding feed_iq
  process_iq c iqs = elim (feed_iq float c.ditdah iqs) [
    | none ↦ none
    | some d ↦ some (record c { ditdah = d })
  ]

  unfoldable pub channel_update : ℕ → ChannelDecoder F → Bool × ChannelDecoder F
  unfolding update
  channel_update now c =
      let (changed, d) = update float now c.ditdah in (changed, record c { ditdah = d })

  -- `cw_decoder_on_word_gap`
  unfoldable pub on_word_gap : ChannelDecoder F → ChannelDecoder F
  on_word_gap c = record c { callsign_ready = true }

  -- `cw_decoder_get_callsign`
  unfoldable pub get_callsign : ChannelDecoder F → DecodedCallsign F × ChannelDecoder F
  unfolding copy_word clear_dirty
  get_callsign c =
      let word = copy_word c.ditdah.plain_text callsign_size in
      if c.callsign_ready
      then (
        record {
          callsign = word;
          confidence = if is_empty word then float.dec 0 0 else float.dec 85 2;
          valid = if is_empty word then false else true;
        },
        record c { callsign_ready = false; ditdah = clear_dirty float c.ditdah },
      )
      else (record { callsign = []; confidence = float.dec 0 0; valid = false }, c)

  -- `cw_decoder_get_display` into buffers of the given sizes: the text, the open code, the new letter, whether
  -- the decoder is dirty, and the decoder
  unfoldable pub get_display :
      ℕ → ℕ → ChannelDecoder F → Bytes × Bytes × ℕ × Bool × ChannelDecoder F
  unfolding take_new_letter
  get_display text_max partial_max c =
      let (found, letter, d) = take_new_letter float c.ditdah in
      (
        take (text_max - 1) d.display_text,
        take (partial_max - 1) d.pending,
        if found then letter else 0,
        d.dirty,
        record c { ditdah = d },
      )

  -- `cw_decoder_reset`, `_update_wpm`, `_flush`
  unfoldable pub channel_reset : ℕ → ChannelDecoder F → ChannelDecoder F
  unfolding reset
  channel_reset now c = record c { ditdah = reset float now c.ditdah; callsign_ready = false }

  unfoldable pub update_wpm : ℤ → ChannelDecoder F → ChannelDecoder F
  update_wpm measured_wpm c = record c {
    wpm = if ltb 0 (pos_part measured_wpm) then pos_part measured_wpm else c.wpm;
  }

  unfoldable pub channel_flush : ℕ → ChannelDecoder F → ChannelDecoder F
  unfolding flush channel_update
  channel_flush now c = (channel_update now (record c { ditdah = flush float c.ditdah })).1
