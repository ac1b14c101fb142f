-- ===== src/Channel/Tests.antt =====
-- A run of the channel decoder of cw-skimmer/src/cw_decoder.c.
use cw_skimmer.Prelude.{ℕ, ◌≡◌, refl, true, false, [], take, if◌then◌else◌}
use cw_skimmer.Prelude.Int.{pos}
use cw_skimmer.Prelude.Bytes.{Bytes, codes}
use cw_skimmer.Libc.Search.{before_chr}
use cw_skimmer.Ditdah.Hundredths.{hundredths}
use cw_skimmer.Ditdah.Decoder.{create, is_empty}
use cw_skimmer.Channel.{ChannelDecoder, copy_word, skip_spaces, on_word_gap, get_callsign}
use cw_skimmer.Channel.Word.{IsFirstWord, get_callsign_lem}

abbrev heard : ChannelDecoder ℕ
heard = record {
  ditdah = record (create hundredths 7 (pos 48_000) 80_000) { plain_text = codes " K1ABC DE W1AW" };
  sample_rate = 48_000;
  wpm = 20;
  tone_hz = 80_000;
  callsign_ready = false;
}

get_callsign_lem_example :
    (word : Bytes) × IsFirstWord heard.ditdah.plain_text word
    × (let (result, c') = get_callsign hundredths (on_word_gap hundredths heard) in
        (result.callsign ≡ take 15 word)
        × (result.valid ≡ (if is_empty word then false else true))
        × (c'.ditdah.plain_text ≡ heard.ditdah.plain_text)
        × ((get_callsign hundredths c').0.valid ≡ false)
        × ((get_callsign hundredths c').0.callsign ≡ [])
        × ((get_callsign hundredths c').1 ≡ c'))
get_callsign_lem_example = get_callsign_lem hundredths heard

copy_of_heard : copy_word (codes " K1ABC DE W1AW") 16 ≡ codes "K1ABC"
unfolding copy_word skip_spaces before_chr
copy_of_heard = refl
