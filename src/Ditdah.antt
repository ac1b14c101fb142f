-- ===== src/Ditdah.antt =====
-- The Morse decoder of cw-skimmer/src/ditdah_decoder.c.
pub mod Morse
pub mod Signal
pub mod Runs
pub mod Letters
pub mod Bounds
pub mod Keying
pub mod Marks
pub mod ReadBack
pub mod Message
pub mod Params
pub mod Best
pub mod Audio
pub mod Window
pub mod Feed
pub mod Decoder
pub mod Calls
pub mod Overflow
pub mod Emit
pub mod Hundredths
mod Tests
mod ObjectTests
use cw_skimmer.Prelude.{ℕ}

-- MAX_INTERVALS
abbrev pub max_intervals : ℕ
max_intervals = 512
