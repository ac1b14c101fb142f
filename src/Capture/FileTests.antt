-- ===== src/Capture/FileTests.antt =====
-- A file of cw-skimmer/src/cw_capture.c that is saved and loaded, and one that was cut off.
use cw_skimmer.Prelude.{ℕ, ◌≡◌, refl, List, [], ◌∷◌, ◌++◌, some, arith, replicate, take}
use cw_skimmer.Prelude.Bytes.{Bytes, str_eq}
use cw_skimmer.Capture.File.{
  CaptureHeader, stamped, save, load, header_bytes, sample_bytes, header_of, samples_of, le,
  from_le,
}
use cw_skimmer.Capture.RoundTrip.{IsHeader, AllWords, load_lem}

abbrev header : CaptureHeader
header = record {
  magic = [];
  version = 0;
  sample_rate = 48_000;
  center_freq_hz = 14_030_000;
  num_samples = 0;
  mark_freq_offset_hz = 1_145_569_280;
  expected_text = replicate 64 0;
  notes = replicate 256 0;
}

abbrev sample : ℕ × ℕ
sample = (1_065_353_216, 3_212_836_864)

abbrev others : List (ℕ × ℕ)
others = (0, 1_056_964_608) ∷ (1, 2) ∷ []

header-IsHeader : IsHeader header 3
header-IsHeader = record {
  rate = omega arith;
  center = omega arith;
  number = omega arith;
  mark = omega arith;
  text = refl;
  note = refl;
}

samples-AllWords : AllWords (sample ∷ others)
samples-AllWords =
    (omega arith, omega arith, (omega arith, omega arith, (omega arith, omega arith, tt)))

load_lem_example :
    (file : Bytes) × (save header (sample ∷ others) ≡ some file)
    × (load file ≡ some (stamped header 3, sample ∷ others))
load_lem_example = load_lem header sample others header-IsHeader samples-AllWords

-- A file whose last sample is missing loads with two samples, and a header that says three.
cut_off :
    load (take 372 (header_bytes (stamped header 3) ++ sample_bytes (sample ∷ others)))
    ≡ some (stamped header 3, sample ∷ (0, 1_056_964_608) ∷ [])
unfolding load header_of samples_of header_bytes sample_bytes le from_le str_eq
cut_off = refl
