-- ===== src/Capture/File.antt =====
-- The capture file of cw-skimmer/src/cw_capture.c: what cw_capture_save writes, and what cw_capture_load reads.
-- The machine is little-endian, and every call of the file system succeeds; a float is given by its bits.
use cw_skimmer.Prelude.{
  ℕ, zero, suc, ◌+◌, ◌-◌, ◌*◌, ◌/◌, ◌%◌, not, ◌||◌, List, [], ◌∷◌, ◌++◌, Option, none, some, length,
  take, drop, ltb, ◌==◌, if◌then◌else◌,
}
use cw_skimmer.Prelude.Bytes.{Bytes, codes, str_eq}

-- an unsigned integer of `k` bytes
unfoldable pub le : ℕ → ℕ → Bytes
le zero n = []
le (suc k) n = n % 256 ∷ le k (n / 256)

unfoldable pub from_le : Bytes → ℕ
from_le [] = 0
from_le (b ∷ s) = b + 256 * from_le s

-- `cw_capture_header_t`
pub record CaptureHeader : Type 0 where
  pub magic : Bytes
  pub version : ℕ
  pub sample_rate : ℕ
  pub center_freq_hz : ℕ
  pub num_samples : ℕ
  pub mark_freq_offset_hz : ℕ
  pub expected_text : Bytes
  pub notes : Bytes

-- CW_CAPTURE_MAGIC, CW_CAPTURE_VERSION and sizeof hdr
abbrev pub capture_magic : Bytes
capture_magic = codes "CWCAP001"

abbrev pub capture_version : ℕ
capture_version = 1

abbrev pub file_header_size : ℕ
file_header_size = 356

-- the bytes of a header, and of samples
unfoldable pub header_bytes : CaptureHeader → Bytes
unfolding le
header_bytes h =
    h.magic
    ++ (le 4 h.version
        ++ (le 4 h.sample_rate
            ++ (le 8 h.center_freq_hz
                ++ (le 8 h.num_samples
                    ++ (le 4 h.mark_freq_offset_hz ++ (h.expected_text ++ h.notes))))))

unfoldable pub sample_bytes : List (ℕ × ℕ) → Bytes
unfolding le
sample_bytes [] = []
sample_bytes ((re, im) ∷ xs) = le 4 re ++ (le 4 im ++ sample_bytes xs)

-- the header that is written: the caller's, with the magic, the version and the number of samples
abbrev pub stamped : CaptureHeader → ℕ → CaptureHeader
stamped h n = record h { magic = capture_magic; version = capture_version; num_samples = n }

-- `cw_capture_save`: the file's bytes, or `none` for -1
unfoldable pub save : CaptureHeader → List (ℕ × ℕ) → Option Bytes
unfolding header_bytes sample_bytes
save h [] = none
save h (x ∷ xs) = some (header_bytes (stamped h (length (x ∷ xs))) ++ sample_bytes (x ∷ xs))

-- `fread(&hdr, sizeof(hdr), 1, fp)`
unfoldable pub header_of : Bytes → CaptureHeader
unfolding from_le
header_of s =
    let field = λ (at size : ℕ). take size (drop at s) in
    record {
      magic = field 0 8;
      version = from_le (field 8 4);
      sample_rate = from_le (field 12 4);
      center_freq_hz = from_le (field 16 8);
      num_samples = from_le (field 24 8);
      mark_freq_offset_hz = from_le (field 32 4);
      expected_text = field 36 64;
      notes = field 100 256;
    }

unfoldable pub samples_of : ℕ → Bytes → List (ℕ × ℕ)
unfolding from_le
samples_of zero s = []
samples_of (suc n) s = (from_le (take 4 s), from_le (take 4 (drop 4 s))) ∷ samples_of n (drop 8 s)

-- `cw_capture_load`: the header and the samples, or `none` for -1
unfoldable pub load : Bytes → Option (CaptureHeader × List (ℕ × ℕ))
unfolding header_of samples_of
load file =
    let hdr = header_of file in
    if ltb (length file) file_header_size
      || not (str_eq hdr.magic capture_magic)
      || not (hdr.version == capture_version)
      || hdr.num_samples == 0
      || ltb (length file) (file_header_size + 8)
    then none
    else some (hdr, samples_of ((length file - file_header_size) / 8) (drop file_header_size file))
