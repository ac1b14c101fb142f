-- ===== src/Capture/RoundTrip.antt =====
-- What cw_capture_load reads of what cw_capture_save wrote (cw-skimmer/src/cw_capture.c).
use cw_skimmer.Prelude.{
  ℕ, zero, suc, ◌+◌, ◌-◌, ◌*◌, ◌/◌, ◌≤◌, ◌<◌, ◌≡◌, refl, ap, ap₂, ◌∙◌, false, not, ◌||◌, List, [],
  ◌∷◌, ◌++◌, append_assoc, Option, none, some, arith, length, length-append, take, drop, ltb, ◌==◌,
  if◌then◌else◌,
}
use cw_skimmer.Prelude.Bytes.{Bytes, str_eq}
use cw_skimmer.Capture.File.{
  le, from_le, CaptureHeader, capture_magic, capture_version, header_bytes, sample_bytes, stamped,
  save, header_of, samples_of, load, file_header_size,
}

-- 256 to the power of `k`
abbrev pub range : ℕ → ℕ
range zero = 1
range (suc k) = 256 * range k

from_le-le : (k n : ℕ) → n < range k → from_le (le k n) ≡ n
unfolding from_le le
from_le-le zero n h = omega arith
from_le-le (suc k) n h = omega (arith, from_le-le k (n / 256) (omega arith))

length-le : (k n : ℕ) → length (le k n) ≡ k
unfolding le
length-le zero n = refl
length-le (suc k) n = ap suc (length-le k (n / 256))

-- a field at the front
take-front : (n : ℕ) (p q : Bytes) → length p ≡ n → take n (p ++ q) ≡ p
take-front zero [] q h = refl
take-front zero (x ∷ p) q h = absurd (omega arith)
take-front (suc n) [] q h = absurd (omega arith)
take-front (suc n) (x ∷ p) q h = ap (◌∷◌ x) (take-front n p q (omega arith))

drop-front : (n k : ℕ) (p q : Bytes) → length p ≡ n → drop (n + k) (p ++ q) ≡ drop k q
drop-front zero k [] q h = ap (λ m. drop m q) (omega arith)
drop-front zero k (x ∷ p) q h = absurd (omega arith)
drop-front (suc n) k [] q h = absurd (omega arith)
drop-front (suc n) k (x ∷ p) q h =
    ap (λ m. drop m (x ∷ (p ++ q))) {x = suc n + k} {y = suc (n + k)} (omega arith)
    ∙ drop-front n k p q (omega arith)

length-sample_bytes : (xs : List (ℕ × ℕ)) → length (sample_bytes xs) ≡ 8 * length xs
unfolding sample_bytes
length-sample_bytes [] = refl
length-sample_bytes ((re, im) ∷ xs) = omega (
  arith,
  length-append (le 4 re) (le 4 im ++ sample_bytes xs),
  length-append (le 4 im) (sample_bytes xs),
  length-le 4 re,
  length-le 4 im,
  length-sample_bytes xs,
)

-- every float is of 32 bits
abbrev pub AllWords : List (ℕ × ℕ) → Type 0
AllWords [] = Unit
AllWords ((re, im) ∷ xs) = (re < range 4) × (im < range 4) × AllWords xs

samples_of-bytes : (xs : List (ℕ × ℕ)) → AllWords xs → samples_of (length xs) (sample_bytes xs) ≡ xs
unfolding samples_of sample_bytes
samples_of-bytes [] all = refl
samples_of-bytes ((re, im) ∷ xs) (h, h', all) =
    ap₂ ◌∷◌ (ap₂ (λ a b. (a, b)) (from_le-le 4 re h) (from_le-le 4 im h')) (samples_of-bytes xs all)

abbrev fields : ℕ → ℕ → ℕ → ℕ → Bytes → Bytes → CaptureHeader
fields rate center n mark text notes = record {
  magic = capture_magic;
  version = capture_version;
  sample_rate = rate;
  center_freq_hz = center;
  num_samples = n;
  mark_freq_offset_hz = mark;
  expected_text = text;
  notes = notes;
}

fields_eq :
    {r r' c c' n n' m m' : ℕ} {t t' o o' : Bytes}
    → r ≡ r'
    → c ≡ c'
    → n ≡ n'
    → m ≡ m'
    → t ≡ t'
    → o ≡ o'
    → fields r c n m t o ≡ fields r' c' n' m' t' o'
fields_eq er ec en em et eo = rw (er, ec, en, em, et, eo) refl

-- what fits the fields of the header
pub record IsHeader (h : CaptureHeader) (n : ℕ) : Type 0 where
  pub rate : h.sample_rate < range 4
  pub center : h.center_freq_hz < range 8
  pub number : n < range 8
  pub mark : h.mark_freq_offset_hz < range 4
  pub text : length h.expected_text ≡ 64
  pub note : length h.notes ≡ 256

header_of-bytes :
    (h : CaptureHeader) (n : ℕ) (s : Bytes)
    → IsHeader h n
    → header_of (header_bytes (stamped h n) ++ s) ≡ stamped h n
unfolding header_of header_bytes le
header_of-bytes h n s fits =
    fields_eq (from_le-le 4 h.sample_rate fits.rate) (from_le-le 8 h.center_freq_hz fits.center)
      (from_le-le 8 n fits.number) (from_le-le 4 h.mark_freq_offset_hz fits.mark)
      (ap (take 64) (append_assoc h.expected_text h.notes s)
        ∙ take-front 64 h.expected_text (h.notes ++ s) fits.text)
      (ap (λ b. take 256 (drop 64 b)) (append_assoc h.expected_text h.notes s)
        ∙ ap (take 256) (drop-front 64 0 h.expected_text (h.notes ++ s) fits.text)
        ∙ take-front 256 h.notes s fits.note)

length-header_bytes :
    (h : CaptureHeader) (n : ℕ)
    → IsHeader h n
    → length (header_bytes (stamped h n)) ≡ file_header_size
unfolding header_bytes le
length-header_bytes h n fits =
    omega (arith, length-append h.expected_text h.notes, fits.text, fits.note)

not_less : (m k : ℕ) → k ≤ m → ltb m k ≡ false
not_less m k l = ground arith

-- what is loaded by a header of a file that is long enough
abbrev accepted : Bytes → CaptureHeader → Option (CaptureHeader × List (ℕ × ℕ))
accepted file hdr =
    if false
      || not (str_eq hdr.magic capture_magic)
      || not (hdr.version == capture_version)
      || hdr.num_samples == 0
      || false
    then none
    else some (hdr, samples_of ((length file - file_header_size) / 8) (drop file_header_size file))

not_zero : (n : ℕ) → (suc n == 0) ≡ false
not_zero n = ground arith

accepted-stamped :
    (file : Bytes) (h : CaptureHeader) (n : ℕ)
    → accepted file (stamped h (suc n))
      ≡ some (
        stamped h (suc n),
        samples_of ((length file - file_header_size) / 8) (drop file_header_size file),
      )
unfolding str_eq
accepted-stamped file h n = rw (not_zero n) refl

load-some :
    (file : Bytes) (h : CaptureHeader) (n : ℕ)
    → header_of file ≡ stamped h (suc n)
    → file_header_size + 8 ≤ length file
    → load file
      ≡ some (
        stamped h (suc n),
        samples_of ((length file - file_header_size) / 8) (drop file_header_size file),
      )
unfolding load str_eq
load-some file h n e long =
    rw
      (
        not_less (length file) file_header_size (omega arith),
        not_less (length file) (file_header_size + 8) long,
      )
      (ap (accepted file) e ∙ accepted-stamped file h n)

drop-header :
    (h : CaptureHeader) (n : ℕ) (s : Bytes)
    → IsHeader h n
    → drop file_header_size (header_bytes (stamped h n) ++ s) ≡ s
drop-header h n s fits =
    drop-front file_header_size 0 (header_bytes (stamped h n)) s (length-header_bytes h n fits)

-- A capture of at least one sample that is saved is loaded again as it was: the samples are the same, and the
-- header is the caller's with the magic, the version and the number of samples set. Asked for is that the
-- numbers of the header and the floats fit their fields, and that the texts of the header fill theirs.
pub load_lem :
    (h : CaptureHeader) (x : ℕ × ℕ) (xs : List (ℕ × ℕ))
    → IsHeader h (length (x ∷ xs))
    → AllWords (x ∷ xs)
    → (file : Bytes) × (save h (x ∷ xs) ≡ some file)
      × (load file ≡ some (stamped h (length (x ∷ xs)), x ∷ xs))
unfolding save
load_lem h x xs fits all =
    let n = length (x ∷ xs) in
    let file = header_bytes (stamped h n) ++ sample_bytes (x ∷ xs) in
    let long : length file ≡ file_header_size + 8 * n =
      length-append (header_bytes (stamped h n)) (sample_bytes (x ∷ xs))
      ∙ ap₂ (λ a b. a + b) (length-header_bytes h n fits) (length-sample_bytes (x ∷ xs)) in
    (
      file,
      refl,
      load-some file h (length xs) (header_of-bytes h n (sample_bytes (x ∷ xs)) fits)
            (omega (arith, long))
          ∙ ap₂ (λ k s. some (stamped h n, samples_of k s))
              {x = (length file - file_header_size) / 8} {y = n} (omega (arith, long))
              (drop-header h n (sample_bytes (x ∷ xs)) fits)
          ∙ ap (λ ys. some (stamped h n, ys)) (samples_of-bytes (x ∷ xs) all),
    )
