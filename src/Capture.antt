-- ===== src/Capture.antt =====
-- The ring of I/Q samples of cw-skimmer/src/cw_capture.c. A sample is a parameter, and memory is there.
pub mod Ring
pub mod Copy
pub mod File
pub mod RoundTrip
mod Tests
mod FileTests
use cw_skimmer.Prelude.{
  ℕ, zero, suc, ◌+◌, ◌-◌, ◌*◌, ◌^◌, Bool, List, [], ◌∷◌, Option, none, some, length, get_or, set,
  replicate, ltb, leb, ◌||◌, if◌then◌else◌,
}
use cw_skimmer.Prelude.Int.{ℤ, pos, pos_part}

-- `cw_capture_ring_t`
pub record CaptureRing (A : Type 0) : Type 0 where
  pub samples : List A
  pub capacity : ℕ
  pub write_pos : ℕ
  pub count : ℕ
  pub sample_rate : ℕ

-- `silence` is the sample that `calloc` leaves.
module _ {A : Type 0} (silence : A) where
  -- `cw_capture_ring_create`: `some none` is NULL, and `none` where the product, an `int`, overflows, of
  -- which C says nothing
  unfoldable pub create : ℤ → ℤ → Option (Option (CaptureRing A))
  create sample_rate seconds =
      let capacity = pos_part sample_rate * pos_part seconds in
      if leb (pos_part sample_rate) 0 || leb (pos_part seconds) 0
      then some none
      else if leb (2 ^ 31) capacity
      then none
      else some (
          some (record {
            samples = replicate capacity silence;
            capacity = capacity;
            write_pos = 0;
            count = 0;
            sample_rate = pos_part sample_rate;
          }))

  -- a round of the loop of `cw_capture_ring_write`, and the loop
  unfoldable pub write_one : CaptureRing A → A → CaptureRing A
  write_one ring x = record ring {
    samples = set ring.samples ring.write_pos x;
    write_pos = if leb ring.capacity (ring.write_pos + 1) then 0 else ring.write_pos + 1;
    count = if ltb ring.count ring.capacity then ring.count + 1 else ring.count;
  }

  unfoldable pub write : CaptureRing A → List A → CaptureRing A
  unfolding write_one
  write ring [] = ring
  write ring (x ∷ xs) = write (write_one ring x) xs

  -- `start`, of `cw_capture_ring_copy`
  unfoldable pub first_index : CaptureRing A → ℕ
  first_index ring =
      if ltb ring.write_pos ring.count
      then ring.write_pos + ring.capacity - ring.count
      else ring.write_pos - ring.count

  -- the loop of `cw_capture_ring_copy` over `n` samples, from `idx` on
  unfoldable pub copy_from : CaptureRing A → ℕ → ℕ → List A
  copy_from ring idx zero = []
  copy_from ring idx (suc n) =
      get_or ring.samples (if leb ring.capacity idx then idx - ring.capacity else idx) silence
      ∷ copy_from ring (idx + 1) n

  -- `cw_capture_ring_copy`: what it writes, of at most `out_max` samples
  unfoldable pub copy : CaptureRing A → ℕ → List A
  unfolding first_index copy_from
  copy ring out_max =
      copy_from ring (first_index ring) (if ltb ring.count out_max then ring.count else out_max)
