-- ===== src/Capture/Copy.antt =====
-- What cw_capture_ring_copy (cw-skimmer/src/cw_capture.c) hands over.
use cw_skimmer.Prelude.{
  ℕ, zero, suc, ◌+◌, ◌*◌, ◌%◌, ◌≤◌, ◌≡◌, refl, ap, List, [], ◌∷◌, ◌++◌, arith, take, get_or,
  replicate,
}
use cw_skimmer.Prelude.Slots.{slots}
use cw_skimmer.Capture.{CaptureRing, write}

module _ {A : Type 0} (silence : A) where
  pub slots-take :
      (buf : List A) (cap s n k : ℕ)
      → k ≤ n
      → slots silence buf cap s k ≡ take k (slots silence buf cap s n)
  slots-take buf cap s n zero h = refl
  slots-take buf cap s zero (suc k) h = absurd (omega arith)
  slots-take buf cap s (suc n) (suc k) h =
      ap (◌∷◌ (get_or buf (s % cap) silence)) (slots-take buf cap (s + 1) n k (omega arith))

  -- blocks that are written one behind the other, and what was written in all
  abbrev pub writes : CaptureRing A → List (List A) → CaptureRing A
  writes ring [] = ring
  writes ring (block ∷ blocks) = writes (write silence ring block) blocks

  abbrev pub joined : List (List A) → List A
  joined [] = []
  joined (block ∷ blocks) = block ++ joined blocks

  abbrev empty_ring : ℕ → ℕ → CaptureRing A
  empty_ring rate seconds = record {
    samples = replicate (rate * seconds) silence;
    capacity = rate * seconds;
    write_pos = 0;
    count = 0;
    sample_rate = rate;
  }
