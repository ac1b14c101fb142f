-- ===== src/Capture/Tests.antt =====
-- A run of the ring of cw-skimmer/src/cw_capture.c: room for six samples, of which ten are written.
use cw_skimmer.Prelude.{ℕ, ◌≡◌, refl, List, [], ◌∷◌, replicate}
use cw_skimmer.Capture.{CaptureRing, write, write_one, copy, copy_from, first_index}
use cw_skimmer.Capture.Copy.{writes}

abbrev blocks : List (List ℕ)
blocks = (1 ∷ 2 ∷ 3 ∷ 4 ∷ []) ∷ (5 ∷ []) ∷ (6 ∷ 7 ∷ 8 ∷ 9 ∷ 10 ∷ []) ∷ []

abbrev empty : CaptureRing ℕ
empty = record { samples = replicate 6 0; capacity = 6; write_pos = 0; count = 0; sample_rate = 2 }

copy_of_blocks : copy 0 (writes 0 empty blocks) 4 ≡ 5 ∷ 6 ∷ 7 ∷ 8 ∷ []
unfolding copy copy_from first_index write write_one
copy_of_blocks = refl
