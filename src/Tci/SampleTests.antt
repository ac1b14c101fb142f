-- ===== src/Tci/SampleTests.antt =====
-- Runs of the ring of samples and of the reading of frames of cw-skimmer/src/tci_client.c.
use cw_skimmer.Prelude.{ℕ, ◌+◌, ◌≡◌, refl, true, false, [], ◌∷◌, ◌++◌, arith, replicate, take, drop}
use cw_skimmer.Prelude.Bytes.{Bytes}
use cw_skimmer.Tci.Samples.{
  SampleBuffer, PayloadOps, push_sample, get_iq_samples, take_iq_pair, take_pairs,
  take_payload_frame, payload_frames, after_frames, process_audio_payload,
}
use cw_skimmer.Tci.SampleRing.{IsSampleRing, waiting, queue_push, sample_ring_lem}

-- full, and gone round
abbrev full_ring : SampleBuffer ℕ
full_ring = record {
  iq_buffer = 5 ∷ 6 ∷ 3 ∷ 4 ∷ [];
  buffer_size = 4;
  buffer_head = 2;
  buffer_count = 4;
}

full_ring-IsSampleRing : IsSampleRing full_ring
full_ring-IsSampleRing = record { size = refl; inside = omega arith; count_fits = omega arith }

sample_ring_lem_example :
    (IsSampleRing (push_sample full_ring 7)
      × (waiting 0 (push_sample full_ring 7) ≡ queue_push 4 (waiting 0 full_ring) 7))
    × (let (samples, b') = get_iq_samples 0 full_ring 3 in
        (samples ≡ take 3 (waiting 0 full_ring))
        × (waiting 0 b' ≡ drop 3 (waiting 0 full_ring))
        × IsSampleRing b')
sample_ring_lem_example = sample_ring_lem 0 full_ring 7 3 full_ring-IsSampleRing

waiting_full : waiting 0 full_ring ≡ 3 ∷ 4 ∷ 5 ∷ 6 ∷ []
waiting_full = refl

-- floats by the first of their bytes
abbrev ops : PayloadOps ℕ
ops = record { zero_f = 0; read = λ a b c d. a; is_finite = λ x. true; middle = λ x y. x + y }

abbrev room : SampleBuffer (ℕ × ℕ)
room = record {
  iq_buffer = replicate 16 (0, 0);
  buffer_size = 16;
  buffer_head = 0;
  buffer_count = 0;
}

-- a frame with one pair of samples
abbrev small_frame : Bytes
small_frame =
    replicate 8 0
    ++ (3 ∷ 0 ∷ 0 ∷ 0 ∷ [])
    ++ replicate 8 0
    ++ (2 ∷ 0 ∷ 0 ∷ 0 ∷ [])
    ++ replicate 40 0
    ++ (11 ∷ 2 ∷ 3 ∷ 4 ∷ 12 ∷ 6 ∷ 7 ∷ 8 ∷ [])

whole_frame : (process_audio_payload ops room false small_frame).1 ≡ 72
unfolding process_audio_payload payload_frames after_frames take_payload_frame take_pairs
    take_iq_pair push_sample
whole_frame = refl

-- Of a frame of which two bytes are missing, the header and what is there are taken for eight pairs of samples.
part_of_frame :
    let (st, consumed) = process_audio_payload ops room false (take 70 small_frame) in
    (st.processed ≡ 8) × (consumed ≡ 64)
unfolding process_audio_payload payload_frames after_frames take_payload_frame take_pairs
    take_iq_pair push_sample
part_of_frame = (refl, refl)
