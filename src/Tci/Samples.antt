-- ===== src/Tci/Samples.antt =====
-- The samples of cw-skimmer/src/tci_client.c: tci_process_audio_payload, which takes frames of floats to the ring of
-- the client, and tci_get_iq_samples. A float is a parameter, with how its four bytes are read; the counters
-- of the training mode are left out.
use cw_skimmer.Prelude.{
  ℕ, zero, suc, ◌+◌, ◌-◌, ◌*◌, ◌/◌, ◌%◌, Bool, not, ◌&&◌, List, [], ◌∷◌, length, drop, set, ltb,
  leb, ◌==◌, if◌then◌else◌,
}
use cw_skimmer.Prelude.Bytes.{Bytes}
use cw_skimmer.Prelude.Slots.{slots}
use cw_skimmer.Tci.{header_size, le32, header_length, header_type, is_iq_stream_type}

-- `iq_buffer`, `buffer_size`, `buffer_head` and `buffer_count` of `tci_client_t`
pub record SampleBuffer (A : Type 0) : Type 0 where
  pub iq_buffer : List A
  pub buffer_size : ℕ
  pub buffer_head : ℕ
  pub buffer_count : ℕ

module _ {A : Type 0} where
  -- one more sample
  unfoldable pub push_sample : SampleBuffer A → A → SampleBuffer A
  push_sample b x = record b {
    iq_buffer = set b.iq_buffer b.buffer_head x;
    buffer_head = (b.buffer_head + 1) % b.buffer_size;
    buffer_count = if ltb b.buffer_count b.buffer_size then b.buffer_count + 1 else b.buffer_count;
  }

  -- `tci_clear_sample_buffer`
  unfoldable pub clear_samples : SampleBuffer A → SampleBuffer A
  clear_samples b = record b { buffer_head = 0; buffer_count = 0 }

  -- `tci_get_iq_samples`: the samples, and the buffer behind them; `silence` is not read inside the ring
  unfoldable pub get_iq_samples : A → SampleBuffer A → ℕ → List A × SampleBuffer A
  get_iq_samples silence b count =
      let n = if ltb b.buffer_count count then b.buffer_count else count in
      let tail = (b.buffer_head + b.buffer_size - b.buffer_count) % b.buffer_size in
      (
        slots silence b.iq_buffer b.buffer_size tail n,
        record b { buffer_count = b.buffer_count - n },
      )

-- what the payload's floats are read with
pub record PayloadOps (F : Type 0) : Type 0 where
  pub zero_f : F
  pub read : ℕ → ℕ → ℕ → ℕ → F
  pub is_finite : F → Bool
  -- 0.5f * (left + right)
  pub middle : F → F → F

-- the ring, how many samples came, and whether the stream is audio
pub record PayloadState (F : Type 0) : Type 0 where
  pub buffer : SampleBuffer (F × F)
  pub processed : ℕ
  pub audio_only : Bool

module _ {F : Type 0} (ops : PayloadOps F) where
  abbrev finite_or_zero : F → F
  finite_or_zero x = if ops.is_finite x then x else ops.zero_f

  abbrev count_sample : PayloadState F → F × F → PayloadState F
  count_sample st x = record st { buffer = push_sample st.buffer x; processed = st.processed + 1 }

  -- a pair of floats of an audio frame, and of an I/Q frame
  unfoldable pub take_audio_pair : PayloadState F → F → F → PayloadState F
  unfolding push_sample
  take_audio_pair st left right =
      count_sample st (ops.middle (finite_or_zero left) (finite_or_zero right), ops.zero_f)

  unfoldable pub take_iq_pair : PayloadState F → F → F → PayloadState F
  unfolding push_sample
  take_iq_pair st i_val q_val =
      if ops.is_finite i_val && ops.is_finite q_val then count_sample st (i_val, q_val) else st

  -- a loop over `n` pairs of floats
  unfoldable pub take_pairs :
      (PayloadState F → F → F → PayloadState F) → ℕ → PayloadState F → Bytes → PayloadState F
  take_pairs pair zero st s = st
  take_pairs pair (suc n) st (a ∷ b ∷ c ∷ d ∷ e ∷ f ∷ g ∷ h ∷ s) =
      take_pairs pair n (pair st (ops.read a b c d) (ops.read e f g h)) s
  take_pairs pair (suc n) st s = st

  -- `header->format`, TCI_AUDIO_FORMAT_FLOAT32 and the test of a header
  abbrev pub is_frame : Bytes → Bool
  is_frame s =
      is_iq_stream_type (header_type s)
      && le32 s 8 == 3
      && not (header_length s == 0)
      && leb (header_length s) 65_536

  abbrev pub frame_bytes : Bytes → ℕ
  frame_bytes s = header_size + header_length s * 4

  unfoldable pub take_payload_frame : PayloadState F → Bytes → PayloadState F
  unfolding take_pairs take_audio_pair take_iq_pair
  take_payload_frame st s =
      let audio = header_type s == 1 in
      take_pairs (if audio then take_audio_pair else take_iq_pair) (header_length s / 2)
        (record st { audio_only = audio }) (drop header_size s)

  -- the loop over the frames: the state, and what is left
  unfoldable pub payload_frames : ℕ → PayloadState F → Bytes → PayloadState F × Bytes
  unfolding take_payload_frame
  payload_frames zero st s = (st, s)
  payload_frames (suc fuel) st s =
      let rest = payload_frames fuel (take_payload_frame st s) (drop (frame_bytes s) s) in
      if leb header_size (length s) && is_frame s && leb (frame_bytes s) (length s)
      then rest
      else (st, s)

  -- behind the loop: the state, and how much of the buffer is consumed
  unfoldable pub after_frames : Bytes → PayloadState F → Bytes → PayloadState F × ℕ
  unfolding take_pairs take_iq_pair
  after_frames s st rest =
      let offset = length s - length rest in
      if ltb 0 st.processed
      then (st, offset)
      else if offset == 0 && leb 8 (length s)
      then (take_pairs take_iq_pair (length s / 8) st s, length s / 8 * 8)
      else (st, 0)

  -- `tci_process_audio_payload`, of a buffer that is not NULL
  unfoldable pub process_audio_payload : SampleBuffer (F × F) → Bool → Bytes → PayloadState F × ℕ
  unfolding payload_frames after_frames
  process_audio_payload buffer audio_only s =
      let begin : PayloadState F = record {
        buffer = buffer;
        processed = 0;
        audio_only = audio_only;
      } in
      if ltb (length s) 8
      then (begin, 0)
      else (let (st, rest) = payload_frames (length s) begin s in after_frames s st rest)

  -- `tci_read_iq_samples`: how many samples came, the ring, and what is left of the bytes
  unfoldable pub read_iq_samples :
      SampleBuffer (F × F) → Bool → Bytes → ℕ × SampleBuffer (F × F) × Bool × Bytes
  unfolding process_audio_payload
  read_iq_samples buffer audio_only s =
      let (st, consumed) = process_audio_payload buffer audio_only s in
      (
        st.processed,
        st.buffer,
        st.audio_only,
        if ltb consumed (length s) then drop consumed s else [],
      )
