-- ===== src/Worker.antt =====
-- The decode worker of cw-skimmer/src/decode_worker.c: the queue of the chunks of I/Q samples for one
-- channel, and the thread that takes them to the channel's decoder. A sample is a parameter, and so is
-- the decoder (cw_decoder.c), by the operations that the thread calls. The texts that the thread hands to
-- its callback are left out. The pointer to the worker is not NULL.
pub mod Steps
pub mod Flow
pub mod Quiet
pub mod Moves
pub mod Reach
mod Tests
use cw_skimmer.Prelude.{
  ℕ, zero, suc, ◌+◌, ◌-◌, ◌%◌, Bool, true, false, not, ◌&&◌, ◌||◌, List, [], ◌∷◌, Option, none,
  some, take, length, get_or, set, replicate, leb, if◌then◌else◌,
}
use cw_skimmer.Prelude.Int.{ℤ, pos, negsuc}
use cw_skimmer.Prelude.Slots.{slots}

-- DECODE_WORKER_IQ_CHUNK and DECODE_WORKER_QUEUE_DEPTH
abbrev pub chunk_max : ℕ
chunk_max = 1024

abbrev pub queue_depth : ℕ
queue_depth = 8

-- what is called of the decoder: `none` where `cw_decoder_create` fails
pub record DecoderOps (A D : Type 0) : Type 0 where
  pub create : ℕ → Option D
  pub set_tone : D → ℕ → D
  pub process_iq : D → List A → D
  pub update : D → D
  pub is_birdie : D → Bool

-- `decode_worker_t`. A row of `iq_queue` with its length is the list of its samples; a `float` is given by
-- its bits.
pub record Worker (A D : Type 0) : Type 0 where
  pub active : Bool
  pub stop : Bool
  pub birdie : Bool
  pub tone_offset_hz : ℕ
  pub frequency_hz : ℕ
  pub peak_snr : ℕ
  pub last_active : ℕ
  pub decoder : Option D
  pub thread_running : Bool
  pub iq_queue : List (List A)
  pub queue_write : ℕ
  pub queue_read : ℕ
  pub queue_count : ℕ

module _ {A D : Type 0} where
  -- `decode_worker_init`
  unfoldable pub init : Worker A D
  init = record {
    active = false;
    stop = false;
    birdie = false;
    tone_offset_hz = 0;
    frequency_hz = 0;
    peak_snr = 0;
    last_active = 0;
    decoder = none;
    thread_running = false;
    iq_queue = replicate queue_depth [];
    queue_write = 0;
    queue_read = 0;
    queue_count = 0;
  }

  -- `decode_worker_submit_iq`; a `count` that is not positive is an empty list
  unfoldable pub submit_iq : Worker A D → Option (List A) → ℤ × Worker A D
  submit_iq w none = (negsuc 0, w)
  submit_iq w (some []) = (negsuc 0, w)
  submit_iq w (some (a ∷ samples)) =
      if not w.active || w.birdie || leb queue_depth w.queue_count then (negsuc 0, w) else (
        pos 0,
        record w {
          iq_queue = set w.iq_queue w.queue_write (take chunk_max (a ∷ samples));
          queue_write = (w.queue_write + 1) % queue_depth;
          queue_count = w.queue_count + 1;
        },
      )

  -- the chunk that the thread copies under the lock, and the queue without it
  abbrev pub oldest : Worker A D → List A
  oldest w = take chunk_max (get_or w.iq_queue w.queue_read [])

  unfoldable pub drop_oldest : Worker A D → Worker A D
  drop_oldest w = record w {
    queue_read = (w.queue_read + 1) % queue_depth;
    queue_count = w.queue_count - 1;
  }

  -- `decode_worker_is_running`
  unfoldable pub is_running : Worker A D → Bool
  is_running w = w.active && not w.birdie

  -- `decode_worker_stop`, up to where the thread is joined
  unfoldable pub ask_stop : Worker A D → Worker A D
  ask_stop w = record w { stop = true; active = false; thread_running = false }

  -- and from there on
  unfoldable pub finish_stop : Worker A D → Worker A D
  finish_stop w = record w {
    decoder = none;
    stop = false;
    birdie = false;
    queue_write = 0;
    queue_read = 0;
    queue_count = 0;
  }

  -- the thread has found a steady carrier
  unfoldable pub mark_birdie : Worker A D → Worker A D
  mark_birdie w = record w { birdie = true; active = false }

  module _ (ops : DecoderOps A D) where
    -- `decode_worker_start` behind its call of `decode_worker_stop`, where the decoder is made or not
    unfoldable pub start_with : Worker A D → ℕ → Bool → Option D → ℤ × Worker A D
    start_with w tone created none = (negsuc 0, record w { decoder = none })
    start_with w tone created (some d) =
        let w' = record w {
          decoder = some (ops.set_tone d tone);
          tone_offset_hz = tone;
          birdie = false;
          stop = false;
          active = true;
          queue_write = 0;
          queue_read = 0;
          queue_count = 0;
          thread_running = false;
        } in
        if created
        then (pos 0, record w' { thread_running = true })
        else (negsuc 0, record w' { decoder = none; active = false })

    -- at a sample rate, and a tone; `created` says whether `pthread_create` succeeds
    unfoldable pub start : Worker A D → ℕ → ℕ → Bool → ℤ × Worker A D
    unfolding start_with
    start w sample_rate tone created = start_with w tone created (ops.create sample_rate)

    abbrev pub retuned : Option D → ℕ → Option D
    retuned none tone = none
    retuned (some d) tone = some (ops.set_tone d tone)

    -- `decode_worker_set_metadata`
    unfoldable pub set_metadata : Worker A D → ℕ → ℕ → ℕ → ℕ → Worker A D
    set_metadata w tone frequency snr now = record w {
      tone_offset_hz = tone;
      frequency_hz = frequency;
      peak_snr = snr;
      last_active = now;
      decoder = retuned w.decoder tone;
    }

    -- what the thread does with a chunk, outside the lock
    unfoldable pub decode : Worker A D → D → List A → D
    decode w d chunk = ops.update (ops.process_iq (ops.set_tone d w.tone_offset_hz) chunk)

  -- the chunks that wait, oldest first
  abbrev pub waiting : Worker A D → List (List A)
  waiting w = slots [] w.iq_queue queue_depth w.queue_read w.queue_count
