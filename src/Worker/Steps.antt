-- ===== src/Worker/Steps.antt =====
-- The steps of a decode worker (cw-skimmer/src/decode_worker.c): its thread, and the thread that calls the
-- functions of decode_worker.h. A step is what happens while the lock is held, or the decoder's work
-- between.
use cw_skimmer.Prelude.{ℕ, ◌<◌, ◌≡◌, ◌⊎◌, Bool, true, false, List, [], ◌∷◌, ◌++◌, take, some}
use cw_skimmer.Prelude.Int.{ℤ, pos, negsuc}
use cw_skimmer.Worker.{
  DecoderOps, Worker, chunk_max, init, submit_iq, oldest, drop_oldest, ask_stop, finish_stop,
  mark_birdie, start, set_metadata, decode, waiting,
}

-- where the thread is: there is none, at the top of its loop, with a chunk that it has copied, behind the
-- decoder's work, or ended
pub data Phase (A : Type 0) : Type 0 where
  absent looking judging ended : Phase A
  holding : List A → Phase A

-- The worker and its thread, with the chunks that were accepted since the last start, those of them that
-- were decoded, and those that a stop threw away while they waited.
pub record System (A D : Type 0) : Type 0 where
  pub worker : Worker A D
  pub phase : Phase A
  pub accepted : List (List A)
  pub decoded : List (List A)
  pub discarded : List (List A)

module _ {A D : Type 0} (ops : DecoderOps A D) where
  -- what a submit adds to the chunks accepted
  abbrev pub admit : List (List A) → ℤ → List A → List (List A)
  admit chunks (pos n) chunk = chunks ++ take chunk_max chunk ∷ []
  admit chunks (negsuc n) chunk = chunks

  -- the thread is there where the start succeeded
  abbrev pub begun : ℤ → Phase A
  begun (pos n) = looking
  begun (negsuc n) = absent

  -- `decode_worker_start` stops the worker first; where there is no thread, none is waited for
  abbrev pub restarted : Worker A D → Worker A D
  restarted w = finish_stop (ask_stop w)

  pub data Step : System A D → System A D → Type 0 where
    submits :
        (s : System A D) (samples : List A)
        → Step s (record s {
          worker = (submit_iq s.worker (some samples)).1;
          accepted = admit s.accepted (submit_iq s.worker (some samples)).0 samples;
        })
    tunes :
        (s : System A D) (tone frequency snr now : ℕ)
        → Step s (record s { worker = set_metadata ops s.worker tone frequency snr now })
    starts :
        (s : System A D) (rate tone : ℕ) (created : Bool)
        → s.phase ≡ absent
        → Step s (record {
          worker = (start ops (restarted s.worker) rate tone created).1;
          phase = begun (start ops (restarted s.worker) rate tone created).0;
          accepted = [];
          decoded = [];
          discarded = [];
        })
    asks_stop : (s : System A D) → Step s (record s { worker = ask_stop s.worker })
    stops :
        (s : System A D)
        → (s.phase ≡ absent) ⊎ (s.phase ≡ ended)
        → Step s (record s {
          worker = finish_stop s.worker;
          phase = absent;
          discarded = waiting s.worker ++ s.discarded;
        })
    takes :
        (s : System A D) (d : D)
        → s.phase ≡ looking
        → s.worker.stop ≡ false
        → s.worker.active ≡ true
        → s.worker.decoder ≡ some d
        → 0 < s.worker.queue_count
        → Step s (record s { worker = drop_oldest s.worker; phase = holding (oldest s.worker) })
    decodes :
        (s : System A D) (d : D) (chunk : List A)
        → s.phase ≡ holding chunk
        → s.worker.decoder ≡ some d
        → Step s (record s {
          worker = record s.worker { decoder = some (decode ops s.worker d chunk) };
          phase = judging;
          decoded = s.decoded ++ chunk ∷ [];
        })
    silences :
        (s : System A D) (d : D)
        → s.phase ≡ judging
        → s.worker.decoder ≡ some d
        → ops.is_birdie d ≡ true
        → Step s (record s { worker = mark_birdie s.worker; phase = looking })
    reports :
        (s : System A D) (d : D)
        → s.phase ≡ judging
        → s.worker.decoder ≡ some d
        → ops.is_birdie d ≡ false
        → Step s (record s { phase = looking })
    ends :
        (s : System A D)
        → s.phase ≡ looking
        → s.worker.stop ≡ true
        → Step s (record s { phase = ended })

  -- a new worker, before any call
  abbrev pub initial : System A D
  initial = record { worker = init; phase = absent; accepted = []; decoded = []; discarded = [] }

  -- the states that a sequence of steps leads to
  pub data Reachable : System A D → Type 0 where
    at_first : Reachable initial
    then_step : {s s' : System A D} → Reachable s → Step s s' → Reachable s'
