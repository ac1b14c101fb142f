-- ===== src/Worker/Tests.antt =====
-- A run of the model of cw-skimmer/src/decode_worker.c, and the theorems in its states.
use cw_skimmer.Prelude.{
  ℕ, ◌+◌, ◌≡◌, refl, inr, ◌⊎◌, ◌↔◌, ◌<◌, true, false, List, [], ◌∷◌, ◌++◌, some, arith, length,
  take, if◌then◌else◌,
}
use cw_skimmer.Prelude.Int.{pos, negsuc}
use cw_skimmer.Worker.{
  DecoderOps, queue_depth, chunk_max, init, submit_iq, oldest, drop_oldest, start, start_with,
  finish_stop, ask_stop, waiting, is_running,
}
use cw_skimmer.Worker.Steps.{
  absent, ended, holding, asks_stop, ends, stops, System, admit, begun, restarted, submits, starts,
  takes, initial, Reachable, at_first, then_step,
}
use cw_skimmer.Worker.Flow.{IsValid, refuses, submit_iq_lem}
use cw_skimmer.Worker.Quiet.{Flows, in_hand}
use cw_skimmer.Worker.Reach.{Reachable-flow, idle_lem}

-- a decoder that counts samples
abbrev counter : DecoderOps ℕ ℕ
counter = record {
  create = λ rate. some 0;
  set_tone = λ d tone. d;
  process_iq = λ d chunk. d + length chunk;
  update = λ d. d;
  is_birdie = λ d. false;
}

abbrev started : System ℕ ℕ
started = record {
  worker = (start counter (restarted counter init) 12_000 700 true).1;
  phase = begun counter (start counter (restarted counter init) 12_000 700 true).0;
  accepted = [];
  decoded = [];
  discarded = [];
}

started-Reachable : Reachable counter started
started-Reachable = then_step at_first (starts (initial counter) 12_000 700 true refl)

abbrev samples : List ℕ
samples = 4 ∷ 5 ∷ 6 ∷ []

abbrev fed : System ℕ ℕ
fed = record started {
  worker = (submit_iq started.worker (some samples)).1;
  accepted = admit counter [] (submit_iq started.worker (some samples)).0 samples;
}

fed-Reachable : Reachable counter fed
fed-Reachable = then_step started-Reachable (submits started samples)

abbrev busy : System ℕ ℕ
busy = record fed { worker = drop_oldest fed.worker; phase = holding (oldest fed.worker) }

busy-Reachable : Reachable counter busy
unfolding init start start_with finish_stop ask_stop submit_iq
busy-Reachable = then_step fed-Reachable (takes fed 0 refl refl refl refl (omega arith))

busy-queue : busy.worker.queue_count ≡ 0
unfolding init start start_with finish_stop ask_stop submit_iq drop_oldest
busy-queue = refl

idle_lem_example :
    (busy.accepted ≡ busy.decoded ++ (in_hand busy.phase ++ busy.discarded))
    × ((busy.phase ≡ absent) ⊎ (busy.discarded ≡ []))
idle_lem_example = idle_lem counter busy busy-Reachable busy-queue

-- no chunk waits, and the one accepted is not decoded yet
busy_run : (busy.accepted ≡ samples ∷ []) × (busy.decoded ≡ []) × (is_running busy.worker ≡ true)
unfolding init start start_with finish_stop ask_stop submit_iq drop_oldest is_running
busy_run = (refl, refl, refl)

submit_iq_lem_example :
    let (res, w') = submit_iq fed.worker (some samples) in
    IsValid w'
    × (res ≡ (if refuses fed.worker then negsuc 0 else pos 0))
    × (waiting w' ≡ (
        if refuses fed.worker
        then waiting fed.worker
        else waiting fed.worker ++ take chunk_max samples ∷ []))
    × (w' ≡ (
        if refuses fed.worker then fed.worker else record fed.worker {
          iq_queue = w'.iq_queue;
          queue_write = w'.queue_write;
          queue_count = w'.queue_count;
        }))
    × ((res ≡ pos 0) ↔ (
        (fed.worker.active ≡ true)
        × (fed.worker.birdie ≡ false)
        × (length (waiting fed.worker) < queue_depth)))
submit_iq_lem_example =
    submit_iq_lem fed.worker 4 (5 ∷ 6 ∷ []) (Reachable-flow counter fed-Reachable).valid

-- the worker is stopped while a chunk waits
abbrev asked : System ℕ ℕ
asked = record fed { worker = ask_stop fed.worker }

abbrev over : System ℕ ℕ
over = record asked { phase = ended }

abbrev stopped : System ℕ ℕ
stopped = record over {
  worker = finish_stop over.worker;
  phase = absent;
  discarded = waiting over.worker ++ over.discarded;
}

over-Reachable : Reachable counter over
unfolding init start start_with finish_stop ask_stop submit_iq
over-Reachable = then_step (then_step fed-Reachable (asks_stop fed)) (ends asked refl refl)

stopped-Reachable : Reachable counter stopped
stopped-Reachable = then_step over-Reachable (stops over (inr refl))

-- that chunk was accepted, and is thrown away
stopped_run :
    (stopped.accepted ≡ samples ∷ []) × (stopped.decoded ≡ []) × (stopped.discarded ≡ samples ∷ [])
unfolding init start start_with finish_stop ask_stop submit_iq
stopped_run = (refl, refl, refl)

Reachable-flow_example : Flows stopped
Reachable-flow_example = Reachable-flow counter stopped-Reachable
