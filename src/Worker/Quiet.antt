-- ===== src/Worker/Quiet.antt =====
-- What holds in every state of a decode worker (cw-skimmer/src/decode_worker.c) and its thread, and changes
-- that leave the queue alone.
use cw_skimmer.Prelude.{
  ◌≡◌, refl, sym, ap, subst, ◌∙◌, ◌⊎◌, inl, inr, Bool, true, false, List, [], ◌∷◌, ◌++◌, append-nil,
  arith, length,
}
use cw_skimmer.Prelude.Slots.{slots}
use cw_skimmer.Worker.{Worker, queue_depth, waiting}
use cw_skimmer.Worker.Steps.{Phase, absent, looking, judging, ended, holding, System}
use cw_skimmer.Worker.Flow.{AllShort, IsValid, empty-IsValid}

module _ {A : Type 0} where
  -- the chunk that the thread has copied
  abbrev pub in_hand : Phase A → List (List A)
  in_hand (holding chunk) = chunk ∷ []
  in_hand _ = []

  -- Without a thread that runs the worker is not active; and nothing is thrown away while there is one.
  abbrev pub Quiet : Phase A → Bool → List (List A) → Type 0
  Quiet absent active discarded = active ≡ false
  Quiet ended active discarded = (active ≡ false) × (discarded ≡ [])
  Quiet _ active discarded = discarded ≡ []

  pub active-quiet :
      (p : Phase A) (active : Bool) (discarded : List (List A))
      → Quiet p active discarded
      → active ≡ true
      → discarded ≡ []
  active-quiet absent active discarded q e = absurd (ground arith)
  active-quiet ended active discarded q e = q.1
  active-quiet looking active discarded q e = q
  active-quiet judging active discarded q e = q
  active-quiet (holding chunk) active discarded q e = q

  -- a stop leaves a thread that was there without more chunks
  pub asked-quiet :
      (p : Phase A) (active : Bool) (discarded : List (List A))
      → Quiet p active discarded
      → Quiet p false discarded
  asked-quiet absent active discarded q = refl
  asked-quiet ended active discarded q = (refl, q.1)
  asked-quiet looking active discarded q = q
  asked-quiet judging active discarded q = q
  asked-quiet (holding chunk) active discarded q = q

  pub absent-or_quiet :
      (p : Phase A) (active : Bool) (discarded : List (List A))
      → Quiet p active discarded
      → (p ≡ absent) ⊎ (discarded ≡ [])
  absent-or_quiet absent active discarded q = inl refl
  absent-or_quiet ended active discarded q = inr q.1
  absent-or_quiet looking active discarded q = inr q
  absent-or_quiet judging active discarded q = inr q
  absent-or_quiet (holding chunk) active discarded q = inr q

module _ {A D : Type 0} where
  pub record Flows (s : System A D) : Type 0 where
    pub valid : IsValid s.worker
    pub flow : s.accepted ≡ s.decoded ++ (in_hand s.phase ++ (waiting s.worker ++ s.discarded))
    pub stopping : (s.worker.stop ≡ false) ⊎ (s.worker.active ≡ false)
    pub quiet : Quiet s.phase s.worker.active s.discarded

  -- a change of other fields of the worker
  pub kept-IsValid :
      (w w' : Worker A D)
      → w'.iq_queue ≡ w.iq_queue
      → w'.queue_read ≡ w.queue_read
      → w'.queue_write ≡ w.queue_write
      → w'.queue_count ≡ w.queue_count
      → IsValid w
      → (IsValid w') × (waiting w' ≡ waiting w)
  kept-IsValid w w' eq er ew ec v = (
    record {
      array = ap length eq ∙ v.array;
      read_in = omega (arith, v.read_in);
      count_in = omega (arith, v.count_in);
      write_at = ew ∙ v.write_at ∙ omega arith;
      short = subst AllShort (sym same) v.short;
    },
    same,
  )
    where
      same : waiting w' ≡ waiting w
      same =
          ap (λ q. slots [] q queue_depth w'.queue_read w'.queue_count) eq
          ∙ ap (λ r. slots [] w.iq_queue queue_depth r w'.queue_count) er
          ∙ ap (λ n. slots [] w.iq_queue queue_depth w.queue_read n) ec

  pub kept-Flows :
      (s : System A D) (w : Worker A D) (p : Phase A)
      → w.iq_queue ≡ s.worker.iq_queue
      → w.queue_read ≡ s.worker.queue_read
      → w.queue_write ≡ s.worker.queue_write
      → w.queue_count ≡ s.worker.queue_count
      → in_hand p ≡ in_hand s.phase
      → (w.stop ≡ false) ⊎ (w.active ≡ false)
      → Quiet p w.active s.discarded
      → Flows s
      → Flows (record s { worker = w; phase = p })
  kept-Flows s w p eq er ew ec eh going q f =
      let (v, same) = kept-IsValid s.worker w eq er ew ec f.valid in
      record {
        valid = v;
        flow =
            f.flow
            ∙ ap (λ l. s.decoded ++ (l ++ (waiting s.worker ++ s.discarded))) (sym eh)
            ∙ ap (λ l. s.decoded ++ (in_hand p ++ (l ++ s.discarded))) (sym same);
        stopping = going;
        quiet = q;
      }

  -- an empty queue, and nothing in hand
  pub empty-Flows :
      (w : Worker A D) (p : Phase A)
      → length w.iq_queue ≡ queue_depth
      → w.queue_read ≡ 0
      → w.queue_write ≡ 0
      → w.queue_count ≡ 0
      → in_hand p ≡ []
      → w.stop ≡ false
      → Quiet p w.active []
      → Flows (record { worker = w; phase = p; accepted = []; decoded = []; discarded = [] })
  empty-Flows w p e er ew ec eh going q = record {
    valid = empty-IsValid w e er ew ec;
    flow = sym (
        ap (λ l. l ++ (waiting w ++ [])) eh
        ∙ append-nil (waiting w)
        ∙ ap (λ n. slots [] w.iq_queue queue_depth w.queue_read n) ec);
    stopping = inl going;
    quiet = q;
  }
