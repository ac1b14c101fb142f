-- ===== src/Worker/Moves.antt =====
-- The steps of a decode worker (cw-skimmer/src/decode_worker.c) that move a chunk, start or stop.
use cw_skimmer.Prelude.{
  ℕ, ◌<◌, ◌≡◌, refl, sym, ap, subst, ◌∙◌, ◌⊎◌, inl, inr, Bool-cases, Bool, true, false, List, [],
  ◌∷◌, ◌++◌, append_assoc, append-nil, Option, none, some, arith, length, length-replicate, take,
  if◌then◌else◌,
}
use cw_skimmer.Prelude.Int.{pos, negsuc}
use cw_skimmer.Worker.{
  DecoderOps, Worker, chunk_max, queue_depth, init, submit_iq, oldest, drop_oldest, ask_stop,
  finish_stop, start, start_with, waiting,
}
use cw_skimmer.Worker.Steps.{
  absent, looking, judging, ended, holding, System, admit, begun, restarted, initial,
}
use cw_skimmer.Worker.Flow.{IsValid, empty-IsValid, refuses, submit_iq_lem, drop_oldest_lem}
use cw_skimmer.Worker.Quiet.{in_hand, Quiet, active-quiet, Flows, empty-Flows}

module _ {A D : Type 0} where
  pub initial-Flows : (ops : DecoderOps A D) → Flows (initial ops)
  unfolding init
  initial-Flows ops =
      empty-Flows _ absent (length-replicate {A = List A} queue_depth []) refl refl refl refl refl
        refl

  -- what `admit` adds is what the queue takes
  admit-flow :
      (ops : DecoderOps A D) (bad : Bool) (accepted decoded hand queue discarded : List (List A))
      (samples chunk : List A)
      → (bad ≡ false → discarded ≡ [])
      → chunk ≡ take chunk_max samples
      → accepted ≡ decoded ++ (hand ++ (queue ++ discarded))
      → admit ops accepted (if bad then negsuc 0 else pos 0) samples
        ≡ decoded ++ (hand ++ ((if bad then queue else queue ++ chunk ∷ []) ++ discarded))
  admit-flow ops true accepted decoded hand queue discarded samples chunk none_gone ec e = e
  admit-flow ops false accepted decoded hand queue discarded samples chunk none_gone ec e =
      let gone = none_gone refl in
      ap (λ c. accepted ++ c ∷ []) (sym ec)
      ∙ ap (λ l. l ++ chunk ∷ [])
          (e
            ∙ ap (λ l. decoded ++ (hand ++ (queue ++ l))) gone
            ∙ ap (λ l. decoded ++ (hand ++ l)) (append-nil queue))
      ∙ append_assoc decoded (hand ++ queue) (chunk ∷ [])
      ∙ ap (λ l. decoded ++ l) (append_assoc hand queue (chunk ∷ []))
      ∙ ap (λ l. decoded ++ (hand ++ l))
          (sym (append-nil (queue ++ chunk ∷ [])) ∙ ap (λ l. (queue ++ chunk ∷ []) ++ l) (sym gone))

  refuses-active : (w : Worker A D) → refuses w ≡ false → w.active ≡ true
  refuses-active w h = ground arith

  submit_iq-active :
      (w : Worker A D) (a : A) (samples : List A)
      → (submit_iq w (some (a ∷ samples))).1.active ≡ w.active
  unfolding submit_iq
  submit_iq-active w a samples = elim (Bool-cases (refuses w)) [
    | inl bad ↦ rw bad refl
    | inr good ↦ rw good refl
  ]

  submit_iq-stop :
      (w : Worker A D) (a : A) (samples : List A)
      → (submit_iq w (some (a ∷ samples))).1.stop ≡ w.stop
  unfolding submit_iq
  submit_iq-stop w a samples = elim (Bool-cases (refuses w)) [
    | inl bad ↦ rw bad refl
    | inr good ↦ rw good refl
  ]

  pub submit-Flows :
      (ops : DecoderOps A D) (s : System A D) (samples : List A)
      → Flows s
      → Flows (record s {
        worker = (submit_iq s.worker (some samples)).1;
        accepted = admit ops s.accepted (submit_iq s.worker (some samples)).0 samples;
      })
  unfolding submit_iq
  submit-Flows ops s [] f = f
  submit-Flows ops s (a ∷ samples) f =
      let (v, res, queue, others, when) = submit_iq_lem s.worker a samples f.valid in
      record {
        valid = v;
        flow =
            ap (λ r. admit ops s.accepted r (a ∷ samples)) res
            ∙ admit-flow ops (refuses s.worker) s.accepted s.decoded (in_hand s.phase)
                (waiting s.worker) s.discarded (a ∷ samples) _
                (λ h.
                  active-quiet s.phase s.worker.active s.discarded f.quiet
                    (refuses-active s.worker h))
                refl f.flow
            ∙ ap (λ l. s.decoded ++ (in_hand s.phase ++ (l ++ s.discarded))) (sym queue);
        stopping =
            subst (λ b. (b ≡ false) ⊎ ((submit_iq s.worker (some (a ∷ samples))).1.active ≡ false))
              (sym (submit_iq-stop s.worker a samples))
              (subst (λ b. (s.worker.stop ≡ false) ⊎ (b ≡ false))
                (sym (submit_iq-active s.worker a samples)) f.stopping);
        quiet =
            subst (λ b. Quiet s.phase b s.discarded) (sym (submit_iq-active s.worker a samples))
              f.quiet;
      }

  start_with-Flows :
      (ops : DecoderOps A D) (w : Worker A D) (tone : ℕ) (created : Bool) (made : Option D)
      → length w.iq_queue ≡ queue_depth
      → let (res, w') = start_with ops (restarted ops w) tone created made in
        Flows (record {
          worker = w';
          phase = begun ops res;
          accepted = [];
          decoded = [];
          discarded = [];
        })
  unfolding start_with finish_stop ask_stop
  start_with-Flows ops w tone created none h = empty-Flows _ absent h refl refl refl refl refl refl
  start_with-Flows ops w tone true (some d) h =
      empty-Flows _ looking h refl refl refl refl refl refl
  start_with-Flows ops w tone false (some d) h =
      empty-Flows _ absent h refl refl refl refl refl refl

  pub start-Flows :
      (ops : DecoderOps A D) (w : Worker A D) (rate tone : ℕ) (created : Bool)
      → length w.iq_queue ≡ queue_depth
      → let (res, w') = start ops (restarted ops w) rate tone created in
        Flows (record {
          worker = w';
          phase = begun ops res;
          accepted = [];
          decoded = [];
          discarded = [];
        })
  unfolding start
  start-Flows ops w rate tone created h = start_with-Flows ops w tone created (ops.create rate) h

  -- what waited is thrown away: it moves from the queue to those discarded
  pub stop-Flows :
      (s : System A D)
      → (s.phase ≡ absent) ⊎ (s.phase ≡ ended)
      → Flows s
      → Flows (record s {
        worker = finish_stop s.worker;
        phase = absent;
        discarded = waiting s.worker ++ s.discarded;
      })
  unfolding finish_stop
  stop-Flows s e f = record {
    valid = empty-IsValid _ f.valid.array refl refl refl;
    flow = f.flow ∙ ap (λ l. s.decoded ++ (l ++ (waiting s.worker ++ s.discarded))) (no_hand e);
    stopping = inl refl;
    quiet = at_rest e;
  }
    where
      no_hand : (s.phase ≡ absent) ⊎ (s.phase ≡ ended) → in_hand s.phase ≡ []
      no_hand (inl e) = ap in_hand e
      no_hand (inr e) = ap in_hand e

      at_rest : (s.phase ≡ absent) ⊎ (s.phase ≡ ended) → s.worker.active ≡ false
      at_rest (inl e) = subst (λ p. Quiet p s.worker.active s.discarded) e f.quiet
      at_rest (inr e) = (subst (λ p. Quiet p s.worker.active s.discarded) e f.quiet).0

  drop_oldest-going :
      (w : Worker A D)
      → (w.stop ≡ false) ⊎ (w.active ≡ false)
      → ((drop_oldest w).stop ≡ false) ⊎ ((drop_oldest w).active ≡ false)
  unfolding drop_oldest
  drop_oldest-going w going = going

  pub take-Flows :
      (s : System A D)
      → s.phase ≡ looking
      → 0 < s.worker.queue_count
      → Flows s
      → Flows (record s { worker = drop_oldest s.worker; phase = holding (oldest s.worker) })
  take-Flows s e h f =
      let (v, first) = drop_oldest_lem s.worker f.valid h in
      record {
        valid = v;
        flow =
            f.flow
            ∙ ap (λ l. s.decoded ++ (l ++ (waiting s.worker ++ s.discarded))) (ap in_hand e)
            ∙ ap (λ l. s.decoded ++ (l ++ s.discarded)) first;
        stopping = drop_oldest-going s.worker f.stopping;
        quiet = unfold drop_oldest in subst (λ p. Quiet p s.worker.active s.discarded) e f.quiet;
      }

  pub decode-Flows :
      (s : System A D) (w : Worker A D) (chunk : List A)
      → s.phase ≡ holding chunk
      → IsValid w
      → waiting w ≡ waiting s.worker
      → (w.stop ≡ false) ⊎ (w.active ≡ false)
      → Flows s
      → Flows (record s { worker = w; phase = judging; decoded = s.decoded ++ chunk ∷ [] })
  decode-Flows s w chunk e v same going f = record {
    valid = v;
    flow =
        f.flow
        ∙ ap (λ l. s.decoded ++ (l ++ (waiting s.worker ++ s.discarded))) (ap in_hand e)
        ∙ ap (λ l. s.decoded ++ chunk ∷ (l ++ s.discarded)) (sym same)
        ∙ sym (append_assoc s.decoded (chunk ∷ []) (waiting w ++ s.discarded));
    stopping = going;
    quiet = subst (λ p. Quiet p s.worker.active s.discarded) e f.quiet;
  }
