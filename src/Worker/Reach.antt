-- ===== src/Worker/Reach.antt =====
-- The states that a decode worker (cw-skimmer/src/decode_worker.c) and its thread can reach.
use cw_skimmer.Prelude.{
  ◌≡◌, refl, sym, ap, subst, ◌∙◌, ◌⊎◌, inl, inr, true, false, [], ◌++◌, some, arith,
}
use cw_skimmer.Prelude.Slots.{slots}
use cw_skimmer.Worker.{DecoderOps, Worker, queue_depth, ask_stop, mark_birdie, set_metadata, decode}
use cw_skimmer.Worker.Steps.{
  absent, looking, ended, System, Step, submits, tunes, starts, asks_stop, stops, takes, decodes,
  silences, reports, ends, Reachable, at_first, then_step,
}
use cw_skimmer.Worker.Quiet.{
  in_hand, Quiet, asked-quiet, absent-or_quiet, Flows, kept-IsValid, kept-Flows,
}
use cw_skimmer.Worker.Moves.{
  initial-Flows, submit-Flows, start-Flows, stop-Flows, take-Flows, decode-Flows,
}

module _ {A D : Type 0} where
  stopped-inactive :
      (w : Worker A D) → (w.stop ≡ false) ⊎ (w.active ≡ false) → w.stop ≡ true → w.active ≡ false
  stopped-inactive w (inl going) h = absurd (ground arith)
  stopped-inactive w (inr idle) h = idle

  Step-Flows : (ops : DecoderOps A D) {s s' : System A D} → Step ops s s' → Flows s → Flows s'
  unfolding set_metadata ask_stop mark_birdie
  Step-Flows ops (submits s samples) f = submit-Flows ops s samples f
  Step-Flows ops (tunes s tone frequency snr now) f =
      kept-Flows s _ s.phase refl refl refl refl refl f.stopping f.quiet f
  Step-Flows ops (starts s rate tone created e) f =
      start-Flows ops s.worker rate tone created f.valid.array
  Step-Flows ops (asks_stop s) f =
      kept-Flows s _ s.phase refl refl refl refl refl (inr refl)
        (asked-quiet s.phase s.worker.active s.discarded f.quiet) f
  Step-Flows ops (stops s e) f = stop-Flows s e f
  Step-Flows ops (takes s d e going on made h) f = take-Flows s e h f
  Step-Flows ops (decodes s d chunk e made) f =
      let (v, same) = kept-IsValid s.worker _ refl refl refl refl f.valid in
      decode-Flows s (record s.worker { decoder = some (decode ops s.worker d chunk) }) chunk e v
        same f.stopping f
  Step-Flows ops (silences s d e made bird) f =
      kept-Flows s _ looking refl refl refl refl (sym (ap in_hand e)) (inr refl)
        (subst (λ p. Quiet p s.worker.active s.discarded) e f.quiet) f
  Step-Flows ops (reports s d e made bird) f =
      kept-Flows s s.worker looking refl refl refl refl (sym (ap in_hand e)) f.stopping
        (subst (λ p. Quiet p s.worker.active s.discarded) e f.quiet) f
  Step-Flows ops (ends s e going) f =
      kept-Flows s s.worker ended refl refl refl refl (sym (ap in_hand e)) f.stopping
        (
          stopped-inactive s.worker f.stopping going,
          subst (λ p. Quiet p s.worker.active s.discarded) e f.quiet,
        )
        f

  -- In every state that the calls and the thread's steps can reach, in any interleaving: the queue's
  -- indices stay inside its arrays, at most 8 chunks wait, and the chunks accepted since the last start
  -- are, in their order, those decoded, then the one that the thread has in hand, then those that
  -- wait, then those that waited when a stop threw them away: none is decoded twice or overtaken,
  -- and none is lost but by a stop. As long as there is a thread, none has been thrown away; a
  -- worker without a thread, or with one that has ended, is not active.
  pub Reachable-flow : (ops : DecoderOps A D) {s : System A D} → Reachable ops s → Flows s
  Reachable-flow ops at_first = initial-Flows ops
  Reachable-flow ops (then_step before step) = Step-Flows ops step (Reachable-flow ops before)

  -- Where no chunk waits, which is what `decode_worker_wait_idle` waits for, the chunks accepted since
  -- the last start are those decoded, then one that the thread may still have in hand, then those
  -- that a stop has thrown away; as long as there is a thread, there are none of the last.
  pub idle_lem :
      (ops : DecoderOps A D) (s : System A D)
      → Reachable ops s
      → s.worker.queue_count ≡ 0
      → (s.accepted ≡ s.decoded ++ (in_hand s.phase ++ s.discarded))
        × ((s.phase ≡ absent) ⊎ (s.discarded ≡ []))
  idle_lem ops s reach e =
      let f = Reachable-flow ops reach in
      (
        f.flow
            ∙ ap
                (λ n.
                  s.decoded
                  ++ (in_hand s.phase
                      ++ (slots [] s.worker.iq_queue queue_depth s.worker.queue_read n
                          ++ s.discarded)))
                e,
        absent-or_quiet s.phase s.worker.active s.discarded f.quiet,
      )
