-- ===== src/Radio/Control/Tci.antt =====
-- What `radio_control_service` of cw-skimmer/src/radio_control.c sends while the TCI client carries the
-- keying: the mode that needs no connection of its own.
use mathlib.Core.List.{map-append}
use cw_skimmer.Prelude.{
  ◌+◌, ◌-◌, ◌^◌, ◌<◌, ◌≡◌, refl, sym, ap, ap₂, ◌∙◌, true, false, List, [], ◌∷◌, ◌++◌, map, some,
  arith, append_assoc, append-nil, inl, inr, Bool-cases, if◌then◌else◌,
}
use cw_skimmer.Prelude.Int.{ℤ, pos, pos_part}
use cw_skimmer.Prelude.Bytes.{Bytes, codes}
use cw_skimmer.Radio.Text.{
  text_size, clamp_wpm, is_frequency, receiver, sanitize_from, dds_text, vfo_text, format_tune,
  macro_text, format_cw_macro, keyer_text, macros_text,
}
use cw_skimmer.Radio.Text.Commands.{format_tune_lem, format_cw_macro_lem, format_wpm_lem}
use cw_skimmer.Radio.Queue.{Op, tune, cw, stop, queue_size, take_batch, waiting}
use cw_skimmer.Radio.Queue.Refine.{take_batch_lem, waiting_none}
use cw_skimmer.Radio.Control.{RadioControl, SendMode, tci, KyState, down, clear_queue}
use cw_skimmer.Radio.Control.Outside.{Answers, Sent, to_tci, Run, on_rc, send_tci}
use cw_skimmer.Radio.Control.Keyer.{ky_send_speed, send_speed_in}
use cw_skimmer.Radio.Control.Service.{
  send_formatted, send_speed, send_tuning, send_macro, run_op, run_batch, serve_mode,
  serve_connected, service,
}
use cw_skimmer.Radio.Control.Sound.{IsSound}

abbrev pub macro_for : ℤ → Bytes → List Bytes
macro_for rx [] = []
macro_for rx (c ∷ s) = macro_text rx (c ∷ s) ∷ []

-- The commands that one operation stands for.
abbrev pub commands : ℤ → Op → List Bytes
commands rx (tune hz) = if is_frequency hz then dds_text rx hz ∷ vfo_text rx hz ∷ [] else []
commands rx (cw text) = macro_for rx (sanitize_from text (text_size - 1))
commands rx stop = codes "cw_macros_stop;" ∷ []

abbrev pub all_commands : ℤ → List Op → List Bytes
all_commands rx [] = []
all_commands rx (op ∷ ops) = commands rx op ++ all_commands rx ops

abbrev pub emit : Run → List Bytes → Run
emit r cmds = record r { sent = r.sent ++ map to_tci cmds }

emit-append : (r : Run) (xs ys : List Bytes) → emit (emit r xs) ys ≡ emit r (xs ++ ys)
emit-append r xs ys =
    ap (λ (l : List Sent). record r { sent = l })
      (append_assoc r.sent (map to_tci xs) (map to_tci ys)
        ∙ ap (◌++◌ r.sent) (sym (map-append to_tci xs ys)))

emit-nil : (r : Run) → emit r [] ≡ r
emit-nil r = ap (λ (l : List Sent). record r { sent = l }) (append-nil r.sent)

-- The parts of the formatting functions, at the sizes of the service's buffers.
send_tuning-commands :
    (r : Run) (rx hz : ℤ)
    → pos_part rx < 2 ^ 31
    → send_tuning r (format_tune rx hz (some []) 64 (some []) 64)
      ≡ emit r (commands (receiver rx) (tune hz))
unfolding send_tuning send_tci dds_text vfo_text
send_tuning-commands r rx hz h =
    rw (format_tune_lem rx hz [] [] 64 64 h (omega arith) (omega arith))
      (elim (Bool-cases (is_frequency hz)) [
        | inl good ↦
            rw good
              (emit-append r (dds_text (receiver rx) hz ∷ []) (vfo_text (receiver rx) hz ∷ []))
        | inr bad ↦ rw bad (sym (emit-nil r))
      ])

macro_empty :
    (rx : ℤ) (text : Bytes)
    → sanitize_from text (text_size - 1) ≡ []
    → format_cw_macro rx (some text) (some []) (text_size + 32) ≡ (pos 0, some [])
unfolding format_cw_macro
macro_empty rx text e = rw e

send_macro-commands :
    (r : Run) (rx : ℤ) (text : Bytes)
    → pos_part rx < 2 ^ 31
    → send_macro r (format_cw_macro rx (some text) (some []) (text_size + 32))
      ≡ emit r (commands (receiver rx) (cw text))
unfolding send_macro send_tci macro_text
send_macro-commands r rx text h = split (sanitize_from text (text_size - 1)) refl
  where
    split :
        (clean : Bytes)
        → sanitize_from text (text_size - 1) ≡ clean
        → send_macro r (format_cw_macro rx (some text) (some []) (text_size + 32))
          ≡ emit r (commands (receiver rx) (cw text))
    split [] e = rw (macro_empty rx text e, e) (sym (emit-nil r))
    split (c ∷ s) e =
        let full =
          format_cw_macro_lem rx text [] (text_size + 32) h (omega arith) (λ n. cc (e, n)) in
        rw (full.0, e) refl

module _ (answers : Answers) where
  run_op-commands :
      (rx : ℤ) (r : Run) (op : Op)
      → pos_part rx < 2 ^ 31
      → run_op answers tci rx r op ≡ emit r (commands (receiver rx) op)
  unfolding run_op send_tci
  run_op-commands rx r (tune hz) h = send_tuning-commands r rx hz h
  run_op-commands rx r (cw text) h = send_macro-commands r rx text h
  run_op-commands rx r stop h = refl

  run_batch-commands :
      (rx : ℤ) (r : Run) (ops : List Op)
      → pos_part rx < 2 ^ 31
      → run_batch answers tci rx r ops ≡ emit r (all_commands (receiver rx) ops)
  unfolding run_batch
  run_batch-commands rx r [] h = sym (emit-nil r)
  run_batch-commands rx r (op ∷ ops) h = rw (run_op-commands rx r op h) (
      run_batch-commands rx (emit r (commands (receiver rx) op)) ops h
      ∙ emit-append r (commands (receiver rx) op) (all_commands (receiver rx) ops))

  send_speed_in_down : (r : Run) (st : KyState) → st ≡ down → send_speed_in answers r st ≡ r
  unfolding send_speed_in
  send_speed_in_down r st e = rw e

  -- the speed commands, where the keyer's own connection is down
  send_speed-commands :
      (r : Run) (wpm : ℤ)
      → r.rc.ky_state ≡ down
      → send_speed answers r wpm
        ≡ emit r (keyer_text (clamp_wpm wpm) ∷ macros_text (clamp_wpm wpm) ∷ [])
  unfolding send_speed send_formatted ky_send_speed send_tci keyer_text macros_text
  send_speed-commands r wpm e =
      let (n, lo, hi, clamped, formatted) =
        format_wpm_lem wpm [] [] 32 32 (omega arith) (omega arith) in
      rw (formatted, clamped)
        (send_speed_in_down (emit (emit r (keyer_text (pos n) ∷ [])) (macros_text (pos n) ∷ [])) _ e
          ∙ emit-append r (keyer_text (pos n) ∷ []) (macros_text (pos n) ∷ []))

abbrev pub speed_commands : RadioControl → List Bytes
speed_commands rc =
    if rc.speed_dirty
    then keyer_text (clamp_wpm rc.wpm) ∷ macros_text (clamp_wpm rc.wpm) ∷ []
    else []

-- the object when the service has taken its batch
abbrev pub served : RadioControl → RadioControl
served rc = record rc { speed_dirty = false; queue = (take_batch queue_size rc.queue).1 }

receiver-receiver : (rx : ℤ) → receiver (receiver rx) ≡ receiver rx
receiver-receiver rx = ground arith

receiver-lt : (rx : ℤ) → pos_part rx < 2 ^ 31 → pos_part (receiver rx) < 2 ^ 31
receiver-lt rx h = ground arith

timed_lem :
    (answers : Answers) (r : Run) (rc : RadioControl)
    → r.rc.ky_state ≡ down
    → (if rc.speed_dirty then send_speed answers r rc.wpm else r) ≡ emit r (speed_commands rc)
timed_lem answers r rc e = elim (Bool-cases rc.speed_dirty) [
  | inl dirty ↦ rw dirty (send_speed-commands answers r rc.wpm e)
  | inr clean ↦ rw clean (sym (emit-nil r))
]

-- With a connected client that plays no training file, and the TCI client as the carrier of the
-- keying, one service call hands over the two speed commands if the speed was changed, then the
-- commands of every operation that waited, in the order of the requests: a tuning as `dds` and `vfo`,
-- a text as one macro, a stop. The queue is then empty, and apart from it and the mark for the speed
-- the object is as before, whatever the system answers. While a training file plays, a call sends
-- and asks nothing: what waits in the queue and in the keyer's backlog is thrown away, and the mark
-- for the speed stays.
pub service_tci :
    (answers : Answers) (r : Run) (vfo : ℤ)
    → IsSound r.rc
    → r.rc.mode ≡ tci
    → pos_part vfo < 2 ^ 31
    → (service answers false (some vfo) r
        ≡ emit
            (on_rc r (served r.rc))
            (speed_commands r.rc ++ all_commands (receiver vfo) (waiting r.rc.queue)))
      × (waiting (served r.rc).queue ≡ [])
      × (let r' = service answers true (some vfo) r in
          (waiting r'.rc.queue ≡ [])
          × (r'.rc.ky_backlog ≡ [])
          × (r'.rc.speed_dirty ≡ r.rc.speed_dirty)
          × (r'.sent ≡ r.sent)
          × (r'.asked ≡ r.asked))
unfolding service serve_connected serve_mode clear_queue
service_tci answers r vfo v m h =
    let (valid, none_left, batch) =
      take_batch_lem queue_size r.rc.queue v.queue_valid v.queue_valid.count_in in
    let started = on_rc r (served r.rc) in
    let rx = receiver vfo in
    let batch_of : SendMode → List Op → Run = λ mode ops.
      run_batch answers mode rx
        (let first = serve_mode answers mode started in
          if r.rc.speed_dirty then send_speed answers first r.rc.wpm else first)
        ops in
    (
      ap₂ batch_of m batch
          ∙ run_batch-commands answers rx _ (waiting r.rc.queue) (receiver-lt vfo h)
          ∙ ap₂ (λ first k. emit first (all_commands k (waiting r.rc.queue)))
              (timed_lem answers started r.rc (v.idle m)) (receiver-receiver vfo)
          ∙ emit-append started (speed_commands r.rc) (all_commands rx (waiting r.rc.queue)),
      waiting_none _ none_left,
      (refl, refl, refl, refl, refl),
    )
