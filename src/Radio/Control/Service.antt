-- ===== src/Radio/Control/Service.antt =====
-- `rc_ky_service` and `radio_control_service` of cw-skimmer/src/radio_control.c. The loop over the
-- lines received has fuel for one round more than bytes have been received: each round that goes on
-- takes at least one of them, as `Radio.Control.Lines` shows.
use cw_skimmer.Prelude.{
  zero, suc, ◌+◌, Bool, true, false, List, [], ◌∷◌, Option, none, some, length, ltb, leb,
  if◌then◌else◌,
}
use cw_skimmer.Prelude.Int.{ℤ, pos}
use cw_skimmer.Prelude.Bytes.{Bytes, codes}
use cw_skimmer.Radio.Text.{text_size, receiver, format_tune, format_cw_macro, format_wpm}
use cw_skimmer.Radio.Queue.{Op, tune, cw, stop, queue_size, take_batch}
use cw_skimmer.Radio.Control.{SendMode, tci, ky, KyState, down, connecting, ready, clear_queue}
use cw_skimmer.Radio.Control.Outside.{Answers, Run, asking, on_rc, send_tci}
use cw_skimmer.Radio.Control.Keyer.{
  ky_write, ky_send_speed, ky_open, ky_finish_connect, ky_read, ky_append, serve_lines,
}

-- the two commands of a tuning, where `radio_control_format_tune` gives them
unfoldable pub send_tuning : Run → ℤ × Option Bytes × Option Bytes → Run
send_tuning r (pos zero, some dds, some vfo) = send_tci (send_tci r dds) vfo
send_tuning r _ = r

unfoldable pub send_macro : Run → ℤ × Option Bytes → Run
send_macro r (pos (suc n), some cmd) = send_tci r cmd
send_macro r _ = r

module _ (answers : Answers) where
  -- after the question `KY;`: an answer is awaited where it was sent
  abbrev pub mark_asked : Bool × Run → Run
  mark_asked (true, r) = on_rc r (record r.rc { ky_awaiting = true })
  mark_asked (false, r) = r

  -- behind the loop: ask the keyer whether it is free, if text waits and no answer is awaited
  unfoldable pub poll_keyer : Run → KyState → Run
  poll_keyer r ready =
      let r' = asking r in
      let ask = mark_asked (ky_write answers r' (codes "KY;")) in
      if r.rc.ky_awaiting
      then r
      else if ltb (answers.now_ms r.asked) r.rc.ky_next_ms
      then r'
      else if leb (length r.rc.ky_backlog) r.rc.ky_pos
      then r'
      else ask
  poll_keyer r _ = r

  unfoldable pub after_lines : Run → Option (Bool × Run) → Run
  after_lines r none = r
  after_lines r (some (true, r')) = poll_keyer r' r'.rc.ky_state
  after_lines r (some (false, r')) = r'

  unfoldable pub serve_ready : Run → Run
  serve_ready r =
      let r' = ky_read answers r in after_lines r' (serve_lines answers (length r'.rc.ky_rx + 1) r')

  -- the steps of `rc_ky_service`, each in the `ky_state` that the one before it left
  unfoldable pub open_in : Run → KyState → Run
  open_in r down = ky_open answers r
  open_in r _ = r

  unfoldable pub finish_in : Run → KyState → Run
  finish_in r connecting = ky_finish_connect answers r
  finish_in r _ = r

  unfoldable pub serve_in : Run → KyState → Run
  serve_in r ready = serve_ready r
  serve_in r _ = r

  abbrev pub then_in : (Run → KyState → Run) → Run → Run
  then_in step r = step r r.rc.ky_state

  -- `rc_ky_service`, in `mode`
  unfoldable pub ky_service_in : Run → SendMode → Run
  ky_service_in r tci = r
  ky_service_in r ky = then_in serve_in (then_in finish_in (then_in open_in r))

  unfoldable pub ky_service : Run → Run
  ky_service r = ky_service_in r r.rc.mode

  -- the two commands of `rc_send_speed`, where `radio_control_format_wpm` gives them
  unfoldable pub send_formatted : Run → ℤ × Option Bytes × Option Bytes → Run
  send_formatted r (pos n, some keyer, some macros) =
      ky_send_speed answers (send_tci (send_tci r keyer) macros)
  send_formatted r _ = r

  -- `rc_send_speed`
  unfoldable pub send_speed : Run → ℤ → Run
  send_speed r wpm = send_formatted r (format_wpm wpm (some []) 32 (some []) 32)

  -- one entry of the batch; `mode` is the mode when the batch was taken
  unfoldable pub run_op : SendMode → ℤ → Run → Op → Run
  run_op mode rx r (tune hz) = send_tuning r (format_tune rx hz (some []) 64 (some []) 64)
  run_op mode rx r stop = send_tci r (codes "cw_macros_stop;")
  run_op ky rx r (cw text) = ky_service (on_rc r (ky_append r.rc text))
  run_op tci rx r (cw text) =
      send_macro r (format_cw_macro rx (some text) (some []) (text_size + 32))

  unfoldable pub run_batch : SendMode → ℤ → Run → List Op → Run
  run_batch mode rx r [] = r
  run_batch mode rx r (op ∷ ops) = run_batch mode rx (run_op mode rx r op) ops

  -- the keyer is served first, in KY mode
  unfoldable pub serve_mode : SendMode → Run → Run
  serve_mode ky r = ky_service r
  serve_mode tci r = r

  -- With a connected client, whose `iq_vfo` is `vfo`.
  unfoldable pub serve_connected : ℤ → Run → Run
  serve_connected vfo r =
      let rc = r.rc in
      let (batch, left) = take_batch queue_size rc.queue in
      let started = on_rc r (record rc { speed_dirty = false; queue = left }) in
      let served = serve_mode rc.mode started in
      let timed = if rc.speed_dirty then send_speed served rc.wpm else served in
      run_batch rc.mode (receiver vfo) timed batch

  -- `radio_control_service`: whether a training file is played, and the `iq_vfo` of the client if
  -- there is one and it is connected. The client does not connect or disconnect during the call.
  unfoldable pub service : Bool → Option ℤ → Run → Run
  service true client r = on_rc r (clear_queue r.rc)
  service false none r = r
  service false (some vfo) r = serve_connected vfo r
