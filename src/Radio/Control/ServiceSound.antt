-- ===== src/Radio/Control/ServiceSound.antt =====
-- `radio_control_service` of cw-skimmer/src/radio_control.c keeps the object sound, whatever the
-- system answers.
use cw_skimmer.Prelude.{
  ℕ, zero, suc, ◌+◌, ◌-◌, ◌≡◌, refl, sym, ap, ◌∙◌, subst, Bool, true, false, List, [], ◌∷◌, ◌++◌,
  Option, none, some, arith, length, length-append, length-take, take, ltb, leb, if◌then◌else◌,
}
use cw_skimmer.Prelude.Int.{ℤ, pos, negsuc}
use cw_skimmer.Prelude.Bytes.{Bytes, codes}
use cw_skimmer.Radio.Queue.{Op, tune, cw, stop, queue_size, take_batch}
use cw_skimmer.Radio.Queue.Refine.{take_batch_lem, waiting_none}
use cw_skimmer.Radio.Control.{RadioControl, SendMode, tci, ky, KyState, down, connecting, ready}
use cw_skimmer.Radio.Control.Outside.{Answers, Run, asking, on_rc, send_tci}
use cw_skimmer.Radio.Control.Keyer.{ky_write, ky_append, ky_read, ky_send_speed, send_speed_in}
use cw_skimmer.Radio.Control.Service.{
  send_tuning, send_macro, mark_asked, poll_keyer, after_lines, serve_ready, open_in, finish_in,
  serve_in, ky_service_in, ky_service, send_formatted, send_speed, run_op, run_batch, serve_mode,
  serve_connected, service,
}
use cw_skimmer.Radio.Control.Sound.{
  IsSound, SocketFits, tunings, clear_queue-IsSound, requeue-IsSound,
}
use cw_skimmer.Radio.Control.KeyerSound.{
  KySound, reconnect, asking-KySound, if-KySound, ky_write-KySound, ky_send_speed-KySound,
  ky_open-KySound, ky_finish_connect-KySound, ky_read-KySound,
}
use cw_skimmer.Radio.Control.Lines.{Ends, serve_lines_total}

module _ (answers : Answers) where
  mark_asked-KySound : (out : Bool × Run) → KySound out.1 → KySound (mark_asked answers out)
  mark_asked-KySound (true, r) v = record {
    sound =
        reconnect r.rc r.rc.ky_fd r.rc.ky_state r.rc.ky_rx true r.rc.ky_warned r.rc.ky_next_ms
          v.sound v.in_ky v.sound.rx_fits v.sound.socket;
    in_ky = v.in_ky;
  }
  mark_asked-KySound (false, r) v = v

  poll_keyer-KySound : (r : Run) (st : KyState) → KySound r → KySound (poll_keyer answers r st)
  unfolding poll_keyer
  poll_keyer-KySound r down v = v
  poll_keyer-KySound r connecting v = v
  poll_keyer-KySound r ready v =
      let asked = asking-KySound r v in
      let question = ky_write answers (asking r) (codes "KY;") in
      let put =
        mark_asked-KySound question (ky_write-KySound answers (asking r) (codes "KY;") asked) in
      if-KySound answers r.rc.ky_awaiting _ _ v (
        if-KySound answers (ltb (answers.now_ms r.asked) r.rc.ky_next_ms) _ _ asked
          (if-KySound answers (leb (length r.rc.ky_backlog) r.rc.ky_pos) _ _ asked put))

  after_lines-KySound :
      (r : Run) (out : Option (Bool × Run)) → Ends out → KySound (after_lines answers r out)
  unfolding after_lines
  after_lines-KySound r none v = elim v [ ]
  after_lines-KySound r (some (true, r')) v = poll_keyer-KySound r' r'.rc.ky_state v
  after_lines-KySound r (some (false, r')) v = v

  serve_ready-KySound : (r : Run) → KySound r → KySound (serve_ready answers r)
  unfolding serve_ready
  serve_ready-KySound r v =
      let read = ky_read-KySound answers r v in
      after_lines-KySound _ _ (
        serve_lines_total answers (length (ky_read answers r).rc.ky_rx + 1) (ky_read answers r)
          (omega arith) read)

  open_in-KySound : (r : Run) (st : KyState) → KySound r → KySound (open_in answers r st)
  unfolding open_in
  open_in-KySound r down v = ky_open-KySound answers r v
  open_in-KySound r connecting v = v
  open_in-KySound r ready v = v

  connecting-socket : (fd : Option ℕ) → SocketFits connecting fd → SocketFits ready fd
  connecting-socket (some fd) h = tt
  connecting-socket none h = h

  finish_in-KySound :
      (r : Run) (st : KyState) → r.rc.ky_state ≡ st → KySound r → KySound (finish_in answers r st)
  unfolding finish_in
  finish_in-KySound r down e v = v
  finish_in-KySound r connecting e v =
      ky_finish_connect-KySound answers r v
        (connecting-socket r.rc.ky_fd (subst (λ st. SocketFits st r.rc.ky_fd) e v.sound.socket))
  finish_in-KySound r ready e v = v

  serve_in-KySound : (r : Run) (st : KyState) → KySound r → KySound (serve_in answers r st)
  unfolding serve_in
  serve_in-KySound r down v = v
  serve_in-KySound r connecting v = v
  serve_in-KySound r ready v = serve_ready-KySound r v

  ky_service_in-KySound : (r : Run) (m : SendMode) → KySound r → KySound (ky_service_in answers r m)
  unfolding ky_service_in
  ky_service_in-KySound r tci v = v
  ky_service_in-KySound r ky v =
      serve_in-KySound _ _ (finish_in-KySound _ _ refl (open_in-KySound r r.rc.ky_state v))

  ky_service-KySound : (r : Run) → KySound r → KySound (ky_service answers r)
  unfolding ky_service
  ky_service-KySound r v = ky_service_in-KySound r r.rc.mode v

-- Commands to the TCI client do not touch the object.
send_tci-rc : (r : Run) (cmd : Bytes) → (send_tci r cmd).rc ≡ r.rc
unfolding send_tci
send_tci-rc r [] = refl
send_tci-rc r (c ∷ s) = refl

send_tuning-rc : (r : Run) (out : ℤ × Option Bytes × Option Bytes) → (send_tuning r out).rc ≡ r.rc
unfolding send_tuning
send_tuning-rc r (pos zero, some dds, some vfo) =
    send_tci-rc (send_tci r dds) vfo ∙ send_tci-rc r dds
send_tuning-rc r (pos zero, some dds, none) = refl
send_tuning-rc r (pos zero, none, vfo) = refl
send_tuning-rc r (pos (suc n), dds, vfo) = refl
send_tuning-rc r (negsuc n, dds, vfo) = refl

send_macro-rc : (r : Run) (out : ℤ × Option Bytes) → (send_macro r out).rc ≡ r.rc
unfolding send_macro
send_macro-rc r (pos (suc n), some cmd) = send_tci-rc r cmd
send_macro-rc r (pos (suc n), none) = refl
send_macro-rc r (pos zero, cmd) = refl
send_macro-rc r (negsuc n, cmd) = refl

-- sound, in a mode that no call of the service changes
pub record SoundIn (m : SendMode) (r : Run) : Type 0 where
  pub sound : IsSound r.rc
  pub in_mode : r.rc.mode ≡ m

SoundIn-rc : {m : SendMode} (r r' : Run) → r'.rc ≡ r.rc → SoundIn m r → SoundIn m r'
SoundIn-rc r r' e v = record {
  sound = subst IsSound (sym e) v.sound;
  in_mode = ap (λ (rc : RadioControl). rc.mode) e ∙ v.in_mode;
}

to_ky_sound : {r : Run} → SoundIn ky r → KySound r
to_ky_sound v = record { sound = v.sound; in_ky = v.in_mode }

of_KySound : {r : Run} → KySound r → SoundIn ky r
of_KySound v = record { sound = v.sound; in_mode = v.in_ky }

ky_append-KySound : (r : Run) (text : Bytes) → KySound r → KySound (on_rc r (ky_append r.rc text))
unfolding ky_append
ky_append-KySound r text v =
    let more = take (1024 - 1 - length r.rc.ky_backlog) text in
    let size = length-append r.rc.ky_backlog more in
    let cut = length-take (1024 - 1 - length r.rc.ky_backlog) text in
    record {
      sound =
          requeue-IsSound r.rc r.rc.queue (r.rc.ky_backlog ++ more) r.rc.ky_pos v.sound
            v.sound.queue_valid v.sound.one_tuning (omega (arith, size, cut, v.sound.backlog_fits))
            (omega (arith, size, v.sound.inside));
      in_ky = v.in_ky;
    }

-- the object when the service has taken its batch
started-IsSound :
    (rc : RadioControl)
    → IsSound rc
    → IsSound (record rc { speed_dirty = false; queue = (take_batch queue_size rc.queue).1 })
started-IsSound rc v =
    let (valid, none_left, batch) =
      take_batch_lem queue_size rc.queue v.queue_valid v.queue_valid.count_in in
    record {
      queue_valid = valid;
      one_tuning =
          omega (arith, ap tunings (waiting_none (take_batch queue_size rc.queue).1 none_left));
      slow = v.slow;
      fast = v.fast;
      rx_fits = v.rx_fits;
      backlog_fits = v.backlog_fits;
      inside = v.inside;
      socket = v.socket;
      idle = v.idle;
    }

module _ (answers : Answers) where
  send_speed_in-idle : (r : Run) (st : KyState) → st ≡ down → (send_speed_in answers r st).rc ≡ r.rc
  unfolding send_speed_in
  send_speed_in-idle r st e = rw e

  ky_send_speed-SoundIn :
      (m : SendMode) (r : Run) → SoundIn m r → SoundIn m (ky_send_speed answers r)
  ky_send_speed-SoundIn tci r v =
      unfold ky_send_speed in
      SoundIn-rc r _ (send_speed_in-idle r r.rc.ky_state (v.sound.idle v.in_mode)) v
  ky_send_speed-SoundIn ky r v = of_KySound (ky_send_speed-KySound answers r (to_ky_sound v))

  send_formatted-SoundIn :
      (m : SendMode) (r : Run) (out : ℤ × Option Bytes × Option Bytes)
      → SoundIn m r
      → SoundIn m (send_formatted answers r out)
  unfolding send_formatted
  send_formatted-SoundIn m r (pos n, some keyer, some macros) v =
      ky_send_speed-SoundIn m _
        (SoundIn-rc r _ (send_tci-rc (send_tci r keyer) macros ∙ send_tci-rc r keyer) v)
  send_formatted-SoundIn m r (pos n, some keyer, none) v = v
  send_formatted-SoundIn m r (pos n, none, macros) v = v
  send_formatted-SoundIn m r (negsuc n, keyer, macros) v = v

  run_op-SoundIn :
      (m : SendMode) (rx : ℤ) (r : Run) (op : Op)
      → SoundIn m r
      → SoundIn m (run_op answers m rx r op)
  unfolding run_op
  run_op-SoundIn m rx r (tune hz) v = SoundIn-rc r _ (send_tuning-rc r _) v
  run_op-SoundIn m rx r stop v = SoundIn-rc r _ (send_tci-rc r _) v
  run_op-SoundIn ky rx r (cw text) v =
      of_KySound (ky_service-KySound answers _ (ky_append-KySound r text (to_ky_sound v)))
  run_op-SoundIn tci rx r (cw text) v = SoundIn-rc r _ (send_macro-rc r _) v

  run_batch-SoundIn :
      (m : SendMode) (rx : ℤ) (r : Run) (ops : List Op)
      → SoundIn m r
      → SoundIn m (run_batch answers m rx r ops)
  unfolding run_batch
  run_batch-SoundIn m rx r [] v = v
  run_batch-SoundIn m rx r (op ∷ ops) v =
      run_batch-SoundIn m rx (run_op answers m rx r op) ops (run_op-SoundIn m rx r op v)

  serve_mode-SoundIn : (m : SendMode) (r : Run) → SoundIn m r → SoundIn m (serve_mode answers m r)
  unfolding serve_mode
  serve_mode-SoundIn ky r v = of_KySound (ky_service-KySound answers r (to_ky_sound v))
  serve_mode-SoundIn tci r v = v

  if-SoundIn :
      (m : SendMode) (b : Bool) (r s : Run)
      → SoundIn m r
      → SoundIn m s
      → SoundIn m (if b then r else s)
  if-SoundIn m true r s v w = v
  if-SoundIn m false r s v w = w

  serve_connected-IsSound :
      (vfo : ℤ) (r : Run) → IsSound r.rc → IsSound (serve_connected answers vfo r).rc
  unfolding serve_connected send_speed
  serve_connected-IsSound vfo r v =
      let started : SoundIn r.rc.mode _ = record {
        sound = started-IsSound r.rc v;
        in_mode = refl;
      } in
      let served = serve_mode-SoundIn r.rc.mode _ started in
      (run_batch-SoundIn r.rc.mode _ _ _ (
        if-SoundIn r.rc.mode r.rc.speed_dirty _ _ (send_formatted-SoundIn r.rc.mode _ _ served)
          served)).sound

  pub service-IsSound :
      (training : Bool) (client : Option ℤ) (r : Run)
      → IsSound r.rc
      → IsSound (service answers training client r).rc
  unfolding service
  service-IsSound true client r v = clear_queue-IsSound r.rc v
  service-IsSound false none r v = v
  service-IsSound false (some vfo) r v = serve_connected-IsSound vfo r v
