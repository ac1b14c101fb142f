-- ===== src/Radio/Control/KeyerSound.antt =====
-- The KY side of cw-skimmer/src/radio_control.c keeps a sound object sound, whatever the system
-- answers, while KY is the mode.
use cw_skimmer.Prelude.{
  ℕ, ◌+◌, ◌<◌, ◌≡◌, Bool, true, false, [], ◌++◌, Option, none, some, arith, length, length-append,
  length-take, take, inl, inr, ◌==◌, Bool-cases, if◌then◌else◌, leb,
}
use cw_skimmer.Prelude.Bytes.{Bytes}
use cw_skimmer.Radio.Control.{RadioControl, ky, KyState, connecting, ready, ky_close}
use cw_skimmer.Radio.Control.Outside.{
  Connected, at_once, in_progress, refused, Received, closed, failed, nothing, bytes, Answers, Run,
  asking, on_rc,
}
use cw_skimmer.Radio.Control.Keyer.{
  write_done, write_to, ky_write, send_speed_in, ky_send_speed, read_from, wait_ms, opened,
  open_with, open_resolved, ky_open, finish_writable, ky_finish_connect, ky_receive, ky_read,
}
use cw_skimmer.Radio.Control.Sound.{IsSound, SocketFits, ky_close-IsSound}

-- sound, and in KY mode
pub record KySound (r : Run) : Type 0 where
  pub sound : IsSound r.rc
  pub in_ky : r.rc.mode ≡ ky

-- A change of the connection alone.
pub reconnect :
    (rc : RadioControl) (fd : Option ℕ) (st : KyState) (rx : Bytes) (awaiting warned : Bool)
    (next : ℕ)
    → IsSound rc
    → rc.mode ≡ ky
    → length rx < 512
    → SocketFits st fd
    → IsSound (record rc {
      ky_fd = fd;
      ky_state = st;
      ky_rx = rx;
      ky_awaiting = awaiting;
      ky_warned = warned;
      ky_next_ms = next;
    })
reconnect rc fd st rx awaiting warned next v m hx hs = record {
  queue_valid = v.queue_valid;
  one_tuning = v.one_tuning;
  slow = v.slow;
  fast = v.fast;
  rx_fits = hx;
  backlog_fits = v.backlog_fits;
  inside = v.inside;
  socket = hs;
  idle = λ e. cc (e, m);
}

ky_close-KySound : (r : Run) → KySound r → KySound (on_rc r (ky_close r.rc))
unfolding ky_close
ky_close-KySound r v = record { sound = ky_close-IsSound r.rc v.sound; in_ky = v.in_ky }

pub asking-KySound : (r : Run) → KySound r → KySound (asking r)
asking-KySound r v = record { sound = v.sound; in_ky = v.in_ky }

module _ (answers : Answers) where
  write_done-KySound :
      (r : Run) (cmd : Bytes) (answer : Option ℕ) → KySound r → KySound (write_done r cmd answer).1
  unfolding write_done
  write_done-KySound r cmd none v = ky_close-KySound r v
  write_done-KySound r cmd (some n) v =
      let closed = ky_close-KySound r v in
      elim (Bool-cases (n == length cmd)) [
        | inl done ↦ rw done (record { sound = v.sound; in_ky = v.in_ky })
        | inr part ↦ rw part (record { sound = closed.sound; in_ky = closed.in_ky })
      ]

  write_to-KySound :
      (r : Run) (cmd : Bytes) (fd : Option ℕ) → KySound r → KySound (write_to answers r cmd fd).1
  unfolding write_to
  write_to-KySound r cmd none v = v
  write_to-KySound r cmd (some fd) v =
      write_done-KySound (asking r) cmd (answers.ky_sent r.asked cmd) (asking-KySound r v)

  pub ky_write-KySound : (r : Run) (cmd : Bytes) → KySound r → KySound (ky_write answers r cmd).1
  unfolding ky_write
  ky_write-KySound r cmd v = write_to-KySound r cmd r.rc.ky_fd v

  send_speed_in-KySound :
      (r : Run) (st : KyState) → KySound r → KySound (send_speed_in answers r st)
  unfolding send_speed_in
  send_speed_in-KySound r ready v = ky_write-KySound r _ v
  send_speed_in-KySound r _ v = v

  pub ky_send_speed-KySound : (r : Run) → KySound r → KySound (ky_send_speed answers r)
  unfolding ky_send_speed
  ky_send_speed-KySound r v = send_speed_in-KySound r r.rc.ky_state v

  pub wait_ms-KySound : (r : Run) (n : ℕ) → KySound r → KySound (wait_ms answers r n)
  unfolding wait_ms
  wait_ms-KySound r n v = record {
    sound =
        reconnect r.rc r.rc.ky_fd r.rc.ky_state r.rc.ky_rx r.rc.ky_awaiting r.rc.ky_warned _ v.sound
          v.in_ky v.sound.rx_fits v.sound.socket;
    in_ky = v.in_ky;
  }

  warn-KySound : (r : Run) → KySound r → KySound (on_rc r (record r.rc { ky_warned = true }))
  warn-KySound r v = record {
    sound =
        reconnect r.rc r.rc.ky_fd r.rc.ky_state r.rc.ky_rx r.rc.ky_awaiting true r.rc.ky_next_ms
          v.sound v.in_ky v.sound.rx_fits v.sound.socket;
    in_ky = v.in_ky;
  }

  opened-KySound : (r : Run) (fd : ℕ) (c : Connected) → KySound r → KySound (opened answers r fd c)
  unfolding opened
  opened-KySound r fd refused v = warn-KySound (wait_ms answers r 2000) (wait_ms-KySound r 2000 v)
  opened-KySound r fd at_once v = ky_send_speed-KySound _ (record {
    sound =
        reconnect r.rc (some fd) ready [] false false r.rc.ky_next_ms v.sound v.in_ky (omega arith)
          tt;
    in_ky = v.in_ky;
  })
  opened-KySound r fd in_progress v = record {
    sound =
        reconnect r.rc (some fd) connecting [] false r.rc.ky_warned r.rc.ky_next_ms v.sound v.in_ky
          (omega arith) tt;
    in_ky = v.in_ky;
  }

  open_with-KySound : (r : Run) (fd : Option ℕ) → KySound r → KySound (open_with answers r fd)
  unfolding open_with
  open_with-KySound r none v = wait_ms-KySound r 2000 v
  open_with-KySound r (some fd) v = opened-KySound (asking r) fd _ (asking-KySound r v)

  open_resolved-KySound : (r : Run) (b : Bool) → KySound r → KySound (open_resolved answers r b)
  unfolding open_resolved
  open_resolved-KySound r true v = open_with-KySound (asking r) _ (asking-KySound r v)
  open_resolved-KySound r false v = warn-KySound (wait_ms answers r 2000) (wait_ms-KySound r 2000 v)

  pub if-KySound : (b : Bool) (r s : Run) → KySound r → KySound s → KySound (if b then r else s)
  if-KySound true r s v w = v
  if-KySound false r s v w = w

  pub ky_open-KySound : (r : Run) → KySound r → KySound (ky_open answers r)
  unfolding ky_open
  ky_open-KySound r v = if-KySound _ _ _ v (
      if-KySound _ _ _ (asking-KySound r v)
        (open_resolved-KySound (asking (asking r)) _ (asking-KySound _ (asking-KySound r v))))

  finish_writable-KySound :
      (r : Run) (b : Bool)
      → KySound r
      → SocketFits ready r.rc.ky_fd
      → KySound (finish_writable answers r b)
  unfolding finish_writable
  finish_writable-KySound r true v h =
      wait_ms-KySound (on_rc r (ky_close r.rc)) 2000 (ky_close-KySound r v)
  finish_writable-KySound r false v h = ky_send_speed-KySound _ (record {
    sound =
        reconnect r.rc r.rc.ky_fd ready r.rc.ky_rx r.rc.ky_awaiting false r.rc.ky_next_ms v.sound
          v.in_ky v.sound.rx_fits h;
    in_ky = v.in_ky;
  })

  pub ky_finish_connect-KySound :
      (r : Run) → KySound r → SocketFits ready r.rc.ky_fd → KySound (ky_finish_connect answers r)
  unfolding ky_finish_connect
  ky_finish_connect-KySound r v h =
      if-KySound _ _ _
        (finish_writable-KySound (asking (asking r)) _ (asking-KySound _ (asking-KySound r v)) h)
        (asking-KySound r v)

  ky_receive-KySound : (r : Run) (m : Received) → KySound r → KySound (ky_receive answers r m)
  unfolding ky_receive
  ky_receive-KySound r closed v = ky_close-KySound r v
  ky_receive-KySound r failed v = ky_close-KySound r v
  ky_receive-KySound r nothing v = v
  ky_receive-KySound r (bytes data') v = record {
    sound =
        reconnect r.rc r.rc.ky_fd r.rc.ky_state _ r.rc.ky_awaiting r.rc.ky_warned r.rc.ky_next_ms
          v.sound v.in_ky fits v.sound.socket;
    in_ky = v.in_ky;
  }
    where
      fits :
          length (
            (if leb 512 (length r.rc.ky_rx + length (take 256 data')) then [] else r.rc.ky_rx)
            ++ take 256 data')
          < 512
      fits = elim (Bool-cases (leb 512 (length r.rc.ky_rx + length (take 256 data')))) [
        | inl over ↦ rw over (omega (arith, length-take 256 data'))
        | inr room ↦ rw room (ground (arith, length-append r.rc.ky_rx (take 256 data')))
      ]

  read_from-KySound : (r : Run) (fd : Option ℕ) → KySound r → KySound (read_from answers r fd)
  unfolding read_from
  read_from-KySound r none v = v
  read_from-KySound r (some fd) v = ky_receive-KySound (asking r) _ (asking-KySound r v)

  pub ky_read-KySound : (r : Run) → KySound r → KySound (ky_read answers r)
  unfolding ky_read
  ky_read-KySound r v = read_from-KySound r r.rc.ky_fd v
