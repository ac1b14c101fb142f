-- ===== src/Spots/Submit.antt =====
-- `spot_reporter_submit_spot` and `spot_reporter_process_retries` of cw-skimmer/src/spot_reporter.c.
use cw_skimmer.Prelude.{
  ℕ, zero, suc, ◌+◌, ◌-◌, false, not, ◌&&◌, [], ◌∷◌, ◌++◌, Option, none, some, take, ltb, ◌==◌,
  if◌then◌else◌,
}
use cw_skimmer.Prelude.Int.{ℤ, pos, negsuc}
use cw_skimmer.Prelude.Bytes.{Bytes, codes}
use cw_skimmer.Libc.Print.{show_padded, snprintf}
use cw_skimmer.Spots.{Spot, queue_spot, oldest, drop_oldest}
use cw_skimmer.Spots.Outside.{SendResult, taken, again, broken, Tm, Answers, Run, asking, on_rep}
use cw_skimmer.Spots.Link.{connect}

-- "%04d-%02d-%02d %02d:%02d:%02d"
unfoldable pub date_text : Tm → Bytes
date_text tm =
    show_padded 4 (tm.tm_year + 1900)
    ++ (b'-' ∷ show_padded 2 (tm.tm_mon + 1))
    ++ (b'-' ∷ show_padded 2 tm.tm_mday)
    ++ (b' ' ∷ show_padded 2 tm.tm_hour)
    ++ (b':' ∷ show_padded 2 tm.tm_min)
    ++ (b':' ∷ show_padded 2 tm.tm_sec)

-- SPOT_CONNECT_MIN_INTERVAL_SEC
abbrev pub connect_interval : ℕ
connect_interval = 10

module _ (answers : Answers) where
  -- the line for a spot, in a buffer of 256 bytes
  unfoldable pub spot_line : Tm → Spot → Bytes
  unfolding date_text
  spot_line tm spot = snprintf 256 (
      spot.callsign
      ++ (b' ' ∷ answers.khz_text spot.frequency_hz)
      ++ codes " CW "
      ++ answers.snr_text spot.snr_db
      ++ codes " 0 - "
      ++ date_text tm
      ++ (b'\n' ∷ []))

  -- behind `send`
  unfoldable pub after_send : Run → Spot → Bytes → SendResult → ℤ × Run
  after_send r spot line (taken n) = (pos 0, record r { sent = r.sent ++ take n line ∷ [] })
  after_send r spot line again = (pos 0, r)
  after_send r spot line broken =
      (negsuc 0, on_rep r (queue_spot (record r.rep { connected = false }) spot).1)

  -- `spot_reporter_submit_spot`
  unfoldable pub submit_spot : Run → Spot → ℤ × Run
  unfolding after_send
  submit_spot r spot =
      let r' = asking r in
      let line = spot_line (answers.local_time r.asked) spot in
      let (res, rep) = queue_spot r.rep spot in
      if r.rep.connected
      then after_send (asking r') spot line (answers.send r'.asked line)
      else (res, on_rep r rep)

  -- one round: at the result 0 the spot goes, and the loop goes on; else it ends
  abbrev pub after_submit : (ℕ → Run → Option (ℕ × Run)) → ℕ → ℤ × Run → Option (ℕ × Run)
  after_submit next resent (pos zero, r) = next (resent + 1) (on_rep r (drop_oldest r.rep))
  after_submit next resent (_, r) = some (resent, r)

  -- The loop of `spot_reporter_process_retries`; `none` if the fuel runs out.
  unfoldable pub resend : ℕ → ℕ → Run → Option (ℕ × Run)
  unfolding submit_spot
  resend zero resent r = none
  resend (suc fuel) resent r =
      let go = after_submit (λ n r'. resend fuel n r') resent (submit_spot r (oldest r.rep)) in
      if ltb 0 r.rep.queue_size then go else some (resent, r)

  -- the loop has one round for each spot that waits, and one to end
  unfoldable pub resend_all : Run → Option (ℕ × Run)
  resend_all r = resend (r.rep.queue_size + 1) 0 r

  -- behind an attempt to connect
  unfoldable pub retry_connected : ℤ × Run → Option (ℕ × Run)
  unfolding resend_all
  retry_connected (negsuc n, r) = some (0, r)
  retry_connected (pos n, r) = resend_all r

  -- `spot_reporter_process_retries`
  unfoldable pub process_retries : Run → Option (ℕ × Run)
  unfolding resend_all retry_connected
  process_retries r =
      let now = answers.now r.asked in
      let r' = asking r in
      let last = r.rep.last_connect_attempt in
      let soon = not (last == 0) && ltb (now - last) connect_interval in
      let tried = on_rep r' (record r'.rep { last_connect_attempt = now }) in
      if r.rep.queue_size == 0
      then some (0, r)
      else if r.rep.connected
      then resend_all r'
      else if soon
      then some (0, r')
      else retry_connected (connect answers tried)
