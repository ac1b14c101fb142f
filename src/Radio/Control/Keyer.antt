-- ===== src/Radio/Control/Keyer.antt =====
-- The KY side of cw-skimmer/src/radio_control.c: the connection to a Kenwood keyer, and the loop
-- that hands it the waiting text a chunk at a time, each after the keyer has said that it is free.
use cw_skimmer.Prelude.{
  ℕ, zero, suc, ◌+◌, ◌-◌, Bool, true, false, not, ◌||◌, ◌==◌, [], ◌∷◌, ◌++◌, Option, none, some,
  length, take, drop, ltb, leb, if◌then◌else◌,
}
use cw_skimmer.Prelude.Int.{ℤ, pos, negsuc, pos_part, ltb_ℤ}
use cw_skimmer.Prelude.Bytes.{Bytes, codes}
use cw_skimmer.Libc.Search.{strchr, before_chr}
use cw_skimmer.Libc.Print.{show_3}
use cw_skimmer.Radio.Text.{backlog_size, clamp_wpm, ky_chunk, ky_status}
use cw_skimmer.Radio.Control.{RadioControl, KyState, connecting, ready, ky_close}
use cw_skimmer.Radio.Control.Outside.{
  Connected, at_once, in_progress, refused, Received, closed, failed, nothing, bytes, Answers,
  to_ky, Run, asking, on_rc,
}

-- sizeof ky_rx, and of the `line` and `cmd` of `rc_ky_service`
abbrev pub rx_size : ℕ
rx_size = 512

abbrev pub line_size : ℕ
line_size = 256

abbrev pub cmd_size : ℕ
cmd_size = 40

abbrev pub speed_text : ℤ → Bytes
speed_text wpm = codes "KS" ++ (show_3 (pos_part (clamp_wpm wpm)) ++ codes ";")

-- `rc_ky_write`, behind its call of `send`: where it takes a part of the command, that part has
-- gone out
unfoldable pub write_done : Run → Bytes → Option ℕ → Bool × Run
unfolding ky_close
write_done r cmd none = (false, on_rc r (ky_close r.rc))
write_done r cmd (some n) =
    if n == length cmd
    then (true, record r { sent = r.sent ++ to_ky cmd ∷ [] })
    else (false, record r { rc = ky_close r.rc; sent = r.sent ++ to_ky (take n cmd) ∷ [] })

module _ (answers : Answers) where
  -- `rc_ky_write` on `ky_fd`; `true` is the result 0
  unfoldable pub write_to : Run → Bytes → Option ℕ → Bool × Run
  unfolding write_done
  write_to r cmd none = (false, r)
  write_to r cmd (some fd) =
      write_done (record r { asked = r.asked + 1 }) cmd (answers.ky_sent r.asked cmd)

  unfoldable pub ky_write : Run → Bytes → Bool × Run
  unfolding write_to
  ky_write r cmd = write_to r cmd r.rc.ky_fd

  -- `rc_ky_send_speed` in `ky_state`
  unfoldable pub send_speed_in : Run → KyState → Run
  unfolding ky_write
  send_speed_in r ready = (ky_write r (speed_text r.rc.wpm)).1
  send_speed_in r _ = r

  unfoldable pub ky_send_speed : Run → Run
  unfolding send_speed_in
  ky_send_speed r = send_speed_in r r.rc.ky_state

  -- `rc->ky_next_ms = rc_now_ms() + wait`
  unfoldable pub wait_ms : Run → ℕ → Run
  wait_ms r wait = on_rc (asking r) (record r.rc { ky_next_ms = answers.now_ms r.asked + wait })

  -- the end of `rc_ky_open`: what `connect` said, on the socket `fd`
  unfoldable pub opened : Run → ℕ → Connected → Run
  unfolding wait_ms ky_send_speed
  opened r fd refused = on_rc (wait_ms r 2000) (record ((wait_ms r 2000).rc) { ky_warned = true })
  opened r fd at_once = ky_send_speed (
      on_rc r (record r.rc {
        ky_fd = some fd;
        ky_state = ready;
        ky_rx = [];
        ky_awaiting = false;
        ky_warned = false;
      }))
  opened r fd in_progress =
      on_rc r
        (record r.rc { ky_fd = some fd; ky_state = connecting; ky_rx = []; ky_awaiting = false })

  -- from the call of `socket` on
  unfoldable pub open_with : Run → Option ℕ → Run
  unfolding opened wait_ms
  open_with r none = wait_ms r 2000
  open_with r (some fd) = opened (asking r) fd (answers.connect r.asked)

  -- from the call of `getaddrinfo` on
  unfoldable pub open_resolved : Run → Bool → Run
  unfolding open_with wait_ms
  open_resolved r false = on_rc (wait_ms r 2000) (record ((wait_ms r 2000).rc) { ky_warned = true })
  open_resolved r true = open_with (asking r) (answers.open_socket r.asked)

  -- `rc_ky_open`
  unfoldable pub ky_open : Run → Run
  unfolding open_resolved
  ky_open r =
      let r' = asking r in
      let go = open_resolved (asking r') (answers.resolve r'.asked) in
      if not (ltb_ℤ (pos 0) r.rc.cat_port) || leb (length r.rc.cat_host) 0
      then r
      else if ltb (answers.now_ms r.asked) r.rc.ky_next_ms
      then r'
      else go

  -- `rc_ky_finish_connect`, once `poll` says that the socket is writable
  unfoldable pub finish_writable : Run → Bool → Run
  unfolding ky_close wait_ms ky_send_speed
  finish_writable r true = wait_ms (on_rc r (ky_close r.rc)) 2000
  finish_writable r false =
      ky_send_speed (on_rc r (record r.rc { ky_state = ready; ky_warned = false }))

  -- `rc_ky_finish_connect`
  unfoldable pub ky_finish_connect : Run → Run
  unfolding finish_writable
  ky_finish_connect r =
      let r' = asking r in
      let go = finish_writable (asking r') (answers.connect_failed r'.asked) in
      if answers.writable r.asked then go else r'

  -- `rc_ky_read`, on what `recv` returned; it takes at most 256 bytes
  unfoldable pub ky_receive : Run → Received → Run
  unfolding ky_close
  ky_receive r closed = on_rc r (ky_close r.rc)
  ky_receive r failed = on_rc r (ky_close r.rc)
  ky_receive r nothing = r
  ky_receive r (bytes data') =
      let got = take 256 data' in
      let held = if leb rx_size (length r.rc.ky_rx + length got) then [] else r.rc.ky_rx in
      on_rc r (record r.rc { ky_rx = held ++ got })

  unfoldable pub read_from : Run → Option ℕ → Run
  unfolding ky_receive
  read_from r none = r
  read_from r (some fd) = ky_receive (asking r) (answers.receive r.asked)

  unfoldable pub ky_read : Run → Run
  unfolding read_from
  ky_read r = read_from r r.rc.ky_fd

-- `rc_ky_take_line`: `strchr` looks up to the first NUL in what was received.
unfoldable pub take_line : RadioControl → Bytes × RadioControl
take_line rc = elim (strchr (before_chr rc.ky_rx 0) b';') [
  | none ↦ ([], rc)
  | some r ↦
      let line = before_chr (before_chr rc.ky_rx 0) b';' in
      (take (line_size - 1) line, record rc { ky_rx = drop (length line + 1) rc.ky_rx })
]

-- `rc_ky_append`: what does not fit is cut off
unfoldable pub ky_append : RadioControl → Bytes → RadioControl
ky_append rc text = record rc {
  ky_backlog = rc.ky_backlog ++ take (backlog_size - 1 - length rc.ky_backlog) text;
}

-- the backlog is dropped when all of it has been taken
unfoldable pub drop_sent : RadioControl → RadioControl
drop_sent rc =
    if leb (length rc.ky_backlog) rc.ky_pos then record rc { ky_backlog = []; ky_pos = 0 } else rc

module _ (answers : Answers) where
  -- one chunk of the backlog, where `radio_control_ky_chunk` gives one; `false` is the early return
  unfoldable pub send_chunk : Run → ℤ × Option ℤ × Option Bytes → Bool × Run
  send_chunk r (pos (suc n), some p, some cmd) =
      ky_write answers (on_rc r (record r.rc { ky_pos = pos_part p })) cmd
  send_chunk r _ = (true, r)

  unfoldable pub try_chunk : Run → Bool × Run
  try_chunk r =
      let chunk =
        ky_chunk (some r.rc.ky_backlog) (some (pos r.rc.ky_pos)) (some []) (pos cmd_size) in
      let tried = send_chunk r chunk in
      if ltb r.rc.ky_pos (length r.rc.ky_backlog) then tried else (true, r)

  abbrev pub after_chunk : Bool × Run → Bool × Run
  after_chunk (true, r) = (true, on_rc r (drop_sent r.rc))
  after_chunk (false, r) = (false, r)

  -- the keyer is free: lines 721 to 732
  unfoldable pub serve_free : Run → Bool × Run
  serve_free r = after_chunk (try_chunk r)

  -- a status line: 0 for a free buffer, 1 for a full one, negative for another line
  unfoldable pub serve_status : Run → ℤ → Bool × Run
  serve_status r (negsuc n) = (true, r)
  serve_status r (pos (suc zero)) =
      (true, wait_ms answers (on_rc r (record r.rc { ky_awaiting = false })) 40)
  serve_status r (pos n) = serve_free (on_rc r (record r.rc { ky_awaiting = false }))

  -- What the loop does with the line that it took: whether it goes on, and the new state.
  unfoldable pub serve_line : Run → Bytes → Bool × Run
  serve_line r [] = (false, r)
  serve_line r (c ∷ line) = serve_status r (ky_status (some (c ∷ line)))

  -- where the round goes on after a status line, or returns
  abbrev pub on_status : (Run → Option (Bool × Run)) → Bool × Run → Option (Bool × Run)
  on_status next (true, r) = next r
  on_status next (false, r) = some (false, r)

  -- the rest of a round, on the line that was taken
  abbrev pub on_line : (Run → Option (Bool × Run)) → Run → Bytes → Option (Bool × Run)
  on_line next r [] = some (true, r)
  on_line next r (c ∷ line) = on_status next (serve_line r (c ∷ line))

  -- one round, in `ky_state`
  abbrev pub round : (Run → Option (Bool × Run)) → Run → KyState → Option (Bool × Run)
  round next r ready = let (line, rc') = take_line r.rc in on_line next (on_rc r rc') line
  round next r _ = some (true, r)

  -- The loop over the lines received; `none` if the fuel runs out. The flag says whether the function
  -- goes on behind the loop, or returned from it because a write failed.
  unfoldable pub serve_lines : ℕ → Run → Option (Bool × Run)
  serve_lines zero r = none
  serve_lines (suc fuel) r = round (λ r'. serve_lines fuel r') r r.rc.ky_state
