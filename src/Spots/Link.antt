-- ===== src/Spots/Link.antt =====
-- `spot_reporter_connect` and `spot_reporter_reconnect` of cw-skimmer/src/spot_reporter.c, and what they
-- call, as built for a POSIX system.
use cw_skimmer.Prelude.{ℕ, Bool, true, false, ◌∷◌, Option, none, some, if◌then◌else◌}
use cw_skimmer.Prelude.Int.{ℤ, pos, negsuc}
use cw_skimmer.Spots.Outside.{
  Connected, at_once, in_progress, refused, Answers, Run, asking, on_rep, without_fd,
}

-- `spot_close_fd`
unfoldable pub close_fd : Run → Option ℕ → Run
close_fd r none = r
close_fd r (some fd) = record r { sockets = without_fd fd r.sockets }

-- the socket is closed again
unfoldable pub give_up : Run → ℕ → ℤ × Run
unfolding close_fd
give_up r fd =
    let r' = close_fd r (some fd) in (negsuc 0, on_rep r' (record r'.rep { socket_fd = none }))

unfoldable pub settle : ℕ → Bool × Run → ℤ × Run
unfolding give_up
settle fd (true, r) = (pos 0, on_rep r (record r.rep { connected = true }))
settle fd (false, r) = give_up r fd

module _ (answers : Answers) where
  -- behind `connect`, where it is in progress: `poll`, `getsockopt` and the error that it reads
  unfoldable pub finish_connect : Run → Bool × Run
  finish_connect r =
      let r1 = asking r in
      let r2 = asking r1 in
      if answers.poll r.asked
      then (if answers.getsockopt r1.asked then (answers.no_error r1.asked, r2) else (false, r2))
      else (false, r1)

  unfoldable pub connect_result : Run → Connected → Bool × Run
  unfolding finish_connect
  connect_result r at_once = (true, r)
  connect_result r in_progress = finish_connect r
  connect_result r refused = (false, r)

  -- `spot_connect_socket`; `true` is the result 0
  unfoldable pub connect_socket : Run → Bool × Run
  unfolding connect_result
  connect_socket r =
      let r1 = asking r in
      let r2 = asking r1 in
      if answers.get_flags r.asked
      then (if answers.set_flags r1.asked
          then connect_result (asking r2) (answers.connect r2.asked)
          else (false, r2))
      else (false, r1)

  -- the host is an address, or a name that is found
  unfoldable pub find_host : Run → Bool × Run
  find_host r =
      let r1 = asking r in
      if answers.is_address r.asked then (true, r1) else (answers.resolve r1.asked, asking r1)

  unfoldable pub connect_found : ℕ → Bool × Run → ℤ × Run
  unfolding give_up settle
  connect_found fd (true, r) = settle fd (connect_socket r)
  connect_found fd (false, r) = give_up r fd

  -- from the result of `socket` on
  unfoldable pub connect_with : Run → Option ℕ → ℤ × Run
  unfolding connect_found find_host
  connect_with r none = (negsuc 0, on_rep r (record r.rep { socket_fd = none }))
  connect_with r (some fd) = connect_found fd (
      find_host (record r { rep = record r.rep { socket_fd = some fd }; sockets = fd ∷ r.sockets }))

  -- `spot_reporter_connect`
  unfoldable pub connect : Run → ℤ × Run
  unfolding connect_with
  connect r =
      if r.rep.connected then (pos 0, r) else connect_with (asking r) (answers.socket r.asked)

  -- `spot_reporter_reconnect`
  unfoldable pub reconnect : Run → ℤ × Run
  unfolding close_fd connect
  reconnect r =
      let r' = close_fd r r.rep.socket_fd in
      connect (on_rep r' (record r'.rep { socket_fd = none; connected = false }))

-- `spot_reporter_destroy`: the socket is closed, and the memory is free
unfoldable pub destroy : Run → Run
unfolding close_fd
destroy r = close_fd r r.rep.socket_fd
