-- ===== src/Spots/Leak.antt =====
-- The sockets that `spot_reporter_connect` and `spot_reporter_reconnect` (cw-skimmer/src/spot_reporter.c)
-- open and close.
use cw_skimmer.Prelude.{
  ℕ, ◌+◌, ◌≡◌, refl, ap, ◌∙◌, Bool, true, false, List, ◌∷◌, Option, none, some, arith, ◌⊎◌, inl,
  inr, Bool-cases,
}
use cw_skimmer.Prelude.Int.{ℤ, pos, negsuc}
use cw_skimmer.Spots.{Reporter}
use cw_skimmer.Spots.Outside.{
  Connected, at_once, in_progress, refused, Answers, Run, asking, without_fd,
}
use cw_skimmer.Spots.Link.{
  close_fd, finish_connect, connect_result, connect_socket, give_up, settle, find_host,
  connect_found, connect_with, connect, reconnect,
}

without_fd_self : (fd : ℕ) (xs : List ℕ) → without_fd fd (fd ∷ xs) ≡ xs
unfolding without_fd
without_fd_self fd xs = ground arith

-- Nothing but the number of questions changes.
record Same (r r' : Run) : Type 0 where
  rep : r'.rep ≡ r.rep
  sockets : r'.sockets ≡ r.sockets
  sent : r'.sent ≡ r.sent

-- the run with a new socket, which is the object's
abbrev with_socket : Run → ℕ → Run
with_socket r fd = record r { rep = record r.rep { socket_fd = some fd }; sockets = fd ∷ r.sockets }

-- What an attempt to connect does to a run: nothing is sent. At the result 0 the object is connected,
-- by a new socket that is open beside those that were; else it has no socket, and the same ones are
-- open as before.
pub record Attempted (r r' : Run) (res : ℤ) : Type 0 where
  pub sent : r'.sent ≡ r.sent
  pub done :
      ((fd : ℕ) × (res ≡ pos 0)
        × (r'.rep ≡ record r.rep { socket_fd = some fd; connected = true })
        × (r'.sockets ≡ fd ∷ r.sockets))
      ⊎ ((res ≡ negsuc 0) × (r'.rep ≡ record r.rep { socket_fd = none }) × (r'.sockets ≡ r.sockets))

give_up-Attempted :
    (r r' : Run) (fd : ℕ)
    → Same (with_socket r fd) r'
    → Attempted r (give_up r' fd).1 (give_up r' fd).0
unfolding give_up close_fd
give_up-Attempted r r' fd s = record {
  sent = s.sent;
  done = inr (
    refl,
    ap (λ (rep : Reporter). record rep { socket_fd = none }) s.rep,
    ap (without_fd fd) s.sockets ∙ without_fd_self fd r.sockets,
  );
}

settle-Attempted :
    (r : Run) (fd : ℕ) (out : Bool × Run)
    → Same (with_socket r fd) out.1
    → Attempted r (settle fd out).1 (settle fd out).0
unfolding settle
settle-Attempted r fd (true, r') s = record {
  sent = s.sent;
  done = inl (fd, refl, ap (λ (rep : Reporter). record rep { connected = true }) s.rep, s.sockets);
}
settle-Attempted r fd (false, r') s = give_up-Attempted r r' fd s

Same-trans : {r r' r'' : Run} → Same r r' → Same r' r'' → Same r r''
Same-trans s s' = record {
  rep = s'.rep ∙ s.rep;
  sockets = s'.sockets ∙ s.sockets;
  sent = s'.sent ∙ s.sent;
}

module _ (answers : Answers) where
  finish_connect-Same : (r : Run) → Same r (finish_connect answers r).1
  unfolding finish_connect
  finish_connect-Same r = elim (Bool-cases (answers.poll r.asked)) [
    | inl ok ↦ rw ok (elim (Bool-cases (answers.getsockopt (r.asked + 1))) [
      | inl ok' ↦ rw ok' (record { rep = refl; sockets = refl; sent = refl })
      | inr bad ↦ rw bad (record { rep = refl; sockets = refl; sent = refl })
    ])
    | inr bad ↦ rw bad (record { rep = refl; sockets = refl; sent = refl })
  ]

  connect_result-Same : (r : Run) (c : Connected) → Same r (connect_result answers r c).1
  unfolding connect_result
  connect_result-Same r at_once = record { rep = refl; sockets = refl; sent = refl }
  connect_result-Same r in_progress = finish_connect-Same r
  connect_result-Same r refused = record { rep = refl; sockets = refl; sent = refl }

  from_asking : {r r' : Run} → Same (asking (asking (asking r))) r' → Same r r'
  from_asking s = record { rep = s.rep; sockets = s.sockets; sent = s.sent }

  connect_socket-Same : (r : Run) → Same r (connect_socket answers r).1
  unfolding connect_socket
  connect_socket-Same r = elim (Bool-cases (answers.get_flags r.asked)) [
    | inl ok ↦ rw ok (elim (Bool-cases (answers.set_flags (r.asked + 1))) [
      | inl ok' ↦ rw ok' (from_asking (connect_result-Same _ _))
      | inr bad ↦ rw bad (record { rep = refl; sockets = refl; sent = refl })
    ])
    | inr bad ↦ rw bad (record { rep = refl; sockets = refl; sent = refl })
  ]

  find_host-Same : (r : Run) → Same r (find_host answers r).1
  unfolding find_host
  find_host-Same r = elim (Bool-cases (answers.is_address r.asked)) [
    | inl ok ↦ rw ok (record { rep = refl; sockets = refl; sent = refl })
    | inr bad ↦ rw bad (record { rep = refl; sockets = refl; sent = refl })
  ]

  connect_found-Attempted :
      (r : Run) (fd : ℕ) (out : Bool × Run)
      → Same (with_socket r fd) out.1
      → Attempted r (connect_found answers fd out).1 (connect_found answers fd out).0
  unfolding connect_found
  connect_found-Attempted r fd (true, r') s =
      settle-Attempted r fd (connect_socket answers r') (Same-trans s (connect_socket-Same r'))
  connect_found-Attempted r fd (false, r') s = give_up-Attempted r r' fd s

  connect_with-Attempted :
      (r : Run) (s : Option ℕ)
      → Attempted r (connect_with answers r s).1 (connect_with answers r s).0
  unfolding connect_with
  connect_with-Attempted r none = record { sent = refl; done = inr (refl, refl, refl) }
  connect_with-Attempted r (some fd) =
      connect_found-Attempted r fd _ (find_host-Same (with_socket r fd))

  pub connect-down :
      (r : Run)
      → r.rep.connected ≡ false
      → connect answers r ≡ connect_with answers (asking r) (answers.socket r.asked)
  unfolding connect
  connect-down r e = rw e refl

  -- An object that is not connected tries to connect. The socket that it may still hold, which a failed
  -- send leaves behind, is forgotten and stays open: where the attempt succeeds one more socket is
  -- open than before, and where it fails as many as before.
  pub connect_lem :
      (r : Run) → r.rep.connected ≡ false → Attempted r (connect answers r).1 (connect answers r).0
  connect_lem r e =
      rw (connect-down r e) (of_asking (connect_with-Attempted (asking r) (answers.socket r.asked)))
    where
      of_asking : {r' : Run} {res : ℤ} → Attempted (asking r) r' res → Attempted r r' res
      of_asking a = record { sent = a.sent; done = a.done }

  -- The reconnect closes the object's socket first, so it leaves no such socket behind, whether or
  -- not the object was connected.
  pub reconnect_lem :
      (r : Run) (fd : ℕ) (others : List ℕ)
      → r.rep.socket_fd ≡ some fd
      → r.sockets ≡ fd ∷ others
      → Attempted
          (record r {
            rep = record r.rep { socket_fd = none; connected = false };
            sockets = others;
          })
          (reconnect answers r).1
          (reconnect answers r).0
  unfolding reconnect close_fd
  reconnect_lem r fd others e e' =
      rw (e, e', without_fd_self fd others)
        (connect_lem
          (record r {
            rep = record r.rep { socket_fd = none; connected = false };
            sockets = others;
          })
          refl)
