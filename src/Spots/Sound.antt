-- ===== src/Spots/Sound.antt =====
-- The calls that the program makes on a spot reporter (cw-skimmer/src/spot_reporter.c), in any sequence.
use cw_skimmer.Prelude.{
  ℕ, ◌-◌, ◌≡◌, refl, sym, ap, subst, Bool, true, false, not, ◌&&◌, List, [], ◌∷◌, Option, none,
  some, ltb, ◌==◌, ◌⊎◌, inl, inr, Bool-cases, if◌then◌else◌,
}
use cw_skimmer.Prelude.Int.{ℤ, pos, negsuc}
use cw_skimmer.Prelude.Bytes.{Bytes}
use cw_skimmer.Spots.{Spot, Reporter, create}
use cw_skimmer.Spots.Outside.{SendResult, taken, again, broken, Answers, Run, asking, on_rep}
use cw_skimmer.Spots.Link.{connect, reconnect, close_fd}
use cw_skimmer.Spots.Submit.{
  after_send, submit_spot, retry_connected, process_retries, connect_interval,
}
use cw_skimmer.Spots.Queue.{IsValid, HasSocket, create-IsValid, queue_spot_lem}
use cw_skimmer.Spots.Resend.{Resent, Outcome, process_retries_lem, resend_all-Resent}
use cw_skimmer.Spots.Leak.{Attempted, connect_lem}

-- a change of the connection that leaves the queue alone
relink :
    (rep : Reporter) (fd : Option ℕ) (up : Bool)
    → HasSocket up fd
    → IsValid rep
    → IsValid (record rep { socket_fd = fd; connected = up })
relink rep fd up h v = record {
  array = v.array;
  cap = v.cap;
  head_in = v.head_in;
  count_in = v.count_in;
  tail_at = v.tail_at;
  has_socket = h;
}

-- The attempt left a valid object, and at the result 0 a connected one.
abbrev Linked : ℤ × Run → Type 0
Linked (res, r) = IsValid r.rep × ((res ≡ negsuc 0) ⊎ (r.rep.connected ≡ true))

HasSocket-any : (up : Bool) (fd : ℕ) → HasSocket up (some fd)
HasSocket-any true fd = tt
HasSocket-any false fd = tt

down_socket : (up : Bool) (fd : Option ℕ) → up ≡ false → HasSocket up fd
down_socket false fd e = tt
down_socket true fd e = cc e

Attempted-Linked :
    (r r' : Run) (res : ℤ)
    → r.rep.connected ≡ false
    → IsValid r.rep
    → Attempted r r' res
    → Linked (res, r')
Attempted-Linked r r' res e v a = split a.done
  where
    split :
        ((fd : ℕ) × (res ≡ pos 0)
            × (r'.rep ≡ record r.rep { socket_fd = some fd; connected = true })
            × (r'.sockets ≡ fd ∷ r.sockets))
          ⊎ ((res ≡ negsuc 0)
              × (r'.rep ≡ record r.rep { socket_fd = none })
              × (r'.sockets ≡ r.sockets))
        → Linked (res, r')
    split (inl (fd, ok, same, kept)) = (
      subst IsValid (sym same) (relink r.rep (some fd) true tt v),
      inr (ap (λ (rep : Reporter). rep.connected) same),
    )
    split (inr (bad, same, kept)) = (
      subst IsValid (sym same)
          (relink r.rep none r.rep.connected (down_socket r.rep.connected none e) v),
      inl bad,
    )

-- The calls that other parts of the program make on the object.
pub data Call : Type 0 where
  submit : Spot → Call
  retry link again_link : Call

module _ (answers : Answers) where
  connect-up : (r : Run) → r.rep.connected ≡ true → connect answers r ≡ (pos 0, r)
  unfolding connect
  connect-up r e = rw e refl

  connect-Linked : (r : Run) → IsValid r.rep → Linked (connect answers r)
  connect-Linked r v = elim (Bool-cases r.rep.connected) [
    | inl up ↦ rw (connect-up r up) (v, inr up)
    | inr down ↦
        Attempted-Linked r (connect answers r).1 (connect answers r).0 down v
          (connect_lem answers r down)
  ]

  -- The object stays valid, and the loop ended.
  abbrev Returns : Option (ℕ × Run) → Type 0
  Returns none = ⊥
  Returns (some (n, r)) = IsValid r.rep

  Resent-Returns :
      (n : ℕ) (r : Run) (out : Outcome) (o : Option (ℕ × Run)) → Resent n r out o → Returns o
  Resent-Returns n r out none x = x
  Resent-Returns n r (lines, k, left) (some (m, r')) x = x.3

  reconnect-IsValid : (r : Run) → IsValid r.rep → IsValid (reconnect answers r).1.rep
  unfolding reconnect close_fd
  reconnect-IsValid r v =
      (connect-Linked _
        (relink (close_fd r r.rep.socket_fd).rep none false tt (closed r.rep.socket_fd))).0
    where
      closed : (fd : Option ℕ) → IsValid (close_fd r fd).rep
      closed none = v
      closed (some fd) = v

  after_send-IsValid :
      (r : Run) (spot : Spot) (line : Bytes) (answer : SendResult)
      → IsValid r.rep
      → IsValid (after_send answers r spot line answer).1.rep
  unfolding after_send
  after_send-IsValid r spot line (taken n) v = v
  after_send-IsValid r spot line again v = v
  after_send-IsValid r spot line broken v =
      (queue_spot_lem _ spot (relink r.rep r.rep.socket_fd false (down_any r.rep.socket_fd) v)).0
    where
      down_any : (fd : Option ℕ) → HasSocket false fd
      down_any none = tt
      down_any (some fd) = tt

  submit_spot-IsValid :
      (r : Run) (spot : Spot) → IsValid r.rep → IsValid (submit_spot answers r spot).1.rep
  unfolding submit_spot
  submit_spot-IsValid r spot v =
      either r.rep.connected _ _ (after_send-IsValid (asking (asking r)) spot _ _ v)
        (queue_spot_lem r.rep spot v).0
    where
      either :
          (b : Bool) (x y : ℤ × Run)
          → IsValid x.1.rep
          → IsValid y.1.rep
          → IsValid (if b then x else y).1.rep
      either true x y vx vy = vx
      either false x y vx vy = vy

  retry_connected-Returns : (out : ℤ × Run) → Linked out → Returns (retry_connected answers out)
  unfolding retry_connected
  retry_connected-Returns (negsuc n, r) (v, up) = v
  retry_connected-Returns (pos n, r) (v, inl bad) = cc bad
  retry_connected-Returns (pos n, r) (v, inr up) =
      Resent-Returns 0 r _ _ (resend_all-Resent answers r v up)

  soon : Run → Bool
  soon r =
      not (r.rep.last_connect_attempt == 0)
      && ltb (answers.now r.asked - r.rep.last_connect_attempt) connect_interval

  tried : Run → Run
  tried r = on_rep (asking r) (record r.rep { last_connect_attempt = answers.now r.asked })

  process_retries-down :
      (r : Run)
      → r.rep.connected ≡ false
      → process_retries answers r ≡ (
          if r.rep.queue_size == 0
          then some (0, r)
          else if soon r
          then some (0, asking r)
          else retry_connected answers (connect answers (tried r)))
  unfolding process_retries soon tried
  process_retries-down r e = rw e refl

  tried-IsValid : (r : Run) → IsValid r.rep → IsValid (tried r).rep
  unfolding tried
  tried-IsValid r v = record {
    array = v.array;
    cap = v.cap;
    head_in = v.head_in;
    count_in = v.count_in;
    tail_at = v.tail_at;
    has_socket = v.has_socket;
  }

  either-Returns :
      (b : Bool) (x y : Option (ℕ × Run)) → Returns x → Returns y → Returns (if b then x else y)
  either-Returns true x y vx vy = vx
  either-Returns false x y vx vy = vy

  process_retries-Returns : (r : Run) → IsValid r.rep → Returns (process_retries answers r)
  process_retries-Returns r v = elim (Bool-cases r.rep.connected) [
    | inl up ↦ Resent-Returns 0 r _ _ (process_retries_lem answers r v up)
    | inr down ↦ rw (process_retries-down r down) (
        either-Returns (r.rep.queue_size == 0) _ _ v (
          either-Returns (soon r) _ _ v
            (retry_connected-Returns _ (connect-Linked (tried r) (tried-IsValid r v)))))
  ]

  -- the run behind a call; `none` where the loop of the retries did not end
  abbrev pub behind : Option (ℕ × Run) → Option Run
  behind none = none
  behind (some (n, r)) = some r

  unfoldable pub call : Run → Call → Option Run
  call r (submit spot) = some (submit_spot answers r spot).1
  call r retry = behind (process_retries answers r)
  call r link = some (connect answers r).1
  call r again_link = some (reconnect answers r).1

  abbrev pub then_calls : (Run → Option Run) → Option Run → Option Run
  then_calls next none = none
  then_calls next (some r) = next r

  unfoldable pub run_calls : Run → List Call → Option Run
  run_calls r [] = some r
  run_calls r (c ∷ calls) = then_calls (λ r'. run_calls r' calls) (call r c)

  -- The run ended, with a valid object.
  abbrev pub Ends : Option Run → Type 0
  Ends none = ⊥
  Ends (some r) = IsValid r.rep

  behind-Ends : (o : Option (ℕ × Run)) → Returns o → Ends (behind o)
  behind-Ends none x = x
  behind-Ends (some (n, r)) x = x

  call-Ends : (r : Run) (c : Call) → IsValid r.rep → Ends (call r c)
  unfolding call
  call-Ends r (submit spot) v = submit_spot-IsValid r spot v
  call-Ends r retry v = behind-Ends _ (process_retries-Returns r v)
  call-Ends r link v = (connect-Linked r v).0
  call-Ends r again_link v = reconnect-IsValid r v

  then_calls-Ends :
      (next : Run → Option Run) (o : Option Run)
      → Ends o
      → ((r : Run) → IsValid r.rep → Ends (next r))
      → Ends (then_calls next o)
  then_calls-Ends next none x h = x
  then_calls-Ends next (some r) x h = h r x

  run_calls-Ends : (r : Run) (calls : List Call) → IsValid r.rep → Ends (run_calls r calls)
  unfolding run_calls
  run_calls-Ends r [] v = v
  run_calls-Ends r (c ∷ calls) v =
      then_calls-Ends (λ r'. run_calls r' calls) (call r c) (call-Ends r c v)
        (λ r' v'. run_calls-Ends r' calls v')

-- A new reporter, whatever its memory held, that is used by any sequence of spots submitted, retries
-- and attempts to connect, whatever the system answers: every call returns, and the queue's head
-- and tail stay inside its array of 1000 spots, agree with its size, and the reporter has a socket
-- while it is connected.
pub spot_calls-Ends :
    (answers : Answers) (host_left callsign_left : ℕ) (host : Bytes) (port : ℤ) (callsign : Bytes)
    (calls : List Call)
    → Ends answers (
        run_calls answers
          (record {
            rep = create host_left callsign_left host port callsign;
            asked = 0;
            sockets = [];
            sent = [];
          })
          calls)
spot_calls-Ends answers host_left callsign_left host port callsign calls =
    run_calls-Ends answers _ calls (create-IsValid host_left callsign_left host port callsign)
