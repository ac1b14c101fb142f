-- ===== src/Spots/Tests.antt =====
-- Runs of the model of cw-skimmer/src/spot_reporter.c on inputs that can be followed in the source, and the
-- theorems at concrete inputs.
use cw_skimmer.Prelude.{
  ℕ, ◌+◌, ◌≡◌, refl, true, false, List, [], ◌∷◌, Option, none, some, length, leb, ◌*◌, ◌==◌, map,
  if◌then◌else◌,
}
use cw_skimmer.Prelude.Int.{pos, negsuc}
use cw_skimmer.Prelude.Bytes.{Bytes, codes}
use cw_skimmer.Spots.{retry_max, Spot, Reporter, create, queue_spot, drop_oldest, waiting}
use cw_skimmer.Spots.Outside.{taken, broken, at_once, Tm, Answers, Run}
use cw_skimmer.Spots.Link.{connect, reconnect}
use cw_skimmer.Spots.Submit.{process_retries, resend_all, resend, submit_spot, after_send}
use cw_skimmer.Spots.Queue.{IsValid, create-IsValid, requeue, queue_spot_lem}
use cw_skimmer.Spots.Resend.{delivered, Resent, process_retries_lem}
use cw_skimmer.Spots.Leak.{Attempted, connect_lem, reconnect_lem}
use cw_skimmer.Spots.Sound.{submit, retry, again_link, Ends, run_calls, spot_calls-Ends}

abbrev noon : Tm
noon = record { tm_year = 126; tm_mon = 2; tm_mday = 1; tm_hour = 12; tm_min = 0; tm_sec = 0 }

-- a server whose socket breaks at the fourth question, and which accepts every connection
abbrev fragile : Answers
fragile = record {
  now = λ n. 100 * n + 100;
  local_time = λ n. noon;
  socket = λ n. some (3 + n);
  is_address = λ n. true;
  resolve = λ n. false;
  get_flags = λ n. true;
  set_flags = λ n. true;
  connect = λ n. at_once;
  poll = λ n. true;
  getsockopt = λ n. true;
  no_error = λ n. true;
  send = λ n line. if n == 4 then broken else taken (length line);
  khz_text = λ bits. codes "14030.000000";
  snr_text = λ bits. codes "+12.0";
}

abbrev spot_of : Bytes → Spot
spot_of call = record {
  callsign = call;
  frequency_hz = 1_231_431_488;
  snr_db = 1_094_713_344;
  confidence = 0;
  timestamp = 0;
  mode = codes "CW";
}

abbrev fresh : Reporter
fresh = create 0 0 (codes "10.0.0.7") (pos 7_300) (codes "K1ABC")

fresh-IsValid : IsValid fresh
fresh-IsValid = create-IsValid 0 0 (codes "10.0.0.7") (pos 7_300) (codes "K1ABC")

queue_spot_lem_example :
    let (res, rep') = queue_spot fresh (spot_of (codes "W1AW")) in
    IsValid rep'
    × (waiting rep' ≡ requeue (waiting fresh) (spot_of (codes "W1AW")))
    × (res ≡ (if leb retry_max (length (waiting fresh)) then negsuc 0 else pos 0))
    × (rep' ≡ (
        if leb retry_max (length (waiting fresh)) then fresh else record fresh {
          retry_queue = rep'.retry_queue;
          retry_tail = rep'.retry_tail;
          queue_size = rep'.queue_size;
        }))
queue_spot_lem_example = queue_spot_lem fresh (spot_of (codes "W1AW")) fresh-IsValid

abbrev two_waiting : Reporter
two_waiting = (queue_spot (queue_spot fresh (spot_of (codes "W1AW"))).1 (spot_of (codes "K9LA"))).1

two_waiting-IsValid : IsValid two_waiting
two_waiting-IsValid =
    (queue_spot_lem (queue_spot fresh (spot_of (codes "W1AW"))).1 (spot_of (codes "K9LA"))
      (queue_spot_lem fresh (spot_of (codes "W1AW")) fresh-IsValid).0).0

abbrev linked : Run
linked = record {
  rep = record two_waiting { socket_fd = some 3; connected = true };
  asked = 0;
  sockets = 3 ∷ [];
  sent = [];
}

linked-IsValid : IsValid linked.rep
linked-IsValid = record {
  array = two_waiting-IsValid.array;
  cap = two_waiting-IsValid.cap;
  head_in = two_waiting-IsValid.head_in;
  count_in = two_waiting-IsValid.count_in;
  tail_at = two_waiting-IsValid.tail_at;
  has_socket = tt;
}

process_retries_lem_example :
    Resent 0 linked (delivered fragile 1 (waiting linked.rep)) (process_retries fragile linked)
process_retries_lem_example = process_retries_lem fragile linked linked-IsValid refl

-- what a call of the retries counts as sent, and the call signs left in the queue
abbrev left_after : Option (ℕ × Run) → ℕ × List Bytes
left_after none = (0, [])
left_after (some (n, r)) = (n, map (λ (s : Spot). s.callsign) (waiting r.rep))

-- The socket breaks at the second spot, which is then in the queue twice.
twice_run : left_after (process_retries fragile linked) ≡ (1, codes "K9LA" ∷ codes "K9LA" ∷ [])
unfolding process_retries resend_all resend submit_spot after_send queue_spot drop_oldest create
twice_run = refl

-- after a failed send: not connected, with the socket still open
abbrev broken_off : Run
broken_off = record {
  rep = record two_waiting { socket_fd = some 3; connected = false };
  asked = 0;
  sockets = 3 ∷ [];
  sent = [];
}

connect_lem_example :
    Attempted broken_off (connect fragile broken_off).1 (connect fragile broken_off).0
connect_lem_example = connect_lem fragile broken_off refl

reconnect_lem_example :
    Attempted
      (record linked {
        rep = record linked.rep { socket_fd = none; connected = false };
        sockets = [];
      })
      (reconnect fragile linked).1
      (reconnect fragile linked).0
reconnect_lem_example = reconnect_lem fragile linked 3 [] refl refl

spot_calls-Ends_example : Ends fragile (
    run_calls fragile
      (record { rep = fresh; asked = 0; sockets = []; sent = [] })
      (submit (spot_of (codes "W1AW"))
        ∷ retry
        ∷ submit (spot_of (codes "K9LA"))
        ∷ again_link
        ∷ retry
        ∷ []))
spot_calls-Ends_example =
    spot_calls-Ends fragile 0 0 (codes "10.0.0.7") (pos 7_300) (codes "K1ABC") (
      submit (spot_of (codes "W1AW"))
      ∷ retry
      ∷ submit (spot_of (codes "K9LA"))
      ∷ again_link
      ∷ retry
      ∷ [])
