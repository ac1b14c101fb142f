-- ===== src/Spots/Resend.antt =====
-- The loop of `spot_reporter_process_retries` (cw-skimmer/src/spot_reporter.c) against a description of
-- what it sends and what it leaves, on the list of the spots that wait.
use cw_skimmer.Prelude.{
  ℕ, zero, suc, ◌+◌, ◌<◌, ◌≡◌, refl, sym, ap, ◌∙◌, true, false, List, [], ◌∷◌, ◌++◌, append_assoc,
  append-nil, Option, none, some, arith, take, ltb, lt→ltb, dec_lt, ℕ_discrete, ◌≢◌,
}
use cw_skimmer.Prelude.Bytes.{Bytes}
use cw_skimmer.Prelude.Slots.{slots}
use cw_skimmer.Spots.{Spot, no_spot, retry_max, Reporter, oldest, drop_oldest, waiting}
use cw_skimmer.Spots.Outside.{SendResult, taken, again, broken, Answers, Run, asking}
use cw_skimmer.Spots.Submit.{
  spot_line, after_send, submit_spot, after_submit, resend, resend_all, process_retries,
}
use cw_skimmer.Spots.Queue.{IsValid, requeue, queue_spot_lem, drop_oldest_lem}

-- The lines that the socket takes, the number of spots that count as sent, and the spots left.
abbrev pub Outcome : Type 0
Outcome = List Bytes × ℕ × List Spot

-- one spot, on what `send` says of its line, with the outcome of the spots behind it
abbrev pub outcome : Bytes → Spot → List Spot → Outcome → SendResult → Outcome
outcome line s ss (lines, k, left) (taken n) = (take n line ∷ lines, k + 1, left)
outcome line s ss (lines, k, left) again = (lines, k + 1, left)
outcome line s ss (lines, k, left) broken = ([], 0, requeue (s ∷ ss) s)

-- all spots, with two questions for each: the time, and `send`
abbrev pub delivered : Answers → ℕ → List Spot → Outcome
delivered answers asked [] = ([], 0, [])
delivered answers asked (s ∷ ss) =
    let line = spot_line answers (answers.local_time asked) s in
    outcome line s ss (delivered answers (asked + 1 + 1) ss) (answers.send (asked + 1) line)

-- The loop returned, with `n` spots counted before, and did what the outcome says.
abbrev pub Resent : ℕ → Run → Outcome → Option (ℕ × Run) → Type 0
Resent n r out none = ⊥
Resent n r (lines, k, left) (some (m, r')) =
    (m ≡ n + k) × (r'.sent ≡ r.sent ++ lines) × (waiting r'.rep ≡ left) × IsValid r'.rep

-- the run without the oldest spot, after a round that put two questions
abbrev advanced : Run → List Bytes → Run
advanced r sent = record {
  rep = drop_oldest r.rep;
  asked = r.asked + 1 + 1;
  sockets = r.sockets;
  sent = sent;
}

waiting_none : (rep : Reporter) → rep.queue_size ≡ 0 → waiting rep ≡ []
waiting_none rep e = ap (slots no_spot rep.retry_queue retry_max rep.retry_head) e

-- a round before what the loop does then
Resent-cons :
    (n : ℕ) (r r' : Run) (line : Bytes) (lines : List Bytes) (k : ℕ) (left : List Spot)
    (o : Option (ℕ × Run))
    → r'.sent ≡ r.sent ++ line ∷ []
    → Resent (n + 1) r' (lines, k, left) o
    → Resent n r (line ∷ lines, k + 1, left) o
Resent-cons n r r' line lines k left none e x = elim x [ ]
Resent-cons n r r' line lines k left (some (m, r'')) e (count, sent, rest, v) =
    (omega arith, sent ∙ ap (λ l. l ++ lines) e ∙ append_assoc r.sent (line ∷ []) lines, rest, v)

Resent-skip :
    (n : ℕ) (r r' : Run) (lines : List Bytes) (k : ℕ) (left : List Spot) (o : Option (ℕ × Run))
    → r'.sent ≡ r.sent
    → Resent (n + 1) r' (lines, k, left) o
    → Resent n r (lines, k + 1, left) o
Resent-skip n r r' lines k left none e x = elim x [ ]
Resent-skip n r r' lines k left (some (m, r'')) e (count, sent, rest, v) =
    (omega arith, sent ∙ ap (λ l. l ++ lines) e, rest, v)

disconnected-IsValid : (rep : Reporter) → IsValid rep → IsValid (record rep { connected = false })
disconnected-IsValid rep v = record {
  array = v.array;
  cap = v.cap;
  head_in = v.head_in;
  count_in = v.count_in;
  tail_at = v.tail_at;
  has_socket = tt;
}

round-Resent :
    (answers : Answers) (next : ℕ → Run → Option (ℕ × Run)) (n : ℕ) (r : Run) (line : Bytes)
    (ss : List Spot) (rest : Outcome) (answer : SendResult)
    → IsValid r.rep
    → waiting r.rep ≡ oldest r.rep ∷ ss
    → ((sent : List Bytes) → Resent (n + 1) (advanced r sent) rest (next (n + 1) (advanced r sent)))
    → Resent n r (outcome line (oldest r.rep) ss rest answer) (
        after_submit answers next n
          (after_send answers (asking (asking r)) (oldest r.rep) line answer))
unfolding after_send
round-Resent answers next n r line ss (lines, k, left) (taken m) v e ih =
    Resent-cons n r (advanced r (r.sent ++ take m line ∷ [])) (take m line) lines k left
      (next (n + 1) (advanced r (r.sent ++ take m line ∷ []))) refl
      (ih (r.sent ++ take m line ∷ []))
round-Resent answers next n r line ss (lines, k, left) again v e ih =
    Resent-skip n r (advanced r r.sent) lines k left (next (n + 1) (advanced r r.sent)) refl
      (ih r.sent)
round-Resent answers next n r line ss (lines, k, left) broken v e ih =
    let (v', queued, res, others) =
      queue_spot_lem (record r.rep { connected = false }) (oldest r.rep)
        (disconnected-IsValid r.rep v) in
    (
      omega arith,
      sym (append-nil r.sent),
      queued ∙ ap (λ spots. requeue spots (oldest r.rep)) e,
      v',
    )

ltb_zero : (n : ℕ) → n ≡ 0 → ltb 0 n ≡ false
ltb_zero n e = ground arith

submit_spot-connected :
    (answers : Answers) (r : Run) (spot : Spot)
    → r.rep.connected ≡ true
    → let line = spot_line answers (answers.local_time r.asked) spot in
      submit_spot answers r spot
      ≡ after_send answers (asking (asking r)) spot line (answers.send (r.asked + 1) line)
unfolding submit_spot
submit_spot-connected answers r spot e = rw e refl

drop_oldest-connected : (rep : Reporter) → (drop_oldest rep).connected ≡ rep.connected
unfolding drop_oldest
drop_oldest-connected rep = refl

resend-Resent :
    (answers : Answers) (fuel n : ℕ) (r : Run)
    → IsValid r.rep
    → r.rep.connected ≡ true
    → r.rep.queue_size < fuel
    → Resent n r (delivered answers r.asked (waiting r.rep)) (resend answers fuel n r)
unfolding resend
resend-Resent answers zero n r v up h = absurd (omega arith)
resend-Resent answers (suc fuel) n r v up h = elim (dec_lt 0 r.rep.queue_size) [
  | yes some_left ↦
      let (v', first, less) = drop_oldest_lem r.rep v some_left in
      rw
        (
          lt→ltb 0 r.rep.queue_size some_left,
          submit_spot-connected answers r (oldest r.rep) up,
          first,
        )
        (round-Resent answers (λ m r'. resend answers fuel m r') n r _ (waiting (drop_oldest r.rep))
          _ _ v first
          (λ sent.
            resend-Resent answers fuel (n + 1) (advanced r sent) v'
              (drop_oldest-connected r.rep ∙ up) (omega arith)))
  | no end ↦
      let e : r.rep.queue_size ≡ 0 = omega arith in
      rw (ltb_zero r.rep.queue_size e, waiting_none r.rep e)
        (omega arith, sym (append-nil r.sent), refl, v)
]

pub resend_all-Resent :
    (answers : Answers) (r : Run)
    → IsValid r.rep
    → r.rep.connected ≡ true
    → Resent 0 r (delivered answers r.asked (waiting r.rep)) (resend_all answers r)
unfolding resend_all
resend_all-Resent answers r v up =
    resend-Resent answers (r.rep.queue_size + 1) 0 r v up (omega arith)

process_retries-connected :
    (answers : Answers) (r : Run)
    → r.rep.connected ≡ true
    → r.rep.queue_size ≢ 0
    → process_retries answers r ≡ resend_all answers (asking r)
unfolding process_retries
process_retries-connected answers r up some_left = ground arith

process_retries-none :
    (answers : Answers) (r : Run) → r.rep.queue_size ≡ 0 → process_retries answers r ≡ some (0, r)
unfolding process_retries
process_retries-none answers r e = ground arith

-- While the reporter is connected a call of the retries returns, and does what the list of the spots
-- that wait describes: each is printed and sent in turn, and counts as sent and leaves the queue
-- where the socket takes any of it, and also where it would block, with nothing sent. At the first
-- hard error the call ends: this spot and those behind it are still in the queue, and unless 1000
-- wait it is in it once more, at the end.
pub process_retries_lem :
    (answers : Answers) (r : Run)
    → IsValid r.rep
    → r.rep.connected ≡ true
    → Resent 0 r (delivered answers (r.asked + 1) (waiting r.rep)) (process_retries answers r)
process_retries_lem answers r v up = elim (ℕ_discrete r.rep.queue_size 0) [
  | yes e ↦
      rw (process_retries-none answers r e, waiting_none r.rep e)
        (omega arith, sym (append-nil r.sent), refl, v)
  | no some_left ↦
      rw (process_retries-connected answers r up some_left)
        (resend_all-Resent answers (asking r) v up)
]
