-- ===== src/Radio/Control/Sound.antt =====
-- What holds of a `radio_control` object (cw-skimmer/src/radio_control.c) between calls.
use cw_skimmer.Prelude.{
  ℕ, zero, suc, ◌+◌, ◌-◌, ◌≤◌, ◌<◌, ◌≡◌, refl, ap, List, [], ◌∷◌, ◌++◌, Option, none, some, arith,
  length, drop, inl, inr, Bool-cases,
}
use cw_skimmer.Prelude.Int.{ℤ, pos, ◌≤ℤ◌}
use cw_skimmer.Prelude.Bytes.{Bytes}
use cw_skimmer.Radio.Text.{is_frequency}
use cw_skimmer.Radio.Text.Commands.{clamp_wpm_bounds}
use cw_skimmer.Radio.Queue.{
  Op, tune, cw, stop, Kind, tune_kind, cw_kind, has_kind, queue_size, OpQueue, empty, push,
  drop_kind, waiting,
}
use cw_skimmer.Radio.Queue.Refine.{IsValid, empty-IsValid, push_lem, drop_kind_lem, without}
use cw_skimmer.Radio.Control.{
  RadioControl, tci, KyState, down, connecting, ready, create, ky_close, clear_queue, request_tune,
  push_text, clean_text, cw_text, cw_stop, set_wpm,
}

-- A socket is open exactly while the connection is being made or stands.
abbrev pub SocketFits : KyState → Option ℕ → Type 0
SocketFits down none = Unit
SocketFits connecting (some fd) = Unit
SocketFits ready (some fd) = Unit
SocketFits _ _ = ⊥

abbrev pub tunings : List Op → ℕ
tunings [] = 0
tunings (tune hz ∷ ops) = suc (tunings ops)
tunings (_ ∷ ops) = tunings ops

pub record IsSound (rc : RadioControl) : Type 0 where
  pub queue_valid : IsValid rc.queue
  pub one_tuning : tunings (waiting rc.queue) ≤ 1
  pub slow : pos 5 ≤ℤ rc.wpm
  pub fast : rc.wpm ≤ℤ pos 60
  pub rx_fits : length rc.ky_rx < 512
  pub backlog_fits : length rc.ky_backlog < 1024
  pub inside : rc.ky_pos ≤ length rc.ky_backlog
  pub socket : SocketFits rc.ky_state rc.ky_fd
  pub idle : rc.mode ≡ tci → rc.ky_state ≡ down

tunings-append : (xs ys : List Op) → tunings (xs ++ ys) ≡ tunings xs + tunings ys
tunings-append [] ys = omega arith
tunings-append (tune hz ∷ xs) ys = omega (arith, tunings-append xs ys)
tunings-append (cw text ∷ xs) ys = tunings-append xs ys
tunings-append (stop ∷ xs) ys = tunings-append xs ys

tunings-drop : (n : ℕ) (xs : List Op) → tunings (drop n xs) ≤ tunings xs
tunings-drop zero xs = omega arith
tunings-drop (suc n) [] = omega arith
tunings-drop (suc n) (tune hz ∷ xs) = omega (arith, tunings-drop n xs)
tunings-drop (suc n) (cw text ∷ xs) = tunings-drop n xs
tunings-drop (suc n) (stop ∷ xs) = tunings-drop n xs

tunings-without : (kind : Kind) (xs : List Op) → tunings (without kind xs) ≤ tunings xs
unfolding has_kind
tunings-without kind [] = omega arith
tunings-without kind (tune hz ∷ xs) = ground (arith, tunings-without kind xs)
tunings-without kind (cw text ∷ xs) = ground (arith, tunings-without kind xs)
tunings-without kind (stop ∷ xs) = ground (arith, tunings-without kind xs)

tunings-without_tune : (xs : List Op) → tunings (without tune_kind xs) ≡ 0
unfolding has_kind
tunings-without_tune [] = refl
tunings-without_tune (tune hz ∷ xs) = tunings-without_tune xs
tunings-without_tune (cw text ∷ xs) = tunings-without_tune xs
tunings-without_tune (stop ∷ xs) = tunings-without_tune xs

tunings-push :
    (q : OpQueue) (op : Op)
    → IsValid q
    → tunings (waiting (push q op)) ≤ tunings (waiting q) + tunings (op ∷ [])
tunings-push q op v = rw (push_lem q op v).1 (
    omega (
      arith,
      tunings-append (drop (length (waiting q) + 1 - queue_size) (waiting q)) (op ∷ []),
      tunings-drop (length (waiting q) + 1 - queue_size) (waiting q),
    ))

-- Another queue and another backlog, with the rest of the object as it was.
pub requeue-IsSound :
    (rc : RadioControl) (q : OpQueue) (backlog : Bytes) (p : ℕ)
    → IsSound rc
    → IsValid q
    → tunings (waiting q) ≤ 1
    → length backlog < 1024
    → p ≤ length backlog
    → IsSound (record rc { queue = q; ky_backlog = backlog; ky_pos = p })
requeue-IsSound rc q backlog p v vq one hb hp = record {
  queue_valid = vq;
  one_tuning = one;
  slow = v.slow;
  fast = v.fast;
  rx_fits = v.rx_fits;
  backlog_fits = hb;
  inside = hp;
  socket = v.socket;
  idle = v.idle;
}

-- A new object is sound.
pub create-IsSound : IsSound create
unfolding create
create-IsSound = record {
  queue_valid = empty-IsValid;
  one_tuning = unfold empty in omega arith;
  slow = omega arith;
  fast = omega arith;
  rx_fits = omega arith;
  backlog_fits = omega arith;
  inside = omega arith;
  socket = tt;
  idle = λ e. refl;
}

pub ky_close-IsSound : (rc : RadioControl) → IsSound rc → IsSound (ky_close rc)
unfolding ky_close
ky_close-IsSound rc v = record {
  queue_valid = v.queue_valid;
  one_tuning = v.one_tuning;
  slow = v.slow;
  fast = v.fast;
  rx_fits = omega arith;
  backlog_fits = v.backlog_fits;
  inside = v.inside;
  socket = tt;
  idle = λ e. refl;
}

pub clear_queue-IsSound : (rc : RadioControl) → IsSound rc → IsSound (clear_queue rc)
unfolding clear_queue
clear_queue-IsSound rc v =
    requeue-IsSound rc (record { entries = rc.queue.entries; head = 0; count = 0 }) [] 0 v
      (record { array = v.queue_valid.array; head_in = omega arith; count_in = omega arith })
      (omega arith) (omega arith) (omega arith)

tune_queue :
    (q : OpQueue) (hz : ℤ)
    → IsValid q
    → let q' = push (drop_kind q tune_kind) (tune hz) in IsValid q' × (tunings (waiting q') ≤ 1)
tune_queue q hz v =
    let (v', rest) = drop_kind_lem q tune_kind v in
    (
      (push_lem (drop_kind q tune_kind) (tune hz) v').0,
      omega (
        arith,
        tunings-push (drop_kind q tune_kind) (tune hz) v',
        ap tunings rest,
        tunings-without_tune (waiting q),
      ),
    )

pub request_tune-IsSound :
    (rc : RadioControl) (hz : ℤ) → IsSound rc → IsSound (request_tune rc hz).1
unfolding request_tune
request_tune-IsSound rc hz v = elim (Bool-cases (is_frequency hz)) [
  | inl good ↦
      let (vq, one) = tune_queue rc.queue hz v.queue_valid in
      rw good (requeue-IsSound rc _ rc.ky_backlog rc.ky_pos v vq one v.backlog_fits v.inside)
  | inr bad ↦ rw bad v
]

push_text-IsSound : (rc : RadioControl) (s : Bytes) → IsSound rc → IsSound (push_text rc s)
push_text-IsSound rc [] v = v
push_text-IsSound rc (c ∷ s) v =
    requeue-IsSound rc _ rc.ky_backlog rc.ky_pos v (push_lem rc.queue (cw (c ∷ s)) v.queue_valid).0
      (omega (arith, tunings-push rc.queue (cw (c ∷ s)) v.queue_valid, v.one_tuning)) v.backlog_fits
      v.inside

pub cw_text-IsSound :
    (rc : RadioControl) (text : Option Bytes) → IsSound rc → IsSound (cw_text rc text).1
unfolding cw_text
cw_text-IsSound rc text v = push_text-IsSound rc (clean_text text) v

pub cw_stop-IsSound : (rc : RadioControl) → IsSound rc → IsSound (cw_stop rc).1
unfolding cw_stop
cw_stop-IsSound rc v =
    let (v', rest) = drop_kind_lem rc.queue cw_kind v.queue_valid in
    requeue-IsSound rc _ [] 0 v (push_lem (drop_kind rc.queue cw_kind) stop v').0
      (omega (
        arith,
        tunings-push (drop_kind rc.queue cw_kind) stop v',
        ap tunings rest,
        tunings-without cw_kind (waiting rc.queue),
        v.one_tuning,
      ))
      (omega arith) (omega arith)

pub set_wpm-IsSound : (rc : RadioControl) (wpm : ℤ) → IsSound rc → IsSound (set_wpm rc wpm).1
unfolding set_wpm
set_wpm-IsSound rc wpm v = record {
  queue_valid = v.queue_valid;
  one_tuning = v.one_tuning;
  slow = (clamp_wpm_bounds wpm).0;
  fast = (clamp_wpm_bounds wpm).1;
  rx_fits = v.rx_fits;
  backlog_fits = v.backlog_fits;
  inside = v.inside;
  socket = v.socket;
  idle = v.idle;
}
