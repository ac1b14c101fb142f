-- ===== src/Spots/Queue.antt =====
-- The retry queue of cw-skimmer/src/spot_reporter.c against the list of the spots that wait.
use native.Mathlib.Numerals.{add-one}
use cw_skimmer.Prelude.{
  ℕ, zero, suc, ◌+◌, ◌-◌, ◌%◌, ◌≤◌, ◌<◌, ◌≡◌, refl, ap, ap₂, ◌∙◌, Bool, true, List, [], ◌∷◌, ◌++◌,
  Option, none, arith, length, length-set, length-replicate, get_or, set, leb, inl, inr, Bool-cases,
  if◌then◌else◌,
}
use cw_skimmer.Prelude.Int.{ℤ, pos, negsuc}
use cw_skimmer.Prelude.Bytes.{Bytes}
use cw_skimmer.Prelude.Slots.{slots, slots-set_end, slots_mod, length-slots}
use cw_skimmer.Spots.{
  retry_max, Spot, no_spot, Reporter, create, queue_spot, oldest, drop_oldest, waiting,
}

-- a connected reporter has a socket
abbrev pub HasSocket : Bool → Option ℕ → Type 0
HasSocket true none = ⊥
HasSocket _ _ = Unit

pub record IsValid (rep : Reporter) : Type 0 where
  pub array : length rep.retry_queue ≡ retry_max
  pub cap : rep.max_queue_size ≡ retry_max
  pub head_in : rep.retry_head < retry_max
  pub count_in : rep.queue_size ≤ retry_max
  pub tail_at : rep.retry_tail ≡ (rep.retry_head + rep.queue_size) % retry_max
  pub has_socket : HasSocket rep.connected rep.socket_fd

pub create-IsValid :
    (host_left callsign_left : ℕ) (host : Bytes) (port : ℤ) (callsign : Bytes)
    → IsValid (create host_left callsign_left host port callsign)
unfolding create
create-IsValid host_left callsign_left host port callsign = record {
  array = length-replicate retry_max no_spot;
  cap = refl;
  head_in = omega arith;
  count_in = omega arith;
  tail_at = omega arith;
  has_socket = tt;
}

-- The abstract queue: one that is full refuses the spot.
abbrev pub requeue : List Spot → Spot → List Spot
requeue spots spot = if leb retry_max (length spots) then spots else spots ++ spot ∷ []

length-waiting : (rep : Reporter) → length (waiting rep) ≡ rep.queue_size
length-waiting rep = length-slots no_spot rep.retry_queue retry_max rep.retry_head rep.queue_size

-- the reporter with the spot behind the others
abbrev queued : Reporter → Spot → Reporter
queued rep spot = record rep {
  retry_queue = set rep.retry_queue rep.retry_tail spot;
  retry_tail = (rep.retry_tail + 1) % rep.max_queue_size;
  queue_size = rep.queue_size + 1;
}

queued-IsValid :
    (rep : Reporter) (spot : Spot)
    → IsValid rep
    → rep.queue_size < retry_max
    → IsValid (queued rep spot)
queued-IsValid rep spot v few = record {
  array = length-set rep.retry_queue rep.retry_tail spot ∙ v.array;
  cap = v.cap;
  head_in = v.head_in;
  count_in = omega arith;
  tail_at = rw (v.cap, v.tail_at) (omega arith);
  has_socket = v.has_socket;
}

queued-waiting :
    (rep : Reporter) (spot : Spot)
    → IsValid rep
    → rep.queue_size < retry_max
    → waiting (queued rep spot) ≡ waiting rep ++ spot ∷ []
queued-waiting rep spot v few = rw (add-one rep.queue_size) (
    slots-set_end no_spot rep.retry_queue retry_max rep.retry_head rep.queue_size rep.retry_tail
      spot few (omega (arith, v.array)) v.tail_at)

queue_spot-full :
    (rep : Reporter) (spot : Spot)
    → rep.max_queue_size ≤ rep.queue_size
    → queue_spot rep spot ≡ (negsuc 0, rep)
unfolding queue_spot
queue_spot-full rep spot h = ground arith

queue_spot-few :
    (rep : Reporter) (spot : Spot)
    → rep.queue_size < rep.max_queue_size
    → queue_spot rep spot ≡ (pos 0, queued rep spot)
unfolding queue_spot
queue_spot-few rep spot h = ground arith

-- The queue takes a spot behind the others, changes nothing else of the reporter and says 0, until
-- 1000 wait; then it says -1 and leaves the whole reporter as it is. Its invariant is kept: every index it computes lies inside the array.
pub queue_spot_lem :
    (rep : Reporter) (spot : Spot)
    → IsValid rep
    → let (res, rep') = queue_spot rep spot in
      IsValid rep'
      × (waiting rep' ≡ requeue (waiting rep) spot)
      × (res ≡ (if leb retry_max (length (waiting rep)) then negsuc 0 else pos 0))
      × (rep' ≡ (
          if leb retry_max (length (waiting rep)) then rep else record rep {
            retry_queue = rep'.retry_queue;
            retry_tail = rep'.retry_tail;
            queue_size = rep'.queue_size;
          }))
queue_spot_lem rep spot v =
    rw (length-waiting rep) (elim (Bool-cases (leb retry_max rep.queue_size)) [
      | inl full ↦ rw (full, queue_spot-full rep spot (ground (arith, v.cap))) (v, refl, refl, refl)
      | inr few ↦
          rw (few, queue_spot-few rep spot (ground (arith, v.cap)))
            (
              queued-IsValid rep spot v (ground arith),
              queued-waiting rep spot v (ground arith),
              refl,
              refl,
            )
    ])

-- The head moves on: what waited is the oldest spot and what waits then.
pub drop_oldest_lem :
    (rep : Reporter)
    → IsValid rep
    → 0 < rep.queue_size
    → IsValid (drop_oldest rep)
      × (waiting rep ≡ oldest rep ∷ waiting (drop_oldest rep))
      × ((drop_oldest rep).queue_size + 1 ≡ rep.queue_size)
unfolding drop_oldest
drop_oldest_lem rep v h = (
  record {
    array = v.array;
    cap = v.cap;
    head_in = rw v.cap (omega arith);
    count_in = omega arith;
    tail_at = rw (v.cap, v.tail_at) (omega arith);
    has_socket = v.has_socket;
  },
  rw v.cap (split rep.queue_size refl),
  omega arith,
)
  where
    split :
        (n : ℕ)
        → rep.queue_size ≡ n
        → waiting rep
          ≡ get_or rep.retry_queue rep.retry_head no_spot
            ∷ slots no_spot rep.retry_queue retry_max
                ((rep.retry_head + 1) % retry_max)
                (rep.queue_size - 1)
    split zero e = absurd (omega arith)
    split (suc k) e =
        ap (slots no_spot rep.retry_queue retry_max rep.retry_head) e
        ∙ ap₂ ◌∷◌ (ap (λ i. get_or rep.retry_queue i no_spot) (omega (arith, v.head_in))) (
            slots_mod no_spot rep.retry_queue retry_max (rep.retry_head + 1)
              ((rep.retry_head + 1) % retry_max) k (omega arith)
            ∙ ap (slots no_spot rep.retry_queue retry_max ((rep.retry_head + 1) % retry_max))
                {x = k} {y = rep.queue_size - 1} (omega arith))
