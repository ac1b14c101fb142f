-- ===== src/Radio/Queue.antt =====
-- The queue of operations of cw-skimmer/src/radio_control.c: an array of RC_QUEUE entries with a head
-- and a count. `rc_op_t` carries a kind and the field of that kind, here a constructor each.
pub mod Refine
use cw_skimmer.Prelude.{
  ℕ, zero, suc, ◌+◌, ◌-◌, ◌%◌, Bool, true, false, not, List, [], ◌∷◌, ◌++◌, length, get_or, set,
  replicate, ltb, if◌then◌else◌,
}
use cw_skimmer.Prelude.Int.{ℤ, pos}
use cw_skimmer.Prelude.Bytes.{Bytes}
use cw_skimmer.Prelude.Slots.{slots}

pub data Op : Type 0 where
  tune : ℤ → Op
  cw : Bytes → Op
  stop : Op

-- RC_OP_TUNE, RC_OP_CW and RC_OP_STOP
pub data Kind : Type 0 where
  tune_kind cw_kind stop_kind : Kind

-- `op->kind == kind`
unfoldable pub has_kind : Kind → Op → Bool
has_kind tune_kind (tune hz) = true
has_kind cw_kind (cw text) = true
has_kind stop_kind stop = true
has_kind _ _ = false

-- RC_QUEUE
abbrev pub queue_size : ℕ
queue_size = 32

-- What `calloc` leaves in an entry, of no kind, is never read: it is written as a `stop` here.
abbrev pub blank : Op
blank = stop

pub record OpQueue : Type 0 where
  pub entries : List Op
  pub head : ℕ
  pub count : ℕ

unfoldable pub empty : OpQueue
empty = record { entries = replicate queue_size blank; head = 0; count = 0 }

-- `rc_push_locked`: at a full queue the oldest entry goes first
unfoldable pub make_room : OpQueue → OpQueue
make_room q =
    if ltb q.count queue_size
    then q
    else record q { head = (q.head + 1) % queue_size; count = q.count - 1 }

unfoldable pub append : OpQueue → Op → OpQueue
append q op = record q {
  entries = set q.entries ((q.head + q.count) % queue_size) op;
  count = q.count + 1;
}

unfoldable pub push : OpQueue → Op → OpQueue
push q op = append (make_room q) op

-- `rc_drop_kind_locked`: the first loop, which copies to `kept` what is of another kind
unfoldable pub kept_from : OpQueue → Kind → ℕ → ℕ → List Op
kept_from q kind i zero = []
kept_from q kind i (suc n) =
    let op = get_or q.entries ((q.head + i) % queue_size) blank in
    let rest = kept_from q kind (i + 1) n in if has_kind kind op then rest else op ∷ rest

-- the second loop, which writes `kept` back from entry 0 on
unfoldable pub write_back : List Op → ℕ → List Op → List Op
write_back entries i [] = entries
write_back entries i (op ∷ ops) = write_back (set entries i op) (i + 1) ops

unfoldable pub drop_kind : OpQueue → Kind → OpQueue
unfolding kept_from write_back
drop_kind q kind =
    let kept = kept_from q kind 0 q.count in
    record { entries = write_back q.entries 0 kept; head = 0; count = length kept }

-- one round of the loop that moves the queue to `batch`
unfoldable pub take_oldest : OpQueue → Op × OpQueue
take_oldest q = (
  get_or q.entries q.head blank,
  record q { head = (q.head + 1) % queue_size; count = q.count - 1 },
)

-- `while (n < RC_QUEUE && rc->q_count > 0)`, with `room` for `RC_QUEUE - n`
unfoldable pub take_batch : ℕ → OpQueue → List Op × OpQueue
take_batch zero q = ([], q)
take_batch (suc room) q =
    let (op, q') = take_oldest q in
    let (ops, q'') = take_batch room q' in if ltb 0 q.count then (op ∷ ops, q'') else ([], q)

-- the operations that wait, oldest first
abbrev pub waiting : OpQueue → List Op
waiting q = slots blank q.entries queue_size q.head q.count
