-- ===== src/Radio/Queue/Refine.antt =====
-- The queue of cw-skimmer/src/radio_control.c against the list of the operations that wait.
use native.Mathlib.Numerals.{add-one}
use cw_skimmer.Prelude.{
  ℕ, zero, suc, ◌+◌, ◌-◌, ◌%◌, ◌≤◌, ◌<◌, ◌≡◌, refl, sym, ap, ap₂, ◌∙◌, false, List, [], ◌∷◌, ◌++◌,
  arith, length, length-set, get_or, set, drop, ltb, lt→ltb, get_or-set_self, get_or-set_ne,
  if◌then◌else◌, dec_lt,
}
use cw_skimmer.Prelude.Slots.{slots, slots-set_end, slots_mod, length-slots}
use cw_skimmer.Radio.Queue.{
  Op, Kind, has_kind, queue_size, blank, OpQueue, empty, make_room, append, push, kept_from,
  write_back, drop_kind, take_oldest, take_batch, waiting,
}

pub record IsValid (q : OpQueue) : Type 0 where
  pub array : length q.entries ≡ queue_size
  pub head_in : q.head < queue_size
  pub count_in : q.count ≤ queue_size

pub empty-IsValid : IsValid empty
unfolding empty
empty-IsValid = omega arith

-- An index that goes round, one step on, drops the first of the items.
slots-next :
    (buf : List Op) (h n k m : ℕ)
    → n ≡ suc k
    → m ≡ 1
    → slots blank buf queue_size ((h + 1) % queue_size) (n - 1)
      ≡ drop m (slots blank buf queue_size h n)
slots-next buf h n k m e e' =
    rw (e, e')
      (ap (slots blank buf queue_size ((h + 1) % queue_size)) {x = suc k - 1} {y = k} (omega arith)
        ∙ slots_mod blank buf queue_size ((h + 1) % queue_size) (h + 1) k (omega arith))

make_room-few : (q : OpQueue) → q.count < queue_size → make_room q ≡ q
unfolding make_room
make_room-few q h = ground arith

make_room-full :
    (q : OpQueue)
    → q.count ≡ queue_size
    → make_room q ≡ record q { head = (q.head + 1) % queue_size; count = q.count - 1 }
unfolding make_room
make_room-full q h = ground arith

make_room_lem :
    (q : OpQueue)
    → IsValid q
    → IsValid (make_room q)
      × ((make_room q).count < queue_size)
      × (waiting (make_room q) ≡ drop (length (waiting q) + 1 - queue_size) (waiting q))
make_room_lem q v = elim (dec_lt q.count queue_size) [
  | yes few ↦ rw (make_room-few q few) (
    v,
    few,
    ap (λ m. drop m (waiting q)) {x = 0} {y = length (waiting q) + 1 - queue_size}
        (omega (arith, length-slots blank q.entries queue_size q.head q.count)),
  )
  | no more ↦
      let full : q.count ≡ queue_size = omega arith in
      rw (make_room-full q full) (
        omega arith,
        omega arith,
        slots-next q.entries q.head q.count 31 _ full
            (omega (arith, length-slots blank q.entries queue_size q.head q.count)),
      )
]

append_lem :
    (q : OpQueue) (op : Op)
    → IsValid q
    → q.count < queue_size
    → IsValid (append q op) × (waiting (append q op) ≡ waiting q ++ op ∷ [])
unfolding append
append_lem q op v few = (
  record {
    array = omega (arith, v.array, length-set q.entries ((q.head + q.count) % queue_size) op);
    head_in = v.head_in;
    count_in = omega arith;
  },
  rw (add-one q.count)
      (slots-set_end blank q.entries queue_size q.head q.count _ op few (omega arith) refl),
)

-- The abstract queue: at 32 operations the oldest makes room for the new one.
abbrev pub push_list : List Op → Op → List Op
push_list ops op = drop (length ops + 1 - queue_size) ops ++ op ∷ []

-- A push appends the operation, and drops the oldest one where 32 wait already; it keeps the
-- queue's invariant, so every index it computes lies inside the array.
pub push_lem :
    (q : OpQueue) (op : Op)
    → IsValid q
    → IsValid (push q op) × (waiting (push q op) ≡ push_list (waiting q) op)
unfolding push
push_lem q op v =
    let (v', few, rest) = make_room_lem q v in
    let (v'', all) = append_lem (make_room q) op v' few in
    (v'', all ∙ ap (λ ops. ops ++ op ∷ []) rest)

take_oldest_lem :
    (q : OpQueue)
    → IsValid q
    → 0 < q.count
    → let (op, q') = take_oldest q in
      IsValid q' × (q'.count + 1 ≡ q.count) × (waiting q ≡ op ∷ waiting q')
unfolding take_oldest
take_oldest_lem q v h = (omega arith, omega arith, split q.count refl)
  where
    split :
        (n : ℕ)
        → q.count ≡ n
        → waiting q
          ≡ get_or q.entries q.head blank
            ∷ slots blank q.entries queue_size ((q.head + 1) % queue_size) (q.count - 1)
    split zero e = absurd (omega arith)
    split (suc k) e =
        ap (slots blank q.entries queue_size q.head) e
        ∙ ap₂ ◌∷◌ (ap (λ i. get_or q.entries i blank) (omega arith)) (
            sym (
              slots-next q.entries q.head q.count k 1 e refl
              ∙ ap (λ n. drop 1 (slots blank q.entries queue_size q.head n)) e))

pub waiting_none : (q : OpQueue) → q.count ≡ 0 → waiting q ≡ []
waiting_none q e = ap (slots blank q.entries queue_size q.head) e

ltb_zero : (n : ℕ) → n ≡ 0 → ltb 0 n ≡ false
ltb_zero n e = ground arith

-- The loop that empties the queue: with room for what waits it takes all of it, oldest first.
pub take_batch_lem :
    (room : ℕ) (q : OpQueue)
    → IsValid q
    → q.count ≤ room
    → let (ops, q') = take_batch room q in IsValid q' × (q'.count ≡ 0) × (ops ≡ waiting q)
unfolding take_batch
take_batch_lem zero q v h = (v, omega arith, sym (waiting_none q (omega arith)))
take_batch_lem (suc room) q v h = elim (dec_lt 0 q.count) [
  | yes some_left ↦
      let (v', less, first) = take_oldest_lem q v some_left in
      let (v'', none_left, rest) = take_batch_lem room (take_oldest q).1 v' (omega arith) in
      rw (lt→ltb 0 q.count some_left) (v'', none_left, ap (◌∷◌ (take_oldest q).0) rest ∙ sym first)
  | no end ↦
      let e : q.count ≡ 0 = omega arith in rw (ltb_zero q.count e) (v, e, sym (waiting_none q e))
]

-- The independent description of dropping a kind.
abbrev pub without : Kind → List Op → List Op
without kind [] = []
without kind (op ∷ ops) = if has_kind kind op then without kind ops else op ∷ without kind ops

kept_from-without :
    (q : OpQueue) (kind : Kind) (i n : ℕ)
    → kept_from q kind i n ≡ without kind (slots blank q.entries queue_size (q.head + i) n)
unfolding kept_from
kept_from-without q kind i zero = refl
kept_from-without q kind i (suc n) =
    ap
      (λ ops.
        let op = get_or q.entries ((q.head + i) % queue_size) blank in
        if has_kind kind op then ops else op ∷ ops)
      (kept_from-without q kind (i + 1) n
        ∙ ap (λ s. without kind (slots blank q.entries queue_size s n)) (omega arith))

length-without : (kind : Kind) (ops : List Op) → length (without kind ops) ≤ length ops
length-without kind [] = omega arith
length-without kind (op ∷ ops) = ground (arith, length-without kind ops)

length-write_back :
    (entries : List Op) (i : ℕ) (ops : List Op) → length (write_back entries i ops) ≡ length entries
unfolding write_back
length-write_back entries i [] = refl
length-write_back entries i (op ∷ ops) =
    length-write_back (set entries i op) (i + 1) ops ∙ length-set entries i op

-- Entries below the first one written are left alone.
get_or-write_back :
    (entries : List Op) (i j : ℕ) (ops : List Op)
    → j < i
    → get_or (write_back entries i ops) j blank ≡ get_or entries j blank
unfolding write_back
get_or-write_back entries i j [] h = refl
get_or-write_back entries i j (op ∷ ops) h =
    get_or-write_back (set entries i op) (i + 1) j ops (omega arith)
    ∙ get_or-set_ne entries i j op blank (omega arith)

slots-write_back :
    (entries : List Op) (i : ℕ) (ops : List Op)
    → length entries ≡ queue_size
    → i + length ops ≤ queue_size
    → slots blank (write_back entries i ops) queue_size i (length ops) ≡ ops
unfolding write_back
slots-write_back entries i [] hl h = refl
slots-write_back entries i (op ∷ ops) hl h =
    ap₂ ◌∷◌
      (ap (λ j. get_or (write_back (set entries i op) (i + 1) ops) j blank) {x = i % queue_size}
          {y = i} (omega arith)
        ∙ get_or-write_back (set entries i op) (i + 1) i ops (omega arith)
        ∙ get_or-set_self entries i op blank (omega arith))
      (slots-write_back (set entries i op) (i + 1) ops (length-set entries i op ∙ hl) (omega arith))

pub drop_kind_lem :
    (q : OpQueue) (kind : Kind)
    → IsValid q
    → IsValid (drop_kind q kind) × (waiting (drop_kind q kind) ≡ without kind (waiting q))
unfolding drop_kind
drop_kind_lem q kind v =
    let kept : List Op = kept_from q kind 0 q.count in
    let same : kept ≡ without kind (waiting q) =
      kept_from-without q kind 0 q.count
      ∙ ap (λ s. without kind (slots blank q.entries queue_size s q.count)) (omega arith) in
    let few : length kept ≤ queue_size = omega (
      arith,
      ap length same,
      length-without kind (waiting q),
      length-slots blank q.entries queue_size q.head q.count,
    ) in
    (
      record {
        array = length-write_back q.entries 0 kept ∙ v.array;
        head_in = omega arith;
        count_in = few;
      },
      slots-write_back q.entries 0 kept v.array (omega arith) ∙ same,
    )
