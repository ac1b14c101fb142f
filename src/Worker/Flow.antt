-- ===== src/Worker/Flow.antt =====
-- The chunks that pass through a decode worker (cw-skimmer/src/decode_worker.c): in every state that can be
-- reached, those accepted since the last start are those decoded, the one in hand, those that wait, and
-- those that a stop has thrown away.
use native.Mathlib.Numerals.{add-one}
use cw_skimmer.Prelude.{
  ℕ, zero, suc, ◌+◌, ◌-◌, ◌%◌, ◌≤◌, ◌<◌, ◌≡◌, refl, sym, ap, subst, ap₂, ◌∙◌, Bool, true, false,
  not, ◌↔◌, ◌||◌, List, [], ◌∷◌, ◌++◌, some, arith, take, take_of_le, length-take, length,
  length-set, get_or, set, leb, inl, inr, Bool-cases, if◌then◌else◌,
}
use cw_skimmer.Prelude.Int.{pos, negsuc}
use cw_skimmer.Prelude.Slots.{slots, length-slots, slots-set_end, slots_mod}
use cw_skimmer.Worker.{Worker, chunk_max, queue_depth, submit_iq, oldest, drop_oldest, waiting}

module _ {A : Type 0} where
  abbrev pub AllShort : List (List A) → Type 0
  AllShort [] = Unit
  AllShort (c ∷ cs) = (length c ≤ chunk_max) × AllShort cs

  AllShort-append :
      (cs : List (List A)) (c : List A)
      → AllShort cs
      → length c ≤ chunk_max
      → AllShort (cs ++ c ∷ [])
  AllShort-append [] c all h = (h, tt)
  AllShort-append (x ∷ cs) c (here, all) h = (here, AllShort-append cs c all h)

module _ {A D : Type 0} where
  pub record IsValid (w : Worker A D) : Type 0 where
    pub array : length w.iq_queue ≡ queue_depth
    pub read_in : w.queue_read < queue_depth
    pub count_in : w.queue_count ≤ queue_depth
    pub write_at : w.queue_write ≡ (w.queue_read + w.queue_count) % queue_depth
    pub short : AllShort (waiting w)

  -- an empty queue, whatever else the worker holds
  pub empty-IsValid :
      (w : Worker A D)
      → length w.iq_queue ≡ queue_depth
      → w.queue_read ≡ 0
      → w.queue_write ≡ 0
      → w.queue_count ≡ 0
      → IsValid w
  empty-IsValid w e er ew ec = record {
    array = e;
    read_in = omega arith;
    count_in = omega arith;
    write_at = omega arith;
    short = rw ec tt;
  }

  -- the worker with one chunk more
  abbrev queued : Worker A D → List A → Worker A D
  queued w chunk = record w {
    iq_queue = set w.iq_queue w.queue_write chunk;
    queue_write = (w.queue_write + 1) % queue_depth;
    queue_count = w.queue_count + 1;
  }

  queued-waiting :
      (w : Worker A D) (chunk : List A)
      → IsValid w
      → w.queue_count < queue_depth
      → waiting (queued w chunk) ≡ waiting w ++ chunk ∷ []
  queued-waiting w chunk v few = rw (add-one w.queue_count) (
      slots-set_end [] w.iq_queue queue_depth w.queue_read w.queue_count w.queue_write chunk few
        (omega (arith, v.array)) v.write_at)

  queued-IsValid :
      (w : Worker A D) (chunk : List A)
      → IsValid w
      → w.queue_count < queue_depth
      → length chunk ≤ chunk_max
      → IsValid (queued w chunk)
  queued-IsValid w chunk v few h = record {
    array = length-set w.iq_queue w.queue_write chunk ∙ v.array;
    read_in = v.read_in;
    count_in = omega arith;
    write_at = rw v.write_at (omega arith);
    short = rw (queued-waiting w chunk v few) (AllShort-append (waiting w) chunk v.short h);
  }

  -- the tests of a submit
  abbrev pub refuses : Worker A D → Bool
  refuses w = not w.active || w.birdie || leb queue_depth w.queue_count

  submit_iq-cases :
      (w : Worker A D) (a : A) (samples : List A)
      → submit_iq w (some (a ∷ samples))
        ≡ (if refuses w then (negsuc 0, w) else (pos 0, queued w (take chunk_max (a ∷ samples))))
  unfolding submit_iq
  submit_iq-cases w a samples = refl

  refuses-few : (w : Worker A D) → refuses w ≡ false → w.queue_count < queue_depth
  refuses-few w h = ground arith

  length-waiting : (w : Worker A D) → length (waiting w) ≡ w.queue_count
  length-waiting w = length-slots [] w.iq_queue queue_depth w.queue_read w.queue_count

  -- when a chunk is taken, in terms of what waits
  refused :
      (w : Worker A D)
      → refuses w ≡ true
      → (negsuc 0 ≡ pos 0)
        ↔ ((w.active ≡ true) × (w.birdie ≡ false) × (length (waiting w) < queue_depth))
  refused w h = rw (length-waiting w) (ground arith)

  admitted :
      (w : Worker A D)
      → refuses w ≡ false
      → (pos 0 ≡ pos 0)
        ↔ ((w.active ≡ true) × (w.birdie ≡ false) × (length (waiting w) < queue_depth))
  admitted w h = rw (length-waiting w) (ground arith)

  -- A submit of at least one sample either puts the first 1024 of them behind the chunks that wait,
  -- changes nothing but the queue and says 0, or leaves the whole worker as it is and says -1. It
  -- says 0 exactly where the worker is active, has found no birdie, and has fewer than 8 chunks
  -- waiting. The queue's indices stay inside its arrays, and no chunk is longer than 1024.
  pub submit_iq_lem :
      (w : Worker A D) (a : A) (samples : List A)
      → IsValid w
      → let (res, w') = submit_iq w (some (a ∷ samples)) in
        IsValid w'
        × (res ≡ (if refuses w then negsuc 0 else pos 0))
        × (waiting w'
            ≡ (if refuses w then waiting w else waiting w ++ take chunk_max (a ∷ samples) ∷ []))
        × (w' ≡ (
            if refuses w then w else record w {
              iq_queue = w'.iq_queue;
              queue_write = w'.queue_write;
              queue_count = w'.queue_count;
            }))
        × ((res ≡ pos 0)
            ↔ ((w.active ≡ true) × (w.birdie ≡ false) × (length (waiting w) < queue_depth)))
  submit_iq_lem w a samples v = rw (submit_iq-cases w a samples) (elim (Bool-cases (refuses w)) [
    | inl bad ↦ rw bad (v, refl, refl, refl, refused w bad)
    | inr good ↦
        let few = refuses-few w good in
        rw good (
          queued-IsValid w (take chunk_max (a ∷ samples)) v few
              (omega (arith, length-take chunk_max (a ∷ samples))),
          refl,
          queued-waiting w (take chunk_max (a ∷ samples)) v few,
          refl,
          admitted w good,
        )
  ])

  -- The oldest chunk leaves the queue whole.
  pub drop_oldest_lem :
      (w : Worker A D)
      → IsValid w
      → 0 < w.queue_count
      → IsValid (drop_oldest w) × (waiting w ≡ oldest w ∷ waiting (drop_oldest w))
  unfolding drop_oldest
  drop_oldest_lem w v h = split w.queue_count refl v.short
    where
      split :
          (n : ℕ)
          → w.queue_count ≡ n
          → AllShort (slots [] w.iq_queue queue_depth w.queue_read n)
          → IsValid (drop_oldest w) × (waiting w ≡ oldest w ∷ waiting (drop_oldest w))
      split zero e all = absurd (omega arith)
      split (suc k) e (here, all) =
          let less : k ≡ w.queue_count - 1 = omega arith in
          let at_head : w.queue_read % queue_depth ≡ w.queue_read = omega (arith, v.read_in) in
          let rest : slots [] w.iq_queue queue_depth (w.queue_read + 1) k
              ≡ slots [] w.iq_queue queue_depth ((w.queue_read + 1) % queue_depth)
                  (w.queue_count - 1) =
            slots_mod [] w.iq_queue queue_depth (w.queue_read + 1)
              ((w.queue_read + 1) % queue_depth) k (omega arith)
            ∙ ap (slots [] w.iq_queue queue_depth ((w.queue_read + 1) % queue_depth)) less in
          (
            record {
              array = v.array;
              read_in = omega arith;
              count_in = omega arith;
              write_at = v.write_at ∙ omega arith;
              short = subst AllShort rest all;
            },
            ap (slots [] w.iq_queue queue_depth w.queue_read) e
                ∙ ap₂ ◌∷◌
                    (ap (λ i. get_or w.iq_queue i []) at_head
                      ∙ sym (take_of_le chunk_max _ (rw at_head at here)))
                    rest,
          )
