-- ===== src/Tci/SampleRing.antt =====
-- The ring of samples of cw-skimmer/src/tci_client.c as a queue that forgets its oldest sample when it is full.
use cw_skimmer.Prelude.{
  ℕ, zero, suc, ◌+◌, ◌-◌, ◌%◌, ◌≤◌, ◌<◌, ◌≡◌, refl, sym, ap, ap₂, ◌∙◌, subst, inl, inr, false, List,
  [], ◌∷◌, ◌++◌, arith, length, length-set, take, take_of_le, drop, drop_of_le, set, ltb, leb,
  leb→le, ltb→lt, Bool-cases, if◌then◌else◌,
}
use cw_skimmer.Prelude.Slots.{slots, length-slots, slots_mod}
use native.Mathlib.Nat.{mod-eq_of_lt, add-mod_right, mod-lt}
use cw_skimmer.Capture.Ring.{next_pos, held_at, held_at-room, held_at-full, next_pos-inside}
use cw_skimmer.Capture.Copy.{slots-take}
use cw_skimmer.Tci.Samples.{SampleBuffer, push_sample, get_iq_samples}

-- a queue with room for `size` items
abbrev pub queue_push : {A : Type 0} → ℕ → List A → A → List A
queue_push size q x = if ltb (length q) size then q ++ x ∷ [] else drop 1 q ++ x ∷ []

pub record IsSampleRing {A : Type 0} (b : SampleBuffer A) : Type 0 where
  pub size : length b.iq_buffer ≡ b.buffer_size
  pub inside : b.buffer_head < b.buffer_size
  pub count_fits : b.buffer_count ≤ b.buffer_size

module _ {A : Type 0} (silence : A) where
  -- the samples that wait, oldest first
  abbrev pub waiting : SampleBuffer A → List A
  waiting b = held_at silence b.iq_buffer b.buffer_size b.buffer_head b.buffer_count

  next_pos-mod_eq : (cap wp : ℕ) → wp < cap → (wp + 1) % cap ≡ next_pos silence cap wp
  next_pos-mod_eq cap wp h = elim (Bool-cases (leb cap (wp + 1))) [
    | inl turns ↦ rw turns (
        ap (λ t. t % cap) (omega (arith, leb→le cap (wp + 1) turns))
        ∙ add-mod_right 0 cap
        ∙ mod-eq_of_lt {n = 0} {m = cap} (omega arith))
    | inr goes_on ↦ rw goes_on (mod-eq_of_lt {n = wp + 1} {m = cap} (less (wp + 1) goes_on))
  ]
    where
      less : (n : ℕ) → leb cap n ≡ false → n < cap
      less n e = ground arith

  held_at-full_ring :
      (buf : List A) (cap wp n : ℕ) (x : A)
      → length buf ≡ cap
      → wp < cap
      → n ≡ cap
      → held_at silence (set buf wp x) cap (next_pos silence cap wp) n
        ≡ drop 1 (held_at silence buf cap wp n) ++ x ∷ []
  held_at-full_ring buf zero wp n x size h e = absurd (omega arith)
  held_at-full_ring buf (suc m) wp n x size h e = rw e (held_at-full silence buf m wp x size h)

  slots-drop :
      (buf : List A) (cap s n k : ℕ)
      → k ≤ n
      → drop k (slots silence buf cap s n) ≡ slots silence buf cap (s + k) (n - k)
  slots-drop buf cap s n zero h = ap₂ (slots silence buf cap) (omega arith) (omega arith)
  slots-drop buf cap s zero (suc k) h = absurd (omega arith)
  slots-drop buf cap s (suc n) (suc k) h =
      slots-drop buf cap (s + 1) n k (omega arith)
      ∙ ap₂ (slots silence buf cap) (omega arith) (omega arith)

  waiting-long : (b : SampleBuffer A) → length (waiting b) ≡ b.buffer_count
  waiting-long b =
      length-slots silence b.iq_buffer b.buffer_size
        (b.buffer_head + b.buffer_size - b.buffer_count) b.buffer_count

  push_sample-IsSampleRing :
      (b : SampleBuffer A) (x : A) → IsSampleRing b → IsSampleRing (push_sample b x)
  unfolding push_sample
  push_sample-IsSampleRing b x r = record {
    size = length-set b.iq_buffer b.buffer_head x ∙ r.size;
    inside =
        subst (λ n. n < b.buffer_size) (sym (next_pos-mod_eq b.buffer_size b.buffer_head r.inside))
          (next_pos-inside silence b.buffer_size b.buffer_head r.inside);
    count_fits = fits b.buffer_count b.buffer_size r.count_fits;
  }
    where
      fits : (n cap : ℕ) → n ≤ cap → (if ltb n cap then n + 1 else n) ≤ cap
      fits n cap h = ground arith

  push_sample-waiting :
      (b : SampleBuffer A) (x : A)
      → IsSampleRing b
      → waiting (push_sample b x) ≡ queue_push b.buffer_size (waiting b) x
  unfolding push_sample
  push_sample-waiting b x r = elim (Bool-cases (ltb b.buffer_count b.buffer_size)) [
    | inl room ↦
        rw (waiting-long b, room, next_pos-mod_eq b.buffer_size b.buffer_head r.inside)
          (held_at-room silence b.iq_buffer b.buffer_size b.buffer_head b.buffer_count x r.size
            r.inside (ltb→lt b.buffer_count b.buffer_size room))
    | inr full ↦
        rw (waiting-long b, full, next_pos-mod_eq b.buffer_size b.buffer_head r.inside)
          (held_at-full_ring b.iq_buffer b.buffer_size b.buffer_head b.buffer_count x r.size
            r.inside (omega (arith, r.count_fits, not_less b.buffer_count b.buffer_size full)))
  ]
    where
      not_less : (m n : ℕ) → ltb m n ≡ false → n ≤ m
      not_less m n h = ground arith

  -- the number of samples handed over
  abbrev got : ℕ → ℕ → ℕ
  got held count = if ltb held count then held else count

  got-fits : (held count : ℕ) → got held count ≤ held
  got-fits held count = ground arith

  take-got : (q : List A) (count : ℕ) → take (got (length q) count) q ≡ take count q
  take-got q count = elim (Bool-cases (ltb (length q) count)) [
    | inl all ↦ rw all (
        take_of_le (length q) q (omega arith)
        ∙ sym (take_of_le count q (omega (arith, ltb→lt (length q) count all))))
    | inr some_left ↦ rw some_left refl
  ]

  drop-got : (q : List A) (count : ℕ) → drop (got (length q) count) q ≡ drop count q
  drop-got q count = elim (Bool-cases (ltb (length q) count)) [
    | inl all ↦ rw all (
        drop_of_le (length q) q (omega arith)
        ∙ sym (drop_of_le count q (omega (arith, ltb→lt (length q) count all))))
    | inr some_left ↦ rw some_left refl
  ]

  get_iq_samples-taken :
      (b : SampleBuffer A) (count : ℕ)
      → IsSampleRing b
      → (get_iq_samples silence b count).0 ≡ take count (waiting b)
  unfolding get_iq_samples
  get_iq_samples-taken b count r =
      let start = b.buffer_head + b.buffer_size - b.buffer_count in
      slots_mod silence b.iq_buffer b.buffer_size (start % b.buffer_size) start
        (got b.buffer_count count) (mod-eq_of_lt (mod-lt start (omega (arith, r.inside))))
      ∙ slots-take silence b.iq_buffer b.buffer_size start b.buffer_count (got b.buffer_count count)
          (got-fits b.buffer_count count)
      ∙ ap (λ n. take (got n count) (waiting b)) (sym (waiting-long b))
      ∙ take-got (waiting b) count

  get_iq_samples-left :
      (b : SampleBuffer A) (count : ℕ)
      → IsSampleRing b
      → waiting (get_iq_samples silence b count).1 ≡ drop count (waiting b)
  unfolding get_iq_samples
  get_iq_samples-left b count r =
      let start = b.buffer_head + b.buffer_size - b.buffer_count in
      let n = got b.buffer_count count in
      let fits = got-fits b.buffer_count count in
      ap (λ s. slots silence b.iq_buffer b.buffer_size s (b.buffer_count - n))
        {x = b.buffer_head + b.buffer_size - (b.buffer_count - n)} {y = start + n}
        (omega (arith, r.count_fits, fits))
      ∙ sym (slots-drop b.iq_buffer b.buffer_size start b.buffer_count n fits)
      ∙ ap (λ m. drop (got m count) (waiting b)) (sym (waiting-long b))
      ∙ drop-got (waiting b) count

  get_iq_samples-IsSampleRing :
      (b : SampleBuffer A) (count : ℕ)
      → IsSampleRing b
      → IsSampleRing (get_iq_samples silence b count).1
  unfolding get_iq_samples
  get_iq_samples-IsSampleRing b count r = record {
    size = r.size;
    inside = r.inside;
    count_fits = omega (arith, r.count_fits);
  }

  -- The ring does what a queue does that forgets its oldest sample when it is full. A sample that comes goes
  -- behind those that wait, of which the oldest is given up where there is no room; of those that wait, as
  -- many as are asked for are handed over, oldest first, and the rest goes on waiting; the indices stay
  -- inside the ring.
  pub sample_ring_lem :
      (b : SampleBuffer A) (x : A) (count : ℕ)
      → IsSampleRing b
      → (IsSampleRing (push_sample b x)
          × (waiting (push_sample b x) ≡ queue_push b.buffer_size (waiting b) x))
        × (let (samples, b') = get_iq_samples silence b count in
            (samples ≡ take count (waiting b))
            × (waiting b' ≡ drop count (waiting b))
            × IsSampleRing b')
  sample_ring_lem b x count r = (
    (push_sample-IsSampleRing b x r, push_sample-waiting b x r),
    (
      get_iq_samples-taken b count r,
      get_iq_samples-left b count r,
      get_iq_samples-IsSampleRing b count r,
    ),
  )
