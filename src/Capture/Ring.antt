-- ===== src/Capture/Ring.antt =====
-- What the ring of cw-skimmer/src/cw_capture.c holds and hands over.
use cw_skimmer.Prelude.{
  ℕ, zero, suc, ◌+◌, ◌-◌, ◌%◌, ◌≤◌, ◌<◌, ◌≡◌, sym, ap, ◌∙◌, subst, ◌⊎◌, inl, inr, true, false, List,
  [], ◌∷◌, ◌++◌, append_assoc, append-nil, arith, length, length-set, drop, set, ltb, leb, leb→le,
  ltb→lt, Bool-cases, if◌then◌else◌,
}
use cw_skimmer.Prelude.Slots.{slots, length-slots, slots-set_end, slots_mod}
use native.Mathlib.Nat.{mod-eq_of_lt, add-mod_right}
use cw_skimmer.Capture.{CaptureRing, write_one, write}

module _ {A : Type 0} (silence : A) where
  -- the samples held, oldest first
  abbrev pub held : CaptureRing A → List A
  held ring =
      slots silence ring.samples ring.capacity (ring.write_pos + ring.capacity - ring.count)
        ring.count

  -- The ring holds the end of everything written: all of it, or as much as there is room for.
  pub record IsRing (ring : CaptureRing A) (all : List A) : Type 0 where
    pub size : length ring.samples ≡ ring.capacity
    pub inside : ring.write_pos < ring.capacity
    pub count_fits : ring.count ≤ ring.capacity
    pub gone : List A
    pub end_of : all ≡ gone ++ held ring
    pub kept : (gone ≡ []) ⊎ (ring.count ≡ ring.capacity)

  abbrev pub next_pos : ℕ → ℕ → ℕ
  next_pos cap wp = if leb cap (wp + 1) then 0 else wp + 1

  abbrev pub held_at : List A → ℕ → ℕ → ℕ → List A
  held_at buf cap wp n = slots silence buf cap (wp + cap - n) n

  -- the place behind the next one, from the ring's end on again
  next_pos-mod :
      (cap wp n : ℕ)
      → n ≤ wp + cap
      → wp < cap
      → n < cap
      → (next_pos cap wp + cap - (n + 1)) % cap ≡ (wp + cap - n) % cap
  next_pos-mod cap wp n h h' h'' = elim (Bool-cases (leb cap (wp + 1))) [
    | inl turns ↦ rw turns (
        ap (λ t. t % cap) {y = cap - (n + 1)} (omega arith)
        ∙ sym (add-mod_right (cap - (n + 1)) cap)
        ∙ ap (λ t. t % cap) (omega (arith, leb→le cap (wp + 1) turns)))
    | inr goes_on ↦ rw goes_on (ap (λ t. t % cap) (omega arith))
  ]

  next_pos-mod_full : (cap wp : ℕ) → wp < cap → (next_pos cap wp + cap - cap) % cap ≡ (wp + 1) % cap
  next_pos-mod_full cap wp h = elim (Bool-cases (leb cap (wp + 1))) [
    | inl turns ↦ rw turns (
        ap (λ t. t % cap) (omega arith)
        ∙ sym (add-mod_right 0 cap)
        ∙ ap (λ t. t % cap) (omega (arith, leb→le cap (wp + 1) turns)))
    | inr goes_on ↦ rw goes_on (ap (λ t. t % cap) (omega arith))
  ]

  around : (cap wp i : ℕ) → wp < cap → i ≡ wp + cap → wp ≡ i % cap
  around cap wp i h e = sym (ap (λ t. t % cap) e ∙ add-mod_right wp cap ∙ mod-eq_of_lt h)

  pub held_at-room :
      (buf : List A) (cap wp n : ℕ) (x : A)
      → length buf ≡ cap
      → wp < cap
      → n < cap
      → held_at (set buf wp x) cap (next_pos cap wp) (n + 1) ≡ held_at buf cap wp n ++ x ∷ []
  held_at-room buf cap wp n x size h h' =
      slots_mod silence (set buf wp x) cap (next_pos cap wp + cap - (n + 1)) (wp + cap - n) (n + 1)
        (next_pos-mod cap wp n (omega arith) h h')
      ∙ ap (slots silence (set buf wp x) cap (wp + cap - n)) {x = n + 1} {y = suc n} (omega arith)
      ∙ slots-set_end silence buf cap (wp + cap - n) n wp x h' (omega arith)
          (around cap wp _ h (omega arith))

  pub held_at-full :
      (buf : List A) (m wp : ℕ) (x : A)
      → length buf ≡ suc m
      → wp < suc m
      → held_at (set buf wp x) (suc m) (next_pos (suc m) wp) (suc m)
        ≡ drop 1 (held_at buf (suc m) wp (suc m)) ++ x ∷ []
  held_at-full buf m wp x size h =
      slots_mod silence (set buf wp x) (suc m) (next_pos (suc m) wp + suc m - suc m) (wp + 1)
        (suc m) (next_pos-mod_full (suc m) wp h)
      ∙ slots-set_end silence buf (suc m) (wp + 1) m wp x (omega arith) (omega arith)
          (around (suc m) wp _ h (omega arith))
      ∙ ap (λ s. slots silence buf (suc m) s m ++ x ∷ []) {x = wp + 1} {y = wp + suc m - suc m + 1}
          (omega arith)

  pub next_pos-inside : (cap wp : ℕ) → wp < cap → next_pos cap wp < cap
  next_pos-inside cap wp h = elim (Bool-cases (leb cap (wp + 1))) [
    | inl turns ↦ rw turns (omega arith)
    | inr goes_on ↦ rw goes_on (less (wp + 1) goes_on)
  ]
    where
      less : (n : ℕ) → leb cap n ≡ false → n < cap
      less n e = ground arith

  -- the end of a longer list
  end-append :
      (all gone xs : List A) (x : A) → all ≡ gone ++ xs → all ++ x ∷ [] ≡ gone ++ (xs ++ x ∷ [])
  end-append all gone xs x e = ap (λ s. s ++ x ∷ []) e ∙ append_assoc gone xs (x ∷ [])

  end-drop :
      (all gone xs : List A) (x : A)
      → all ≡ gone ++ xs
      → 1 ≤ length xs
      → (gone' : List A) × (all ++ x ∷ [] ≡ gone' ++ (drop 1 xs ++ x ∷ []))
  end-drop all gone [] x e h = absurd (omega arith)
  end-drop all gone (y ∷ xs) x e h = (
    gone ++ y ∷ [],
    end-append all gone (y ∷ xs) x e ∙ sym (append_assoc gone (y ∷ []) (xs ++ x ∷ [])),
  )

  write_one-room :
      (ring : CaptureRing A) (x : A) (all : List A)
      → IsRing ring all
      → ltb ring.count ring.capacity ≡ true
      → IsRing (write_one silence ring x) (all ++ x ∷ [])
  unfolding write_one
  write_one-room ring x all r room = rw room (record {
    size = length-set ring.samples ring.write_pos x ∙ r.size;
    inside = next_pos-inside ring.capacity ring.write_pos r.inside;
    count_fits = omega (arith, ltb→lt ring.count ring.capacity room);
    gone = r.gone;
    end_of =
        end-append all r.gone (held ring) x r.end_of
        ∙ ap (◌++◌ r.gone) (
            sym (
              held_at-room ring.samples ring.capacity ring.write_pos ring.count x r.size r.inside
                (ltb→lt ring.count ring.capacity room)));
    kept = elim r.kept [
      | inl whole ↦ inl whole
      | inr full ↦ absurd (omega (arith, ltb→lt ring.count ring.capacity room))
    ];
  })

  write_one-full :
      (ring : CaptureRing A) (x : A) (all : List A)
      → IsRing ring all
      → ltb ring.count ring.capacity ≡ false
      → IsRing (write_one silence ring x) (all ++ x ∷ [])
  unfolding write_one
  write_one-full ring x all r full =
      let e : ring.count ≡ ring.capacity =
        omega (arith, r.count_fits, not_less ring.count ring.capacity full) in
      let (gone', e') = end-drop all r.gone (held ring) x r.end_of (
        omega (
          arith,
          r.inside,
          length-slots silence ring.samples ring.capacity
              (ring.write_pos + ring.capacity - ring.count) ring.count,
        )) in
      rw full (record {
        size = length-set ring.samples ring.write_pos x ∙ r.size;
        inside = next_pos-inside ring.capacity ring.write_pos r.inside;
        count_fits = r.count_fits;
        gone = gone';
        end_of =
            e'
            ∙ ap (◌++◌ gone') (
                sym (
                  held_full ring.samples ring.capacity ring.write_pos ring.count x r.size r.inside
                    e));
        kept = inr e;
      })
    where
      not_less : (m n : ℕ) → ltb m n ≡ false → n ≤ m
      not_less m n h = ground arith

      held_full :
          (buf : List A) (cap wp n : ℕ) (y : A)
          → length buf ≡ cap
          → wp < cap
          → n ≡ cap
          → held_at (set buf wp y) cap (next_pos cap wp) n ≡ drop 1 (held_at buf cap wp n) ++ y ∷ []
      held_full buf zero wp n y size h h' = absurd (omega arith)
      held_full buf (suc m) wp n y size h h' = rw h' (held_at-full buf m wp y size h)

  pub write-IsRing :
      (ring : CaptureRing A) (xs all : List A)
      → IsRing ring all
      → IsRing (write silence ring xs) (all ++ xs)
  unfolding write
  write-IsRing ring [] all r = subst (IsRing ring) (sym (append-nil all)) r
  write-IsRing ring (x ∷ xs) all r =
      subst (IsRing (write silence (write_one silence ring x) xs)) (append_assoc all (x ∷ []) xs) (
        write-IsRing (write_one silence ring x) xs (all ++ x ∷ [])
          (elim (Bool-cases (ltb ring.count ring.capacity)) [
            | inl room ↦ write_one-room ring x all r room
            | inr full ↦ write_one-full ring x all r full
          ]))
