-- ===== src/Prelude/Slots.antt =====
-- Arrays with an index that goes round, `buf[(start + i) % cap]`: the one shape of every queue and
-- ring of the program.
use Prim.Native.Nat.{ℕ, zero, suc, ◌+◌, ◌-◌, ◌%◌, ◌≤◌, ◌<◌}
use mathlib.Core.Path.{◌≡◌, refl, sym, ap, ap₂, ◌∙◌}
use mathlib.Core.Logic.{◌≢◌}
use mathlib.Core.List.{List, [], ◌∷◌, ◌++◌}
use native.Mathlib.Nat.{mod-add-mod, mod-eq_of_lt, mod-eq-sub-mod}
use native.Mathlib.Decide.{dec_lt}
use native.Mathlib.Omega.{arith}
use cw_skimmer.Prelude.Lists.{length, get_or, set, get_or-set_self, get_or-set_ne}

-- Two offsets less than `size` apart fall on different slots.
near-mod-ne : {size h d : ℕ} → h < size → suc d < size → (h + suc d) % size ≢ h
near-mod-ne {size} {h} {d} hh hd = elim (dec_lt (h + suc d) size) [
  | yes p ↦ omega (arith, mod-eq_of_lt p)
  | no p ↦ omega (
    arith,
    mod-eq-sub-mod {n = h + suc d} {m = size} (omega arith),
    mod-eq_of_lt {n = h + suc d - size} {m = size} (omega arith),
  )
]

pub mod-ne : (size s d : ℕ) → suc d < size → (s + suc d) % size ≢ s % size
mod-ne size s d hd e =
    near-mod-ne {size = size} {h = s % size} {d = d} (omega arith) hd
      (mod-add-mod s size (suc d) ∙ e)

module _ {ℓ} {A : Type ℓ} (d : A) where
  -- the `n` items from `start` on; `d` stands for a read out of range
  abbrev pub slots : List A → ℕ → ℕ → ℕ → List A
  slots buf size start zero = []
  slots buf size start (suc n) = get_or buf (start % size) d ∷ slots buf size (start + 1) n

  pub length-slots : (buf : List A) (size s n : ℕ) → length (slots buf size s n) ≡ n
  length-slots buf size s zero = refl
  length-slots buf size s (suc n) = ap suc (length-slots buf size (s + 1) n)

  -- A write `k` slots behind the window leaves the window alone.
  pub slots-set_out :
      (buf : List A) (size s n k i : ℕ) (x : A)
      → n + k < size
      → i ≡ (s + n + k) % size
      → slots (set buf i x) size s n ≡ slots buf size s n
  slots-set_out buf size s zero k i x h e = refl
  slots-set_out buf size s (suc n) k i x h e =
      ap₂ ◌∷◌ (get_or-set_ne buf i (s % size) x d apart) (
        slots-set_out buf size (s + 1) n k i x (omega arith) (e ∙ ap (λ t. t % size) (omega arith)))
    where
      apart : i ≢ s % size
      apart e' = mod-ne size s (n + k) (omega arith) (ap (λ t. t % size) (omega arith) ∙ sym e ∙ e')

  -- The window grows at its end by what stands there.
  pub slots-suc :
      (buf : List A) (size s n : ℕ)
      → slots buf size s (suc n) ≡ slots buf size s n ++ get_or buf ((s + n) % size) d ∷ []
  slots-suc buf size s zero = ap (λ t. get_or buf (t % size) d ∷ []) (omega arith)
  slots-suc buf size s (suc n) = ap (◌∷◌ (get_or buf (s % size) d)) (
      slots-suc buf size (s + 1) n
      ∙ ap (λ t. slots buf size (s + 1) n ++ get_or buf (t % size) d ∷ []) (omega arith))

  -- Writing just behind a window that does not fill the array appends the item.
  pub slots-set_end :
      (buf : List A) (size s n i : ℕ) (x : A)
      → n < size
      → size ≤ length buf
      → i ≡ (s + n) % size
      → slots (set buf i x) size s (suc n) ≡ slots buf size s n ++ x ∷ []
  slots-set_end buf size s n i x h hs e =
      slots-suc (set buf i x) size s n
      ∙ ap₂ (λ xs y. xs ++ y ∷ [])
          (slots-set_out buf size s n 0 i x (omega arith) (e ∙ ap (λ t. t % size) (omega arith)))
          (rw (← e) (get_or-set_self buf i x d (rw e (omega arith))))

  -- The window depends on its start only up to the size of the array.
  pub slots_mod :
      (buf : List A) (size s t n : ℕ)
      → s % size ≡ t % size
      → slots buf size s n ≡ slots buf size t n
  slots_mod buf size s t zero e = refl
  slots_mod buf size s t (suc n) e =
      ap₂ ◌∷◌ (ap (λ i. get_or buf i d) e) (slots_mod buf size (s + 1) (t + 1) n next)
    where
      next : (s + 1) % size ≡ (t + 1) % size
      next = sym (mod-add-mod s size 1) ∙ ap (λ i. (i + 1) % size) e ∙ mod-add-mod t size 1
