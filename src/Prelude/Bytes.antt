-- ===== src/Prelude/Bytes.antt =====
-- C strings: a `char *` is the list of its bytes before the terminating NUL.
use Prim.Native.Char.{code}
use Prim.Native.String.{String}
use cw_skimmer.Prelude.Tests.{◌==◌, leb, if◌then◌else◌}
use cw_skimmer.Prelude.Lists.{take}
use Prim.Native.Nat.{ℕ, zero, suc, ◌+◌}
use mathlib.Core.Path.{◌≡◌}
use mathlib.Core.Logic.{◌↔◌}
use mathlib.Core.Bool.{Bool, true, false, ◌&&◌}
use mathlib.Core.List.{List, [], ◌∷◌, ◌++◌}
use native.Mathlib.Omega.{arith}

abbrev pub Bytes : Type 0
Bytes = List ℕ

-- The code points of a literal; these are its bytes, since every literal is ASCII.
abbrev pub codes : String → Bytes
codes String.[] = []
codes (String.◌∷◌ c s) = code c ∷ codes s

-- `strcmp(a, b) == 0`
unfoldable pub str_eq : Bytes → Bytes → Bool
str_eq [] [] = true
str_eq (x ∷ a) (y ∷ b) = x == y && str_eq a b
str_eq _ _ = false

pub str_eq_iff : (a b : Bytes) → (str_eq a b ≡ true) ↔ (a ≡ b)
unfolding str_eq
str_eq_iff (x ∷ a) (y ∷ b) = ground (arith, str_eq_iff a b)
str_eq_iff _ _ = ground arith

-- `tolower` on ASCII, as `strcasecmp` compares
unfoldable pub to_lower : ℕ → ℕ
to_lower c = if leb b'A' c && leb c b'Z' then c + 32 else c

-- `strcasecmp(a, b) == 0`
unfoldable pub str_case_eq : Bytes → Bytes → Bool
unfolding to_lower
str_case_eq [] [] = true
str_case_eq (x ∷ a) (y ∷ b) = to_lower x == to_lower y && str_case_eq a b
str_case_eq _ _ = false

-- Every item passes a Boolean test.
module _ {ℓ} {A : Type ℓ} where
  abbrev pub AllTrue : (A → Bool) → List A → Type 0
  AllTrue p [] = Unit
  AllTrue p (x ∷ xs) = (p x ≡ true) × AllTrue p xs

  pub AllTrue-append :
      (p : A → Bool) (xs ys : List A) → AllTrue p xs → AllTrue p ys → AllTrue p (xs ++ ys)
  AllTrue-append p [] ys hx hy = hy
  AllTrue-append p (x ∷ xs) ys hx hy = (hx.0, AllTrue-append p xs ys hx.1 hy)

  pub AllTrue-take : (p : A → Bool) (n : ℕ) (xs : List A) → AllTrue p xs → AllTrue p (take n xs)
  AllTrue-take p zero xs h = tt
  AllTrue-take p (suc n) [] h = tt
  AllTrue-take p (suc n) (x ∷ xs) h = (h.0, AllTrue-take p n xs h.1)
