-- ===== src/Libc/Floats.antt =====
-- `float` and <math.h>: the type and its operations are a parameter of the code that computes with them.
use cw_skimmer.Prelude.{ℕ, Bool, List}
use cw_skimmer.Prelude.Int.{ℤ}

pub record Floats (F : Type 0) : Type 0 where
  -- an `int` as a float, and the constant `m / 10 ^ k`
  pub of_int : ℤ → F
  pub dec : ℕ → ℕ → F
  pub add : F → F → F
  pub sub : F → F → F
  pub mul : F → F → F
  pub div : F → F → F
  pub less : F → F → Bool
  -- the cast to `int`, and `lroundf`
  pub to_int : F → ℤ
  pub lround : F → ℤ
  pub tan : F → F
  pub cos : F → F
  pub sin : F → F
  pub sqrt : F → F
  pub abs : F → F
  pub pi : F
  -- `qsort` by the order of floats
  pub sort : List F → List F
