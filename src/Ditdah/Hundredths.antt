-- ===== src/Ditdah/Hundredths.antt =====
-- Floats that the runs of cw-skimmer/src/ditdah_decoder.c count with.
use cw_skimmer.Prelude.{ℕ, zero, suc, ◌+◌, ◌-◌, ◌*◌, ◌/◌, ltb}
use cw_skimmer.Prelude.Int.{pos, pos_part}
use cw_skimmer.Libc.Floats.{Floats}

-- floats that are not negative, in hundredths
abbrev power_of_ten : ℕ → ℕ
power_of_ten zero = 1
power_of_ten (suc k) = 10 * power_of_ten k

abbrev pub hundredths : Floats ℕ
hundredths = record {
  of_int = λ n. 100 * pos_part n;
  dec = λ m k. 100 * m / power_of_ten k;
  add = λ x y. x + y;
  sub = λ x y. x - y;
  mul = λ x y. x * y / 100;
  div = λ x y. 100 * x / y;
  less = λ x y. ltb x y;
  to_int = λ x. pos (x / 100);
  lround = λ x. pos ((x + 50) / 100);
  tan = λ x. x;
  cos = λ x. 100;
  sin = λ x. x;
  sqrt = λ x. x;
  abs = λ x. x;
  pi = 314;
  sort = λ xs. xs;
}
