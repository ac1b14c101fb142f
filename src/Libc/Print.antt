-- ===== src/Libc/Print.antt =====
-- The `%d`, `%lld` and `%03d` conversions, and the truncation of `snprintf`.
use native.Mathlib.Nat.{pow-suc}
use cw_skimmer.Prelude.{
  ℕ, zero, suc, ◌+◌, ◌-◌, ◌/◌, ◌%◌, ◌^◌, ◌≤◌, ◌<◌, refl, Bool, [], ◌∷◌, ◌++◌, arith, length,
  length-append, take, replicate, ltb, leb, ◌==◌, ◌&&◌, ◌||◌, inl, inr, Bool-cases, if◌then◌else◌,
}
use cw_skimmer.Prelude.Bytes.{Bytes, AllTrue, AllTrue-append}
use cw_skimmer.Prelude.Int.{ℤ, pos, negsuc}

-- The digits of `n`, with fuel for the divisions; a `long long` has at most 19 digits.
unfoldable pub digits : ℕ → ℕ → Bytes
digits zero n = []
digits (suc f) n =
    let front = digits f (n / 10) in
    if ltb n 10 then (b'0' + n) ∷ [] else front ++ (b'0' + n % 10) ∷ []

unfoldable pub show_nat : ℕ → Bytes
unfolding digits
show_nat n = digits 20 n

-- `%d` and `%lld`
unfoldable pub show_int : ℤ → Bytes
unfolding show_nat
show_int (pos n) = show_nat n
show_int (negsuc n) = b'-' ∷ show_nat (n + 1)

-- `%03d`, for the numbers that the program prints with it, which are not negative
unfoldable pub show_3 : ℕ → Bytes
show_3 n = (b'0' + n / 100 % 10) ∷ (b'0' + n / 10 % 10) ∷ (b'0' + n % 10) ∷ []

-- `%0wd`, for a number that is not negative
unfoldable pub show_padded : ℕ → ℕ → Bytes
unfolding show_nat
show_padded w n = replicate (w - length (show_nat n)) b'0' ++ show_nat n

-- What `snprintf(buf, size, …)` leaves in `buf`.
abbrev pub snprintf : ℕ → Bytes → Bytes
snprintf size s = take (size - 1) s

-- A number below `10 ^ k` has at most `k` digits.
length-digits : (f k n : ℕ) → n < 10 ^ suc k → length (digits f n) ≤ suc k
unfolding digits
length-digits zero k n h = omega arith
length-digits (suc f) zero n h = ground arith
length-digits (suc f) (suc k) n h = ground (
  arith,
  length-append (digits f (n / 10)) ((b'0' + n % 10) ∷ []),
  length-digits f k (n / 10) (omega (arith, pow-suc 10 (suc k))),
)

pub length-show_nat : (k n : ℕ) → n < 10 ^ suc k → length (show_nat n) ≤ suc k
unfolding show_nat
length-show_nat = length-digits 20

-- A digit, or the sign.
abbrev pub is_numeral : ℕ → Bool
is_numeral c = c == b'-' || (leb b'0' c && leb c b'9')

AllTrue-digits : (f n : ℕ) → AllTrue is_numeral (digits f n)
unfolding digits
AllTrue-digits zero n = tt
AllTrue-digits (suc f) n = elim (Bool-cases (ltb n 10)) [
  | inl small ↦ rw small (ground arith, tt)
  | inr large ↦ rw large (
      AllTrue-append is_numeral (digits f (n / 10)) _ (AllTrue-digits f (n / 10))
        (ground arith, tt))
]

-- `%d` prints digits, after a sign where the number is negative.
pub AllTrue-show_int : (i : ℤ) → AllTrue is_numeral (show_int i)
unfolding show_int
AllTrue-show_int (pos n) = AllTrue-digits 20 n
AllTrue-show_int (negsuc n) = (refl, AllTrue-digits 20 (n + 1))
