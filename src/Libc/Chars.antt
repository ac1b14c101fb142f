-- ===== src/Libc/Chars.antt =====
-- <ctype.h> in the C locale.
use cw_skimmer.Prelude.{ℕ, ◌-◌, ◌≡◌, Bool, true, false, ◌&&◌, ◌||◌, arith, leb, if◌then◌else◌}

abbrev pub within : ℕ → ℕ → ℕ → Bool
within lo hi c = leb lo c && leb c hi

unfoldable pub to_upper : ℕ → ℕ
to_upper c = if within b'a' b'z' c then c - 32 else c

unfoldable pub is_digit : ℕ → Bool
is_digit c = within b'0' b'9' c

unfoldable pub is_alpha : ℕ → Bool
is_alpha c = within b'A' b'Z' c || within b'a' b'z' c

pub to_upper_idem : (c : ℕ) → to_upper (to_upper c) ≡ to_upper c
unfolding to_upper
to_upper_idem c = ground arith

-- A letter is no digit.
pub is_alpha-is_digit : (c : ℕ) → is_digit c ≡ true → is_alpha c ≡ false
unfolding is_alpha is_digit
is_alpha-is_digit c h = ground arith
