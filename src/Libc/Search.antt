-- ===== src/Libc/Search.antt =====
-- <string.h>: `strchr`, `strstr` and `strncpy`, on strings as lists of bytes.
use cw_skimmer.Prelude.{
  ℕ, ◌-◌, ◌≡◌, Bool, true, false, ◌&&◌, [], ◌∷◌, ◌++◌, Option, none, some, arith, take, ◌==◌,
  if◌then◌else◌,
}
use cw_skimmer.Prelude.Bytes.{Bytes}

-- `strchr(s, c)`: the rest of `s` from the first `c` on
unfoldable pub strchr : Bytes → ℕ → Option Bytes
strchr [] c = none
strchr (x ∷ s) c = if x == c then some (x ∷ s) else strchr s c

-- what stands before that `c`; the whole string if there is none
unfoldable pub before_chr : Bytes → ℕ → Bytes
before_chr [] c = []
before_chr (x ∷ s) c = if x == c then [] else x ∷ before_chr s c

-- `strncmp(s, p, strlen(p)) == 0`
unfoldable pub has_prefix : Bytes → Bytes → Bool
has_prefix s [] = true
has_prefix [] (c ∷ p) = false
has_prefix (x ∷ s) (c ∷ p) = x == c && has_prefix s p

-- `strstr(s, p)`: the rest of `s` from the first occurrence of `p` on
unfoldable pub strstr : Bytes → Bytes → Option Bytes
unfolding has_prefix
strstr [] p = if has_prefix [] p then some [] else none
strstr (x ∷ s) p = if has_prefix (x ∷ s) p then some (x ∷ s) else strstr s p

-- `strncpy(dst, src, size - 1); dst[size - 1] = '\0';`
abbrev pub copy_bounded : ℕ → Bytes → Bytes
copy_bounded size s = take (size - 1) s

-- Where `strchr` finds the byte, the string is what stands before it, and the rest.
pub before_chr-append :
    (s : Bytes) (c : ℕ) {r : Bytes} → strchr s c ≡ some r → before_chr s c ++ r ≡ s
unfolding strchr before_chr
before_chr-append [] c h = ground arith
before_chr-append (x ∷ s) c {r} h = ground (arith, before_chr-append s c {r = r})
