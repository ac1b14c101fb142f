-- ===== src/Radio/Text/Sanitize.antt =====
-- What `radio_control_sanitize_cw` of cw-skimmer/src/radio_control.c leaves of a text.
use cw_skimmer.Prelude.{
  ℕ, zero, suc, ◌+◌, ◌-◌, ◌≤◌, ◌≡◌, refl, ap, ◌∙◌, true, [], ◌∷◌, some, arith, length, take, inl,
  inr, Bool-cases, if◌then◌else◌,
}
use cw_skimmer.Prelude.Int.{pos}
use cw_skimmer.Prelude.Bytes.{Bytes, AllTrue}
use cw_skimmer.Libc.Chars.{to_upper}
use cw_skimmer.Radio.Text.{is_cw, sanitize_from, sanitize_cw}

-- The independent description: upper case, then only what the keyer can send.
abbrev pub keyable : Bytes → Bytes
keyable [] = []
keyable (c ∷ s) = if is_cw (to_upper c) then to_upper c ∷ keyable s else keyable s

pub sanitize_from-take : (s : Bytes) (room : ℕ) → sanitize_from s room ≡ take room (keyable s)
unfolding sanitize_from
sanitize_from-take [] zero = refl
sanitize_from-take [] (suc room) = refl
sanitize_from-take (c ∷ s) zero = refl
sanitize_from-take (c ∷ s) (suc room) =
    ground (arith, sanitize_from-take s room, sanitize_from-take s (suc room))

pub length-sanitize_from : (s : Bytes) (room : ℕ) → length (sanitize_from s room) ≤ room
unfolding sanitize_from
length-sanitize_from [] room = omega arith
length-sanitize_from (c ∷ s) zero = omega arith
length-sanitize_from (c ∷ s) (suc room) =
    ground (arith, length-sanitize_from s room, length-sanitize_from s (suc room))

pub AllTrue-sanitize_from : (s : Bytes) (room : ℕ) → AllTrue is_cw (sanitize_from s room)
unfolding sanitize_from
AllTrue-sanitize_from [] room = tt
AllTrue-sanitize_from (c ∷ s) zero = tt
AllTrue-sanitize_from (c ∷ s) (suc room) = elim (Bool-cases (is_cw (to_upper c))) [
  | inl good ↦ rw (good, sanitize_from) (good, AllTrue-sanitize_from s room)
  | inr bad ↦ rw (bad, sanitize_from) (AllTrue-sanitize_from s (suc room))
]

is_cw-to_upper : (c : ℕ) → is_cw c ≡ true → to_upper c ≡ c
unfolding is_cw to_upper
is_cw-to_upper c h = ground arith

sanitize_from_fixed :
    (s : Bytes) (room : ℕ) → AllTrue is_cw s → length s ≤ room → sanitize_from s room ≡ s
unfolding sanitize_from
sanitize_from_fixed [] room h l = refl
sanitize_from_fixed (c ∷ s) zero h l = absurd (omega arith)
sanitize_from_fixed (c ∷ s) (suc room) h l =
    ground (arith, is_cw-to_upper c h.0, sanitize_from_fixed s room h.1)

-- The function, on the arguments that it works on: a string, a buffer of at least two bytes.
pub sanitize_cw-some :
    (s out : Bytes) (out_max : ℕ)
    → 2 ≤ out_max
    → sanitize_cw (some s) (some out) (pos out_max)
      ≡ (pos (length (sanitize_from s (out_max - 1))), some (sanitize_from s (out_max - 1)))
unfolding sanitize_cw
sanitize_cw-some s out out_max h = ground arith

-- Into a buffer of at least two bytes the sanitizer writes the first `out_max - 1` bytes of the text
-- in upper case less what the keyer cannot send, and returns the length of what it wrote, so that
-- the terminating NUL fits; every byte written is one that the keyer can send; and sanitizing what
-- was written, into a buffer of the same size, changes nothing.
pub sanitize_cw_lem :
    (s out : Bytes) (out_max : ℕ)
    → 2 ≤ out_max
    → let clean = take (out_max - 1) (keyable s) in
      (sanitize_cw (some s) (some out) (pos out_max) ≡ (pos (length clean), some clean))
      × (length clean + 1 ≤ out_max)
      × AllTrue is_cw clean
      × (sanitize_cw (some clean) (some out) (pos out_max) ≡ (pos (length clean), some clean))
sanitize_cw_lem s out out_max h = rw (← sanitize_from-take s (out_max - 1)) (
  sanitize_cw-some s out out_max h,
  omega (arith, length-sanitize_from s (out_max - 1)),
  AllTrue-sanitize_from s (out_max - 1),
  sanitize_cw-some _ out out_max h
      ∙ ap (λ t. (pos (length t), some t))
          (sanitize_from_fixed (sanitize_from s (out_max - 1)) (out_max - 1)
            (AllTrue-sanitize_from s (out_max - 1)) (length-sanitize_from s (out_max - 1))),
)
