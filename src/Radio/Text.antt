-- ===== src/Radio/Text.antt =====
-- The pure text functions of cw-skimmer/src/radio_control.c.
-- A pointer argument is an `Option`, `none` for NULL; an `out` buffer is given with the string that
-- it holds, and comes back beside the `int` that the function returns.
pub mod Sanitize
pub mod Commands
pub mod Chunks
use cw_skimmer.Prelude.{
  ℕ, zero, suc, ◌+◌, ◌-◌, Bool, true, false, ◌&&◌, ◌||◌, List, [], ◌∷◌, ◌++◌, Option, none, some,
  take, drop, length, ltb, leb, ◌==◌, if◌then◌else◌,
}
use cw_skimmer.Prelude.Int.{ℤ, pos, negsuc, pos_part, ltb_ℤ, ◌+ℤ◌}
use cw_skimmer.Prelude.Bytes.{Bytes, codes}
use cw_skimmer.Libc.Chars.{within, to_upper}
use cw_skimmer.Libc.Search.{strstr}
use cw_skimmer.Libc.Print.{show_int, show_nat, show_3, snprintf}

-- RC_TEXT, RC_BACKLOG and KY_CHUNK
abbrev pub text_size : ℕ
text_size = 360

abbrev pub backlog_size : ℕ
backlog_size = 1024

abbrev pub chunk_size : ℕ
chunk_size = 24

unfoldable pub clamp_wpm : ℤ → ℤ
clamp_wpm wpm = if ltb_ℤ wpm (pos 5) then pos 5 else if ltb_ℤ (pos 60) wpm then pos 60 else wpm

-- what the radio's keyer can send, after the letters are made upper case
unfoldable pub is_cw : ℕ → Bool
is_cw c =
    within b'A' b'Z' c
    || within b'0' b'9' c
    || c == b' '
    || c == b'.'
    || c == b','
    || c == b'?'
    || c == b'/'
    || c == b'-'
    || c == b'='
    || c == b'+'

-- The loop, with room for `room` more bytes (`out_max - 1 - j`).
unfoldable pub sanitize_from : Bytes → ℕ → Bytes
sanitize_from [] room = []
sanitize_from (c ∷ s) zero = []
sanitize_from (c ∷ s) (suc room) = elim (is_cw (to_upper c)) [
  | true ↦ to_upper c ∷ sanitize_from s room
  | false ↦ sanitize_from s (suc room)
]

unfoldable pub sanitize_cw : Option Bytes → Option Bytes → ℤ → ℤ × Option Bytes
unfolding sanitize_from
sanitize_cw input none out_max = (negsuc 0, none)
sanitize_cw none (some out) out_max =
    if ltb_ℤ out_max (pos 2) then (negsuc 0, some out) else (pos 0, some [])
sanitize_cw (some s) (some out) out_max =
    let clean = sanitize_from s (pos_part out_max - 1) in
    if ltb_ℤ out_max (pos 2) then (negsuc 0, some out) else (pos (length clean), some clean)

-- `if (rx < 0) rx = 0;`
abbrev pub receiver : ℤ → ℤ
receiver rx = if ltb_ℤ rx (pos 0) then pos 0 else rx

-- the range of `long long hz` that is taken for a frequency
unfoldable pub is_frequency : ℤ → Bool
is_frequency hz = if ltb_ℤ hz (pos 100_000) || ltb_ℤ (pos 6_000_000_000) hz then false else true

unfoldable pub dds_text : ℤ → ℤ → Bytes
dds_text rx hz = codes "dds:" ++ (show_int rx ++ (b',' ∷ (show_int hz ++ (b';' ∷ []))))

unfoldable pub vfo_text : ℤ → ℤ → Bytes
vfo_text rx hz = codes "vfo:" ++ (show_int rx ++ (codes ",0," ++ (show_int hz ++ (b';' ∷ []))))

-- returns the result and the strings in `dds` and `vfo`
unfoldable pub format_tune :
    ℤ → ℤ → Option Bytes → ℕ → Option Bytes → ℕ → ℤ × Option Bytes × Option Bytes
unfolding is_frequency
format_tune rx hz (some dds) dds_max (some vfo) vfo_max =
    if is_frequency hz
    then (if ltb dds_max 32 || ltb vfo_max 40 then (negsuc 0, some dds, some vfo) else (
      pos 0,
      some (snprintf dds_max (dds_text (receiver rx) hz)),
      some (snprintf vfo_max (vfo_text (receiver rx) hz)),
    ))
    else (negsuc 0, some dds, some vfo)
format_tune rx hz dds dds_max vfo vfo_max = (negsuc 0, dds, vfo)

unfoldable pub macro_text : ℤ → Bytes → Bytes
macro_text rx clean = codes "cw_macros:" ++ (show_int rx ++ (b',' ∷ (clean ++ (b';' ∷ []))))

-- the part behind the sanitizing, on its result `n` and the string `clean`
unfoldable pub macro_of_clean : ℤ → ℤ → Bytes → ℕ → ℤ × Option Bytes
macro_of_clean rx n clean cmd_max =
    if ltb_ℤ (pos 0) n
    then (if ltb (length (macro_text rx clean)) cmd_max
        then (n, some (macro_text rx clean))
        else (negsuc 0, some (snprintf cmd_max (macro_text rx clean))))
    else (pos 0, some [])

unfoldable pub format_cw_macro : ℤ → Option Bytes → Option Bytes → ℕ → ℤ × Option Bytes
unfolding sanitize_cw macro_of_clean
format_cw_macro rx text none cmd_max = (negsuc 0, none)
format_cw_macro rx text (some cmd) cmd_max =
    let (n, clean) = sanitize_cw text (some []) (pos text_size) in
    if ltb cmd_max 16
    then (negsuc 0, some cmd)
    else macro_of_clean (receiver rx) n (elim clean [ none ↦ [] | some s ↦ s ]) cmd_max

unfoldable pub keyer_text : ℤ → Bytes
keyer_text wpm = codes "cw_keyer_speed:" ++ (show_int wpm ++ (b';' ∷ []))

unfoldable pub macros_text : ℤ → Bytes
macros_text wpm = codes "cw_macros_speed:" ++ (show_int wpm ++ (b';' ∷ []))

unfoldable pub format_wpm :
    ℤ → Option Bytes → ℕ → Option Bytes → ℕ → ℤ × Option Bytes × Option Bytes
unfolding clamp_wpm
format_wpm wpm (some keyer) keyer_max (some macros) macros_max =
    if ltb keyer_max 24 || ltb macros_max 28 then (negsuc 0, some keyer, some macros) else (
      clamp_wpm wpm,
      some (snprintf keyer_max (keyer_text (clamp_wpm wpm))),
      some (snprintf macros_max (macros_text (clamp_wpm wpm))),
    )
format_wpm wpm keyer keyer_max macros macros_max = (negsuc 0, keyer, macros)

unfoldable pub chunk_text : Bytes → Bytes
chunk_text part = codes "KY " ++ (part ++ (b';' ∷ []))

-- `start` is `*pos`, or 0 where that is negative; `rest` is the string from there on.
unfoldable pub chunk_at : ℕ → Bytes → ℤ → Bytes → ℤ → ℤ × ℤ × Bytes
chunk_at start [] p cmd cmd_max = (pos 0, p, cmd)
chunk_at start (c ∷ rest) p cmd cmd_max =
    let part = take chunk_size (c ∷ rest) in
    if ltb_ℤ cmd_max (pos (length part + 5))
    then (pos 0, p, cmd)
    else (pos 1, pos (start + length part), chunk_text part)

-- A `*pos` behind the end of the string, which the caller rules out, is taken for its end.
unfoldable pub ky_chunk : Option Bytes → Option ℤ → Option Bytes → ℤ → ℤ × Option ℤ × Option Bytes
ky_chunk (some text) (some p) (some cmd) cmd_max =
    let (r, p', cmd') = chunk_at (pos_part p) (drop (pos_part p) text) p cmd cmd_max in
    if ltb_ℤ cmd_max (pos 8) then (pos 0, some p, some cmd) else (r, some p', some cmd')
ky_chunk text p cmd cmd_max = (pos 0, p, cmd)

-- `while (*p == ' ') p++;` and the test of the byte behind
unfoldable pub status_from : Bytes → ℤ
status_from [] = negsuc 0
status_from (c ∷ s) =
    if c == b' '
    then status_from s
    else if c == b'0'
    then pos 0
    else if c == b'1'
    then pos 1
    else negsuc 0

unfoldable pub ky_status : Option Bytes → ℤ
unfolding status_from strstr
ky_status none = negsuc 0
ky_status (some line) = elim (strstr line (codes "KY")) [
  | none ↦ negsuc 0
  | some r ↦ status_from (drop 2 r)
]
