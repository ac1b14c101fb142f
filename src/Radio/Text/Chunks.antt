-- ===== src/Radio/Text/Chunks.antt =====
-- `radio_control_ky_chunk` of cw-skimmer/src/radio_control.c, called until the text is out.
use mathlib.Core.List.{flatten}
use native.Mathlib.Nat.{zero-add}
use cw_skimmer.Prelude.{
  ℕ, zero, suc, ◌+◌, ◌≤◌, ◌<◌, ◌≡◌, refl, sym, ap, ◌∙◌, List, [], ◌∷◌, ◌++◌, Option, some, arith,
  length, take, drop, take-append-drop-length, length-take, length-drop, drop-drop, map,
}
use cw_skimmer.Prelude.Int.{ℤ, pos, pos_part}
use cw_skimmer.Prelude.Bytes.{Bytes}
use cw_skimmer.Radio.Text.{chunk_size, chunk_text, chunk_at, ky_chunk}

chunk_at-cons :
    (start : ℕ) (c : ℕ) (rest : Bytes) (p : ℤ) (cmd : Bytes) (cmd_max : ℕ)
    → 29 ≤ cmd_max
    → chunk_at start (c ∷ rest) p cmd (pos cmd_max) ≡ (
      pos 1,
      pos (start + length (take chunk_size (c ∷ rest))),
      chunk_text (take chunk_size (c ∷ rest)),
    )
unfolding chunk_at
chunk_at-cons start c rest p cmd cmd_max h = ground (arith, length-take 24 (c ∷ rest))

-- `ky_chunk`, for a command buffer of at least eight bytes
ky_chunk-chunk_at :
    (text cmd : Bytes) (p cmd_max : ℕ)
    → 8 ≤ cmd_max
    → let (r, p', cmd') = chunk_at p (drop p text) (pos p) cmd (pos cmd_max) in
      ky_chunk (some text) (some (pos p)) (some cmd) (pos cmd_max) ≡ (r, some p', some cmd')
unfolding ky_chunk
ky_chunk-chunk_at text cmd p cmd_max h = ground arith

-- One call inside the text, with a buffer for at least 29 bytes: the next 24 bytes, or what is left.
pub ky_chunk-inside :
    (text cmd : Bytes) (p cmd_max : ℕ) (c : ℕ) (rest : Bytes)
    → drop p text ≡ c ∷ rest
    → 29 ≤ cmd_max
    → ky_chunk (some text) (some (pos p)) (some cmd) (pos cmd_max) ≡ (
      pos 1,
      some (pos (p + length (take chunk_size (c ∷ rest)))),
      some (chunk_text (take chunk_size (c ∷ rest))),
    )
ky_chunk-inside text cmd p cmd_max c rest e h =
    ky_chunk-chunk_at text cmd p cmd_max (omega arith)
    ∙ rw (e, chunk_at-cons p c rest (pos p) cmd cmd_max h)

-- At the end of the text nothing is written, and the call says so.
pub ky_chunk-end :
    (text cmd : Bytes) (p cmd_max : ℕ)
    → drop p text ≡ []
    → 8 ≤ cmd_max
    → ky_chunk (some text) (some (pos p)) (some cmd) (pos cmd_max) ≡ (pos 0, some (pos p), some cmd)
unfolding chunk_at
ky_chunk-end text cmd p cmd_max e h = ky_chunk-chunk_at text cmd p cmd_max h ∙ rw e

-- What a sender does with the result of one call at position `p`: stop at 0, else keep the command
-- and go on at the new position.
abbrev chunks_on : (ℕ → List Bytes × ℕ) → ℕ → ℤ × Option ℤ × Option Bytes → List Bytes × ℕ
chunks_on next p (pos (suc r), some q, some cmd) =
    let (cmds, end) = next (pos_part q) in (cmd ∷ cmds, end)
chunks_on next p _ = ([], p)

-- The calls of a sender that goes on until one returns 0, with a command buffer of `cmd_max`
-- bytes: the commands that it gets, and the position at which it ends.
pub chunks : ℕ → ℕ → Bytes → ℕ → List Bytes × ℕ
chunks cmd_max zero text p = ([], p)
chunks cmd_max (suc fuel) text p =
    chunks_on (λ q. chunks cmd_max fuel text q) p
      (ky_chunk (some text) (some (pos p)) (some []) (pos cmd_max))

-- Every part holds between 1 and 24 bytes.
abbrev pub AllParts : List Bytes → Type 0
AllParts [] = Unit
AllParts (part ∷ parts) = (0 < length part) × (length part ≤ chunk_size) × AllParts parts

-- The commands of a run are the parts of the text, in order, each in its `KY …;`.
abbrev pub Sends : Bytes → ℕ → ℕ → List Bytes × ℕ → Type 0
Sends text p end out =
    (parts : List Bytes) × (out ≡ (map chunk_text parts, end))
    × (flatten parts ≡ drop p text)
    × AllParts parts

module _ (cmd_max : ℕ) (room : 29 ≤ cmd_max) (fuel : ℕ) (text : Bytes) (p : ℕ) where
  chunks-end :
      drop p text ≡ [] → Sends text p (p + length (drop p text)) (chunks cmd_max (suc fuel) text p)
  unfolding chunks flatten
  chunks-end e = (
    [],
    rw (ky_chunk-end text [] p cmd_max e (omega arith)) (rw e (ap (λ q. ([], q)) (omega arith))),
    sym e,
    tt,
  )

  chunks-cons :
      (c : ℕ) (rest : Bytes)
      → drop p text ≡ c ∷ rest
      → let q = p + length (take chunk_size (c ∷ rest)) in
        Sends text q (q + length (drop q text)) (chunks cmd_max fuel text q)
        → Sends text p (p + length (drop p text)) (chunks cmd_max (suc fuel) text p)
  unfolding chunks flatten
  chunks-cons c rest e (parts, out, whole, sizes) = (
    take chunk_size (c ∷ rest) ∷ parts,
    rw (ky_chunk-inside text [] p cmd_max c rest e room, out)
        (ap (λ n. (map chunk_text (take chunk_size (c ∷ rest) ∷ parts), n)) end),
    ap (◌++◌ (take chunk_size (c ∷ rest))) (whole ∙ sym (drop-drop p _ text) ∙ rw e)
        ∙ take-append-drop-length chunk_size (c ∷ rest)
        ∙ sym e,
    (omega arith, omega (arith, length-take chunk_size (c ∷ rest)), sizes),
  )
    where
      end :
          p
            + length (take chunk_size (c ∷ rest))
            + length (drop (p + length (take chunk_size (c ∷ rest))) text)
          ≡ p + length (drop p text)
      end = omega (
        arith,
        ap length e,
        length-drop p text,
        length-drop (p + length (take chunk_size (c ∷ rest))) text,
        length-take chunk_size (c ∷ rest),
      )

chunks-Sends :
    (cmd_max : ℕ)
    → 29 ≤ cmd_max
    → (fuel : ℕ) (text : Bytes) (p : ℕ) → length (drop p text) < fuel
    → Sends text p (p + length (drop p text)) (chunks cmd_max fuel text p)
chunks-Sends cmd_max room zero text p h = absurd (omega arith)
chunks-Sends cmd_max room (suc fuel) text p h =
    split (drop p text) refl (λ q. chunks-Sends cmd_max room fuel text q)
  where
    split :
        (rest : Bytes)
        → drop p text ≡ rest
        → ((q : ℕ)
            → length (drop q text) < fuel
            → Sends text q (q + length (drop q text)) (chunks cmd_max fuel text q))
        → Sends text p (p + length (drop p text)) (chunks cmd_max (suc fuel) text p)
    split [] e ih = chunks-end cmd_max room fuel text p e
    split (c ∷ rest) e ih =
        let shorter : length (drop (p + length (take chunk_size (c ∷ rest))) text) < fuel = omega (
          arith,
          ap length e,
          length-drop p text,
          length-drop (p + length (take chunk_size (c ∷ rest))) text,
        ) in
        chunks-cons cmd_max room fuel text p c rest e
          (ih (p + length (take chunk_size (c ∷ rest))) shorter)

-- A sender that starts at the beginning of a text, with a command buffer of at least 29 bytes, and
-- goes on while a call returns 1, gets the whole text: the payloads of the commands, joined, are the
-- text, each is 1 to 24 bytes long, and it ends at the end of the text. One call more than there are
-- bytes is always enough.
pub chunks_lem :
    (cmd_max : ℕ) (text : Bytes)
    → 29 ≤ cmd_max
    → Sends text 0 (length text) (chunks cmd_max (length text + 1) text 0)
chunks_lem cmd_max text room =
    rw (zero-add (length text)) at
      (chunks-Sends cmd_max room (length text + 1) text 0 (omega arith))
