-- ===== src/Tci/Ends.antt =====
-- The loop of tci_tcp_parse_stream_buffer (cw-skimmer/src/tci_client.c) ends by itself, on any stream.
use cw_skimmer.Prelude.{
  ℕ, zero, suc, ◌-◌, ◌≤◌, ◌<◌, ◌≡◌, refl, inl, inr, false, ◌||◌, [], ◌∷◌, Option, none, some, arith,
  length, length-take, length-drop, take, ltb, leb, leb→le, ◌==◌, Bool-cases,
}
use cw_skimmer.Prelude.Bytes.{Bytes}
use cw_skimmer.Tci.{
  msg_size, is_text_start, binary_frame_size, through_semicolon, consume_stream, TcpContext,
  take_text, take_frame, parse_round, parse_from, parse_stream_buffer,
}

length-consume_stream : (n : ℕ) (s : Bytes) → length (consume_stream n s) ≡ length s - n
unfolding consume_stream
length-consume_stream n s = elim (Bool-cases (leb (length s) n)) [
  | inl all ↦ rw all (omega (arith, leb→le (length s) n all))
  | inr more ↦ rw more (length-drop n s)
]

-- A round ends the loop, or the stream gets shorter.
abbrev Shortens : {S : Type 0} → ℕ → Option (TcpContext S) → Type 0
Shortens n none = Unit
Shortens n (some ctx) = length ctx.stream_buffer < n

-- a line has its semicolon at least
abbrev IsLine : Option Bytes → Type 0
IsLine none = Unit
IsLine (some line) = 1 ≤ length line

through_semicolon-IsLine : (s : Bytes) → IsLine (through_semicolon s)
unfolding through_semicolon
through_semicolon-IsLine [] = tt
through_semicolon-IsLine (c ∷ s) = elim (Bool-cases (c == b';')) [
  | inl here ↦ rw here (omega arith)
  | inr later ↦ rw later (longer (through_semicolon s))
]
  where
    longer :
        (r : Option Bytes)
        → IsLine (elim r as (λ r. Option Bytes) [ none ↦ none | some msg ↦ some (c ∷ msg) ])
    longer none = tt
    longer (some msg) = omega arith

module _ {S : Type 0} (handle : S → Bytes → S) where
  take_text-Shortens :
      (ctx : TcpContext S)
      → 1 ≤ length ctx.stream_buffer
      → Shortens (length ctx.stream_buffer) (take_text handle ctx)
  unfolding take_text
  take_text-Shortens ctx h =
      taken (through_semicolon ctx.stream_buffer) (through_semicolon-IsLine ctx.stream_buffer)
    where
      taken :
          (r : Option Bytes)
          → IsLine r
          → Shortens (length ctx.stream_buffer) (elim r as (λ r. Option (TcpContext S)) [
            | none ↦ none
            | some line ↦ some (record ctx {
              client = handle ctx.client (take (msg_size - 1) line);
              stream_buffer = consume_stream (length (take (msg_size - 1) line)) ctx.stream_buffer;
            })
          ])
      taken none l = tt
      taken (some line) l = omega (
        arith,
        length-consume_stream (length (take (msg_size - 1) line)) ctx.stream_buffer,
        length-take 511 line,
      )

  take_frame-Shortens :
      (ctx : TcpContext S)
      → 1 ≤ length ctx.stream_buffer
      → Shortens (length ctx.stream_buffer) (take_frame handle ctx)
  unfolding take_frame
  take_frame-Shortens ctx h =
      elim (Bool-cases (
        leb (binary_frame_size ctx.stream_buffer) 0
        || ltb (length ctx.stream_buffer) (binary_frame_size ctx.stream_buffer))) [
          | inl ends ↦ rw ends tt
          | inr goes_on ↦ rw goes_on (
              omega (
                arith,
                length-consume_stream (binary_frame_size ctx.stream_buffer) ctx.stream_buffer,
                some_bytes (binary_frame_size ctx.stream_buffer) (length ctx.stream_buffer) goes_on,
              ))
        ]
    where
      some_bytes : (size n : ℕ) → (leb size 0 || ltb n size) ≡ false → 1 ≤ size
      some_bytes size n e = ground arith

  parse_round-Shortens :
      (ctx : TcpContext S) → Shortens (length ctx.stream_buffer) (parse_round handle ctx)
  unfolding parse_round
  parse_round-Shortens ctx = on ctx.stream_buffer refl
    where
      on :
          (s : Bytes)
          → ctx.stream_buffer ≡ s
          → Shortens (length s) (parse_round handle (record ctx { stream_buffer = s }))
      on [] e = tt
      on (c ∷ s) e = elim (Bool-cases (is_text_start c)) [
        | inl text ↦
            rw text (take_text-Shortens (record ctx { stream_buffer = c ∷ s }) (omega arith))
        | inr other ↦
            rw other (take_frame-Shortens (record ctx { stream_buffer = c ∷ s }) (omega arith))
      ]

  parse_round-empty :
      (ctx : TcpContext S) → length ctx.stream_buffer ≡ 0 → parse_round handle ctx ≡ none
  unfolding parse_round
  parse_round-empty ctx h = on ctx.stream_buffer h
    where
      on : (s : Bytes) → length s ≡ 0 → parse_round handle (record ctx { stream_buffer = s }) ≡ none
      on [] e = refl
      on (c ∷ s) e = absurd (omega arith)

  parse_from-ends :
      (fuel : ℕ) (ctx : TcpContext S)
      → length ctx.stream_buffer ≤ fuel
      → parse_round handle (parse_from handle fuel ctx) ≡ none
  unfolding parse_from
  parse_from-ends zero ctx h = parse_round-empty ctx (omega arith)
  parse_from-ends (suc fuel) ctx h =
      on (λ ctx' l. parse_from-ends fuel ctx' l) (parse_round handle ctx) refl
        (parse_round-Shortens ctx)
    where
      on :
          ((ctx' : TcpContext S)
            → length ctx'.stream_buffer ≤ fuel
            → parse_round handle (parse_from handle fuel ctx') ≡ none)
          → (r : Option (TcpContext S)) → parse_round handle ctx ≡ r
          → Shortens (length ctx.stream_buffer) r
          → parse_round handle (elim r as (λ r. TcpContext S) [
            | none ↦ ctx
            | some ctx' ↦ parse_from handle fuel ctx'
          ])
            ≡ none
      on later none e l = e
      on later (some ctx') e l = later ctx' (omega arith)

  -- The loop ends: where the rounds of the model stop, the source's loop stops too, whatever the stream holds.
  pub parse_stream_buffer-ends :
      (ctx : TcpContext S) → parse_round handle (parse_stream_buffer handle ctx) ≡ none
  unfolding parse_stream_buffer
  parse_stream_buffer-ends ctx = parse_from-ends (length ctx.stream_buffer) ctx (omega arith)
