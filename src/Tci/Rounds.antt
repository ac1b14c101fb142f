-- ===== src/Tci/Rounds.antt =====
-- The rounds of the loop of tci_tcp_parse_stream_buffer (cw-skimmer/src/tci_client.c): each takes what stands first.
use cw_skimmer.Prelude.{
  ℕ, ◌≤◌, ◌<◌, ◌≡◌, refl, ap, ap₂, ◌∙◌, subst, ◌⊎◌, inl, inr, Bool, true, false, [], ◌∷◌, ◌++◌,
  append_assoc, none, some, arith, length, length-append, take, take_of_le, drop, get_or, ltb, leb,
  lt→ltb, ltb→lt, Bool-cases,
}
use cw_skimmer.Prelude.Bytes.{Bytes, AllTrue}
use cw_skimmer.Tci.{
  header_size, is_text_start, binary_frame_size, through_semicolon, consume_stream, TcpContext,
  take_text, take_frame, parse_round,
}
use cw_skimmer.Tci.Items.{
  Item, message, frame, bytes_of, starts, no_semicolon, no_text, IsItem, not_less, other_start,
  take-front, consume_stream-front, through_semicolon-message, through_semicolon-none,
  binary_frame_size-front, binary_frame_size-short, frame-header,
}

-- A proper beginning of an item, which ends the loop.
pub record IsPart (p : Bytes) : Type 0 where
  pub item : Item
  pub is_item : IsItem item
  pub rest : Bytes
  pub begins : bytes_of item ≡ p ++ rest
  pub more : 1 ≤ length rest

module _ {S : Type 0} (handle : S → Bytes → S) where
  -- what an item does
  abbrev pub after : Item → TcpContext S → TcpContext S
  after (message s) ctx = record ctx { client = handle ctx.client (s ++ b';' ∷ []) }
  after (frame s) ctx = record ctx { audio_buffer = ctx.audio_buffer ++ s }

  -- the round on a text, and on another byte
  parse_round-text :
      (ctx : TcpContext S) (s : Bytes)
      → starts is_text_start s ≡ true
      → parse_round handle (record ctx { stream_buffer = s })
        ≡ take_text handle (record ctx { stream_buffer = s })
  unfolding parse_round
  parse_round-text ctx [] h = ground (arith, h)
  parse_round-text ctx (c ∷ s) h = rw h refl

  parse_round-frame :
      (ctx : TcpContext S) (s : Bytes)
      → starts no_text s ≡ true
      → parse_round handle (record ctx { stream_buffer = s })
        ≡ take_frame handle (record ctx { stream_buffer = s })
  unfolding parse_round
  parse_round-frame ctx [] h = ground (arith, h)
  parse_round-frame ctx (c ∷ s) h = rw (other_start c h) refl

  starts-append :
      (test : ℕ → Bool) (s q : Bytes) → starts test s ≡ true → starts test (s ++ q) ≡ true
  starts-append test [] q h = ground (arith, h)
  starts-append test (c ∷ s) q h = h

  take_text-message :
      (ctx : TcpContext S) (s rest : Bytes)
      → IsItem (message s)
      → take_text handle (record ctx { stream_buffer = (s ++ b';' ∷ []) ++ rest })
        ≡ some (record (after (message s) ctx) { stream_buffer = rest })
  unfolding take_text
  take_text-message ctx s rest (first, clean, short) =
      let whole : take 511 (s ++ b';' ∷ []) ≡ s ++ b';' ∷ [] =
        take_of_le 511 (s ++ b';' ∷ []) (omega (arith, length-append s (b';' ∷ []))) in
      rw
        (
          ap through_semicolon (append_assoc s (b';' ∷ []) rest)
              ∙ through_semicolon-message s rest clean,
          take_text,
        )
        (ap₂
          (λ (line stream : Bytes).
            some (record ctx { client = handle ctx.client line; stream_buffer = stream }))
          whole
          (ap (λ line. consume_stream (length line) ((s ++ b';' ∷ []) ++ rest)) whole
            ∙ consume_stream-front (s ++ b';' ∷ []) rest))

  take_frame-frame :
      (ctx : TcpContext S) (s rest : Bytes)
      → IsItem (frame s)
      → take_frame handle (record ctx { stream_buffer = s ++ rest })
        ≡ some (record (after (frame s) ctx) { stream_buffer = rest })
  unfolding take_frame
  take_frame-frame ctx s rest (first, size) =
      let h = frame-header s first size in
      let e = binary_frame_size-front s rest h ∙ size in
      rw
        (
          e,
          not_le (length s) 0 (omega arith),
          not_less (length (s ++ rest)) (length s) (omega (arith, length-append s rest)),
        )
        (ap₂
          (λ (taken stream : Bytes).
            some (record ctx { audio_buffer = ctx.audio_buffer ++ taken; stream_buffer = stream }))
          (take-front s rest) (consume_stream-front s rest))
    where
      not_le : (m n : ℕ) → n < m → leb m n ≡ false
      not_le m n l = ground arith

  -- A whole item at the front of the stream is taken.
  pub parse_round-item :
      (ctx : TcpContext S) (item : Item) (rest : Bytes)
      → IsItem item
      → parse_round handle (record ctx { stream_buffer = bytes_of item ++ rest })
        ≡ some (record (after item ctx) { stream_buffer = rest })
  parse_round-item ctx (message s) rest h =
      parse_round-text ctx ((s ++ b';' ∷ []) ++ rest) (
        starts-append is_text_start (s ++ b';' ∷ []) rest
          (starts-append is_text_start s (b';' ∷ []) h.0))
      ∙ take_text-message ctx s rest h
  parse_round-item ctx (frame s) rest h =
      parse_round-frame ctx (s ++ rest) (starts-append no_text s rest h.0)
      ∙ take_frame-frame ctx s rest h

  AllTrue-front :
      (s p rest : Bytes)
      → AllTrue no_semicolon s
      → s ++ b';' ∷ [] ≡ p ++ rest
      → 1 ≤ length rest
      → AllTrue no_semicolon p
  AllTrue-front s [] rest h e m = tt
  AllTrue-front [] (x ∷ p) rest h e m = absurd (omega (arith, ap length e, length-append p rest))
  AllTrue-front (y ∷ s) (x ∷ p) rest h e m = (
    subst (λ c. no_semicolon c ≡ true) (ap (λ t. get_or t 0 y) e) h.0,
    AllTrue-front s p rest h.1 (ap (drop 1) e) m,
  )

  starts-front :
      (test : ℕ → Bool) (s : Bytes) (x : ℕ) (p : Bytes)
      → starts test s ≡ true
      → s ≡ x ∷ p
      → starts test (x ∷ p) ≡ true
  starts-front test s x p h e = subst (λ t. starts test t ≡ true) e h

  take_text-none :
      (ctx : TcpContext S) (p : Bytes)
      → through_semicolon p ≡ none
      → take_text handle (record ctx { stream_buffer = p }) ≡ none
  unfolding take_text
  take_text-none ctx p h = rw (h, take_text) refl

  take_frame-none :
      (ctx : TcpContext S) (p : Bytes) (size : ℕ)
      → binary_frame_size p ≡ size
      → (size ≡ 0) ⊎ (length p < size)
      → take_frame handle (record ctx { stream_buffer = p }) ≡ none
  unfolding take_frame
  take_frame-none ctx p size e (inl nothing) = rw (e ∙ nothing) refl
  take_frame-none ctx p size e (inr short) = elim (Bool-cases (leb size 0)) [
    | inl nothing ↦ rw (e, nothing) refl
    | inr something ↦ rw (e, something, lt→ltb (length p) size short) refl
  ]

  -- a part of a frame has no header, or is shorter than its header says
  part-size :
      (s p rest : Bytes)
      → binary_frame_size s ≡ length s
      → s ≡ p ++ rest
      → 1 ≤ length rest
      → (binary_frame_size p ≡ 0) ⊎ (length p < binary_frame_size p)
  part-size s p rest size e more = elim (Bool-cases (ltb (length p) header_size)) [
    | inl short ↦ inl (binary_frame_size-short p (ltb→lt (length p) header_size short))
    | inr long ↦ inr (
        omega (
          arith,
          ap length e,
          length-append p rest,
          size,
          ap binary_frame_size e,
          binary_frame_size-front p rest (least (length p) long),
        ))
  ]
    where
      least : (n : ℕ) → ltb n header_size ≡ false → header_size ≤ n
      least n l = ground arith

  pub parse_round-part :
      (ctx : TcpContext S) (p : Bytes)
      → IsPart p
      → parse_round handle (record ctx { stream_buffer = p }) ≡ none
  unfolding parse_round
  parse_round-part ctx [] part = refl
  parse_round-part ctx (x ∷ p) part = split part.item part.is_item part.begins
    where
      split :
          (item : Item)
          → IsItem item
          → bytes_of item ≡ x ∷ (p ++ part.rest)
          → parse_round handle (record ctx { stream_buffer = x ∷ p }) ≡ none
      split (message s) h e =
          parse_round-text ctx (x ∷ p) (
            starts-front is_text_start (s ++ b';' ∷ []) x (p ++ part.rest)
              (starts-append is_text_start s (b';' ∷ []) h.0) e)
          ∙ take_text-none ctx (x ∷ p)
              (through_semicolon-none (x ∷ p) (AllTrue-front s (x ∷ p) part.rest h.1 e part.more))
      split (frame s) h e =
          parse_round-frame ctx (x ∷ p) (starts-front no_text s x (p ++ part.rest) h.0 e)
          ∙ take_frame-none ctx (x ∷ p) (binary_frame_size (x ∷ p)) refl
              (part-size s (x ∷ p) part.rest h.1 e part.more)
