-- ===== src/Tci/Items.antt =====
-- The messages and frames of the TCP stream of cw-skimmer/src/tci_client.c, and their bytes.
use cw_skimmer.Prelude.{
  ℕ, zero, suc, ◌+◌, ◌≤◌, ◌<◌, ◌≡◌, refl, ap, inl, inr, Bool, true, false, [], ◌∷◌, ◌++◌, none,
  some, arith, length, length-append, take, drop, get_or, ltb, leb, lt→ltb, ltb→lt, ◌==◌,
  Bool-cases, if◌then◌else◌,
}
use cw_skimmer.Prelude.Bytes.{Bytes, AllTrue}
use cw_skimmer.Tci.{
  header_size, msg_size, le32, is_text_start, binary_frame_size, through_semicolon, consume_stream,
}

-- What the stream consists of. A message is without its semicolon; a frame has its header.
pub data Item : Type 0 where
  message frame : Bytes → Item

abbrev pub bytes_of : Item → Bytes
bytes_of (message s) = s ++ b';' ∷ []
bytes_of (frame s) = s

abbrev pub starts : (ℕ → Bool) → Bytes → Bool
starts test [] = false
starts test (c ∷ s) = test c

abbrev pub no_semicolon : ℕ → Bool
no_semicolon c = if c == b';' then false else true

abbrev pub no_text : ℕ → Bool
no_text c = if is_text_start c then false else true

-- A message starts with a letter or a digit, has no other semicolon, and fits the buffer for one with its
-- NUL. A frame starts with another byte, and is as long as its header says.
abbrev pub IsItem : Item → Type 0
IsItem (message s) =
    (starts is_text_start s ≡ true) × AllTrue no_semicolon s × (length s + 1 < msg_size)
IsItem (frame s) = (starts no_text s ≡ true) × (binary_frame_size s ≡ length s)

pub not_less : (m n : ℕ) → n ≤ m → ltb m n ≡ false
not_less m n h = ground arith

pub other_than : (c : ℕ) → no_semicolon c ≡ true → (c == b';') ≡ false
other_than c h = ground arith

pub other_start : (c : ℕ) → no_text c ≡ true → is_text_start c ≡ false
other_start c h = elim (Bool-cases (is_text_start c)) [
  | inl yes_text ↦ absurd (ground (arith, h, yes_text))
  | inr not_text ↦ not_text
]

pub get_or-front : (p q : Bytes) (i : ℕ) → i < length p → get_or (p ++ q) i 0 ≡ get_or p i 0
get_or-front [] q i h = absurd (omega arith)
get_or-front (x ∷ p) q zero h = refl
get_or-front (x ∷ p) q (suc i) h = get_or-front p q i (omega arith)

pub take-front : (p q : Bytes) → take (length p) (p ++ q) ≡ p
take-front [] q = refl
take-front (x ∷ p) q = ap (◌∷◌ x) (take-front p q)

pub drop-front : (p q : Bytes) → drop (length p) (p ++ q) ≡ q
drop-front [] q = refl
drop-front (x ∷ p) q = drop-front p q

pub consume_stream-front : (p q : Bytes) → consume_stream (length p) (p ++ q) ≡ q
unfolding consume_stream
consume_stream-front p [] = rw (whole) refl
  where
    whole : leb (length (p ++ [])) (length p) ≡ true
    whole = ground (arith, length-append p [])
consume_stream-front p (x ∷ q) = rw (more) (drop-front p (x ∷ q))
  where
    more : leb (length (p ++ x ∷ q)) (length p) ≡ false
    more = ground (arith, length-append p (x ∷ q))

-- the search for the semicolon
pub through_semicolon-message :
    (s rest : Bytes)
    → AllTrue no_semicolon s
    → through_semicolon (s ++ b';' ∷ rest) ≡ some (s ++ b';' ∷ [])
unfolding through_semicolon
through_semicolon-message [] rest h = refl
through_semicolon-message (c ∷ s) rest (here, h) =
    rw (other_than c here, through_semicolon-message s rest h) refl

pub through_semicolon-none : (s : Bytes) → AllTrue no_semicolon s → through_semicolon s ≡ none
unfolding through_semicolon
through_semicolon-none [] h = refl
through_semicolon-none (c ∷ s) (here, h) = rw (other_than c here, through_semicolon-none s h) refl

-- the size of a frame reads the header alone
pub le32-front : (p q : Bytes) (i : ℕ) → i + 3 < length p → le32 (p ++ q) i ≡ le32 p i
le32-front p q i h =
    rw
      (
        get_or-front p q i (omega arith),
        get_or-front p q (i + 1) (omega arith),
        get_or-front p q (i + 2) (omega arith),
        get_or-front p q (i + 3) (omega arith),
      )
      refl

pub binary_frame_size-front :
    (p q : Bytes) → header_size ≤ length p → binary_frame_size (p ++ q) ≡ binary_frame_size p
unfolding binary_frame_size
binary_frame_size-front p q h =
    rw
      (
        le32-front p q 20 (omega arith),
        le32-front p q 24 (omega arith),
        not_less (length p) header_size h,
        not_less (length (p ++ q)) header_size (omega (arith, length-append p q)),
      )
      refl

pub binary_frame_size-short : (p : Bytes) → length p < header_size → binary_frame_size p ≡ 0
unfolding binary_frame_size
binary_frame_size-short p h = rw (lt→ltb (length p) header_size h) refl

-- a frame has a header
pub frame-header :
    (s : Bytes) → starts no_text s ≡ true → binary_frame_size s ≡ length s → header_size ≤ length s
frame-header [] h e = ground (arith, h)
frame-header (c ∷ s) h e = elim (Bool-cases (ltb (length (c ∷ s)) header_size)) [
  | inl short ↦
      absurd
        (omega (arith, binary_frame_size-short (c ∷ s) (ltb→lt (length (c ∷ s)) header_size short)))
  | inr long ↦ least (length (c ∷ s)) long
]
  where
    least : (n : ℕ) → ltb n header_size ≡ false → header_size ≤ n
    least n l = ground arith
