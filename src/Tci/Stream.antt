-- ===== src/Tci/Stream.antt =====
-- A whole TCP stream, cut into chunks in any way, as tci_tcp_append_stream and tci_tcp_parse_stream_buffer
-- (cw-skimmer/src/tci_client.c) take it.
use cw_skimmer.Prelude.{
  ℕ, zero, suc, ◌≤◌, ◌<◌, ◌≡◌, refl, sym, ap, ap₂, ◌∙◌, subst, inl, inr, false, List, [], ◌∷◌, ◌++◌,
  append_assoc, none, some, arith, length, length-append, drop, get_or, leb, leb→le, Bool-cases,
}
use cw_skimmer.Prelude.Bytes.{Bytes, codes}
use cw_skimmer.Tci.{TcpContext, parse_from, parse_stream_buffer, append_stream, receive}
use cw_skimmer.Tci.Items.{Item, message, frame, bytes_of, IsItem}
use cw_skimmer.Tci.Rounds.{IsPart, after, parse_round-item, parse_round-part}

abbrev pub sent : List Item → Bytes
sent [] = []
sent (item ∷ items) = bytes_of item ++ sent items

abbrev pub AllItems : List Item → Type 0
AllItems [] = Unit
AllItems (item ∷ items) = IsItem item × AllItems items

-- the bytes that wait for the rest of the item that comes next
abbrev Waits : Bytes → List Item → Type 0
Waits p [] = p ≡ []
Waits p (item ∷ items) = length p < length (bytes_of item)

-- Of two ways to cut a list, the later one goes through the second part.
cut :
    (xs ys a b : Bytes)
    → xs ++ ys ≡ a ++ b
    → length xs ≤ length a
    → (a' : Bytes) × (a ≡ xs ++ a') × (ys ≡ a' ++ b)
cut [] ys a b e h = (a, refl, e)
cut (x ∷ xs) ys [] b e h = absurd (omega arith)
cut (x ∷ xs) ys (y ∷ a) b e h =
    let (a', e', e'') = cut xs ys a b (ap (drop 1) e) (omega arith) in
    (a', ap₂ ◌∷◌ (sym (ap (λ s. get_or s 0 x) e)) e', e'')

-- a beginning of a stream: whole items, and what waits
record Cut (items : List Item) (a b : Bytes) : Type 0 where
  pub whole : List Item
  pub later : List Item
  pub part : Bytes
  pub begins : a ≡ sent whole ++ part
  pub goes_on : sent later ≡ part ++ b
  pub waits : Waits part later
  pub split : items ≡ whole ++ later
  pub all_whole : AllItems whole
  pub all_later : AllItems later

Cut-items : (items : List Item) (a b : Bytes) → AllItems items → sent items ≡ a ++ b → Cut items a b
Cut-items [] [] b all e = record {
  whole = [];
  later = [];
  part = [];
  begins = refl;
  goes_on = e;
  waits = refl;
  split = refl;
  all_whole = tt;
  all_later = tt;
}
Cut-items [] (x ∷ a) b all e = absurd (omega (arith, ap length e))
Cut-items (item ∷ items) a b (here, all) e =
    elim (Bool-cases (leb (length (bytes_of item)) (length a))) [
      | inl taken ↦
          let (a', e', e'') =
            cut (bytes_of item) (sent items) a b e
              (leb→le (length (bytes_of item)) (length a) taken) in
          let c = Cut-items items a' b all e'' in
          record {
            whole = item ∷ c.whole;
            later = c.later;
            part = c.part;
            begins =
                e'
                ∙ ap (◌++◌ (bytes_of item)) c.begins
                ∙ sym (append_assoc (bytes_of item) (sent c.whole) c.part);
            goes_on = c.goes_on;
            waits = c.waits;
            split = ap (◌∷◌ item) c.split;
            all_whole = (here, c.all_whole);
            all_later = c.all_later;
          }
      | inr short ↦ record {
        whole = [];
        later = item ∷ items;
        part = a;
        begins = refl;
        goes_on = e;
        waits = less (length (bytes_of item)) (length a) short;
        split = refl;
        all_whole = tt;
        all_later = (here, all);
      }
    ]
  where
    less : (m n : ℕ) → leb m n ≡ false → n < m
    less m n h = ground arith

nothing-IsPart : IsPart []
nothing-IsPart = record {
  item = message (codes "A");
  is_item = (refl, (refl, tt), omega arith);
  rest = codes "A;";
  begins = refl;
  more = omega arith;
}

Waits-IsPart :
    (items : List Item) (p b : Bytes)
    → AllItems items
    → Waits p items
    → sent items ≡ p ++ b
    → IsPart p
Waits-IsPart [] p b all w e = subst IsPart (sym w) nothing-IsPart
Waits-IsPart (item ∷ items) p b (here, all) w e =
    let (rest, e', e'') = cut p b (bytes_of item) (sent items) (sym e) (omega arith) in
    record {
      item = item;
      is_item = here;
      rest = rest;
      begins = e';
      more = omega (arith, ap length e', length-append p rest);
    }

module _ {S : Type 0} (handle : S → Bytes → S) where
  -- what a list of items does
  abbrev pub after_all : List Item → TcpContext S → TcpContext S
  after_all [] ctx = ctx
  after_all (item ∷ items) ctx = after_all items (after handle item ctx)

  abbrev with_stream : TcpContext S → Bytes → TcpContext S
  with_stream ctx s = record ctx { stream_buffer = s }

  parse_from-items :
      (fuel : ℕ) (items : List Item) (p : Bytes) (ctx : TcpContext S)
      → AllItems items
      → IsPart p
      → length items ≤ fuel
      → parse_from handle fuel (with_stream ctx (sent items ++ p))
        ≡ with_stream (after_all items ctx) p
  unfolding parse_from
  parse_from-items zero [] p ctx all part h = refl
  parse_from-items (suc fuel) [] p ctx all part h =
      rw (parse_round-part handle ctx p part, parse_from) refl
  parse_from-items zero (item ∷ items) p ctx all part h = absurd (omega arith)
  parse_from-items (suc fuel) (item ∷ items) p ctx (here, all) part h =
      ap (λ s. parse_from handle (suc fuel) (with_stream ctx s))
        (append_assoc (bytes_of item) (sent items) p)
      ∙ ap
          (λ r. elim r as (λ r. TcpContext S) [
            | none ↦ with_stream ctx (bytes_of item ++ (sent items ++ p))
            | some ctx' ↦ parse_from handle fuel ctx'
          ])
          (parse_round-item handle ctx item (sent items ++ p) here)
      ∙ parse_from-items fuel items p (after handle item ctx) all part (omega arith)

  length_sent : (items : List Item) → AllItems items → length items ≤ length (sent items)
  length_sent [] all = omega arith
  length_sent (item ∷ items) (here, all) = omega (
    arith,
    length_sent items all,
    length-append (bytes_of item) (sent items),
    some_bytes item here,
  )
    where
      some_bytes : (item : Item) → IsItem item → 1 ≤ length (bytes_of item)
      some_bytes (message s) h = omega (arith, length-append s (b';' ∷ []))
      some_bytes (frame []) h = ground (arith, h.0)
      some_bytes (frame (c ∷ s)) h = omega arith

  parse_stream_buffer-items :
      (items : List Item) (p : Bytes) (ctx : TcpContext S)
      → AllItems items
      → IsPart p
      → parse_stream_buffer handle (with_stream ctx (sent items ++ p))
        ≡ with_stream (after_all items ctx) p
  unfolding parse_stream_buffer
  parse_stream_buffer-items items p ctx all part =
      parse_from-items (length (sent items ++ p)) items p ctx all part
        (omega (arith, length_sent items all, length-append (sent items) p))

  -- chunks that come one behind the other
  abbrev pub receive_all : TcpContext S → List Bytes → TcpContext S
  receive_all ctx [] = ctx
  receive_all ctx (chunk ∷ chunks) = receive_all (receive handle ctx chunk) chunks

  abbrev pub chunked : List Bytes → Bytes
  chunked [] = []
  chunked (chunk ∷ chunks) = chunk ++ chunked chunks

  after_all-append :
      (items later : List Item) (ctx : TcpContext S)
      → after_all (items ++ later) ctx ≡ after_all later (after_all items ctx)
  after_all-append [] later ctx = refl
  after_all-append (item ∷ items) later ctx = after_all-append items later (after handle item ctx)

  after_all-stream :
      (items : List Item) (ctx : TcpContext S) (s : Bytes)
      → after_all items (with_stream ctx s) ≡ with_stream (after_all items ctx) s
  after_all-stream [] ctx s = refl
  after_all-stream (message m ∷ items) ctx s =
      after_all-stream items (after handle (message m) ctx) s
  after_all-stream (frame f ∷ items) ctx s = after_all-stream items (after handle (frame f) ctx) s

  receive_all-Waits :
      (chunks : List Bytes) (items : List Item) (p : Bytes) (ctx : TcpContext S)
      → AllItems items
      → Waits p items
      → sent items ≡ p ++ chunked chunks
      → receive_all (with_stream ctx p) chunks ≡ with_stream (after_all items ctx) []
  unfolding receive append_stream
  receive_all-Waits [] [] p ctx all w e = ap (with_stream ctx) w
  receive_all-Waits [] (item ∷ items) p ctx all w e =
      absurd
        (omega (arith, ap length e, length-append (bytes_of item) (sent items), length-append p []))
  receive_all-Waits (chunk ∷ chunks) items p ctx all w e =
      let c =
        Cut-items items (p ++ chunk) (chunked chunks) all
          (e ∙ sym (append_assoc p chunk (chunked chunks))) in
      ap (λ s. receive_all (parse_stream_buffer handle (with_stream ctx s)) chunks) c.begins
      ∙ ap (λ x. receive_all x chunks)
          (parse_stream_buffer-items c.whole c.part ctx c.all_whole
            (Waits-IsPart c.later c.part (chunked chunks) c.all_later c.waits c.goes_on))
      ∙ receive_all-Waits chunks c.later c.part (after_all c.whole ctx) c.all_later c.waits
          c.goes_on
      ∙ ap (λ x. with_stream x [])
          (sym (after_all-append c.whole c.later ctx) ∙ ap (λ l. after_all l ctx) (sym c.split))

  starts_waiting : (items : List Item) → AllItems items → Waits [] items
  starts_waiting [] all = refl
  starts_waiting (message s ∷ items) all = omega (arith, length-append s (b';' ∷ []))
  starts_waiting (frame [] ∷ items) (here, all) = ground (arith, here.0)
  starts_waiting (frame (c ∷ s) ∷ items) all = omega arith

  -- However a stream of messages and frames is cut into chunks, what comes of it is the same: every message is
  -- handed over once with its semicolon and every frame is put to the audio buffer once, whole and in the
  -- order of the stream, and nothing is left in the stream buffer. Asked for is that each message
  -- starts with a letter or a digit and has at most 510 bytes before its semicolon, that each frame is as long as
  -- the size that is read off its header and does not start with a letter or a digit, and that the
  -- stream buffer was empty.
  pub receive_all_lem :
      (items : List Item) (chunks : List Bytes) (ctx : TcpContext S)
      → AllItems items
      → chunked chunks ≡ sent items
      → ctx.stream_buffer ≡ []
      → receive_all ctx chunks ≡ with_stream (after_all items ctx) []
  receive_all_lem items chunks ctx all e empty =
      ap (λ s. receive_all (with_stream ctx s) chunks) empty
      ∙ receive_all-Waits chunks items [] ctx all (starts_waiting items all) (sym e)
