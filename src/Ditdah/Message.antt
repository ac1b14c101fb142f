-- ===== src/Ditdah/Message.antt =====
-- `decode_with_params` of cw-skimmer/src/ditdah_decoder.c on the signal of a keyed message.
use cw_skimmer.Prelude.{
  ℕ, zero, suc, ◌+◌, ◌-◌, ◌≤◌, ◌<◌, ◌≡◌, refl, ap, ◌∙◌, Bool, true, false, List, [], ◌∷◌, ◌++◌,
  append_assoc, arith, length, replicate, take, ltb, lt→ltb,
}
use cw_skimmer.Prelude.Bytes.{Bytes}
use cw_skimmer.Libc.Floats.{Floats}
use cw_skimmer.Ditdah.{max_intervals}
use cw_skimmer.Ditdah.Signal.{Intervals, intervals_of, get_raw_intervals, above}
use cw_skimmer.Ditdah.Runs.{add_to, runs_of, lengths, intervals_of_lem}
use cw_skimmer.Ditdah.Letters.{
  Letters, end_letter, read_samples, finish, decode_signal, dot_length, decode_intervals,
  decode_with_params,
}
use cw_skimmer.Ditdah.Keying.{
  Element, gap, letter_marks, Letter, code, text_of, last_of, message_marks, keyed, AllShort,
}
use cw_skimmer.Ditdah.Marks.{AllPositive, read_off}
use cw_skimmer.Ditdah.ReadBack.{IsExact, at, read_all, length-text_of, message_marks-AllPositive}

-- The on lengths of a signal of marks.
abbrev pub ons : List (ℕ × ℕ) → List ℕ
ons [] = []
ons ((on, off) ∷ marks) = on ∷ ons marks

lengths-add_to : (runs : List (Bool × ℕ)) → lengths true (add_to false runs) ≡ lengths true runs
lengths-add_to [] = refl
lengths-add_to ((true, n) ∷ runs) = refl
lengths-add_to ((false, n) ∷ runs) = refl

lengths-silence :
    (n : ℕ) (bs : List Bool)
    → lengths true (runs_of (replicate n false ++ bs)) ≡ lengths true (runs_of bs)
lengths-silence zero bs = refl
lengths-silence (suc n) bs =
    lengths-add_to (runs_of (replicate n false ++ bs)) ∙ lengths-silence n bs

add_to-other :
    (runs : List (Bool × ℕ)) → add_to true (add_to false runs) ≡ (true, 1) ∷ add_to false runs
add_to-other [] = refl
add_to-other ((true, n) ∷ runs) = refl
add_to-other ((false, n) ∷ runs) = refl

runs_of-tone :
    (n : ℕ) (bs : List Bool)
    → runs_of (replicate (suc n) true ++ false ∷ bs) ≡ (true, suc n) ∷ runs_of (false ∷ bs)
runs_of-tone zero bs = add_to-other (runs_of bs)
runs_of-tone (suc n) bs =
    ap (add_to true) (runs_of-tone n bs) ∙ ap (λ k. (true, k) ∷ runs_of (false ∷ bs)) (omega arith)

lengths-keyed :
    (marks : List (ℕ × ℕ)) → AllPositive marks → lengths true (runs_of (keyed marks)) ≡ ons marks
lengths-keyed [] h = refl
lengths-keyed ((zero, off) ∷ marks) (h, h', all) = absurd (omega arith)
lengths-keyed ((suc on, zero) ∷ marks) (h, h', all) = absurd (omega arith)
lengths-keyed ((suc on, suc off) ∷ marks) (h, h', all) =
    ap (lengths true) (runs_of-tone on (replicate off false ++ keyed marks))
    ∙ ap (◌∷◌ (suc on)) (lengths-silence (suc off) (keyed marks) ∙ lengths-keyed marks all)

module _ {F : Type 0} (float : Floats F) where
  finish_lem :
      (out_max pending_max : ℕ) (st : Letters) (letter text : Bytes)
      → st.letter ≡ letter
      → (end_letter out_max st).out ≡ text
      → 1 ≤ length text
      → finish out_max pending_max st ≡ (true, text, take (pending_max - 1) letter)
  unfolding finish
  finish_lem out_max pending_max st letter text e e' h =
      ap (λ out. (ltb 0 (length out), out, take (pending_max - 1) st.letter)) e'
      ∙ ap (λ s. (ltb 0 (length text), text, take (pending_max - 1) s)) e
      ∙ ap (λ b. (b, text, take (pending_max - 1) letter)) (lt→ltb 0 (length text) h)

  decode_signal_lem :
      (threshold dot : F) (d : ℕ) (exact : IsExact float dot d) (silence out_max pending_max : ℕ)
      (l : Letter) (ls : List Letter)
      → float.less threshold (float.dec 0 0) ≡ false
      → length (text_of l ls) < out_max
      → AllShort (l ∷ ls)
      → decode_signal float
          (replicate (suc silence) false ++ keyed (message_marks d (l ∷ ls)))
          threshold
          dot
          out_max
          pending_max
        ≡ (true, text_of l ls, take (pending_max - 1) (code (last_of l ls)))
  unfolding decode_signal
  decode_signal_lem threshold dot d exact silence out_max pending_max l ls zero_off h short =
      let (open_code, text) = read_all float out_max dot d exact (suc silence) l ls h short in
      rw zero_off (
        ap (finish out_max pending_max) (
          ap (read_samples float out_max dot false 0 (at [] [])) (
            append_assoc (replicate (suc silence) false) (keyed (message_marks d (l ∷ ls)))
              (false ∷ []))
          ∙ read_off float out_max dot (suc silence) 0 (at [] [])
              (keyed (message_marks d (l ∷ ls)) ++ false ∷ [])
          ∙ ap
              (λ n.
                read_samples float out_max dot false n (at [] [])
                  (keyed (message_marks d (l ∷ ls)) ++ false ∷ []))
              {x = 0 + suc silence} {y = suc silence} (omega arith))
        ∙ finish_lem out_max pending_max _ (code (last_of l ls)) (text_of l ls) open_code text
            (length-text_of float out_max dot d exact l ls))

  -- the lengths that `get_raw_intervals` finds
  intervals-ons :
      (d silence : ℕ) (ms : List Letter)
      → AllPositive (message_marks d ms)
      → (intervals_of (replicate silence false ++ keyed (message_marks d ms))).on
        ≡ take max_intervals (ons (message_marks d ms))
  intervals-ons d silence ms all =
      ap (λ (iv : Intervals). iv.on)
        (intervals_of_lem (replicate silence false ++ keyed (message_marks d ms)))
      ∙ ap (take max_intervals) (
          lengths-silence silence (keyed (message_marks d ms))
          ∙ lengths-keyed (message_marks d ms) all)

  -- no message is silent
  ons_some :
      (d g : ℕ) (e : Element) (es : List Element) (marks : List (ℕ × ℕ))
      → 1 ≤ length (take max_intervals (ons (letter_marks d g e es ++ marks)))
  ons_some d g e [] marks = omega arith
  ons_some d g e (f ∷ es) marks = omega arith

  decode_intervals-some :
      (on : List ℕ) (signal : List Bool) (threshold : F) (out_max pending_max : ℕ)
      → 1 ≤ length on
      → decode_intervals float on signal threshold out_max pending_max
        ≡ decode_signal float signal threshold (dot_length float on) out_max pending_max
  unfolding decode_intervals
  decode_intervals-some [] signal threshold out_max pending_max h = absurd (omega arith)
  decode_intervals-some (n ∷ on) signal threshold out_max pending_max h = refl

  -- A message keyed at `d` samples to a dot, behind some silence, is read back: the result says that there is
  -- text, the text is that of the message, its letters as the code has them or a question mark, with a
  -- blank between words, and the open code is that of the last letter. Asked for is that the threshold
  -- is not below 0, that the length estimated for a dot is right (which is told by the message's on
  -- lengths, of which the first 512 count), that no letter has more than 15 elements, and that the text
  -- fits its buffer.
  pub decode_with_params-text :
      (power : List F) (threshold : F) (d silence out_max pending_max : ℕ) (l : Letter)
      (ls : List Letter)
      → above float threshold power
        ≡ replicate (suc silence) false ++ keyed (message_marks d (l ∷ ls))
      → float.less threshold (float.dec 0 0) ≡ false
      → IsExact float (dot_length float (take max_intervals (ons (message_marks d (l ∷ ls))))) d
      → length (text_of l ls) < out_max
      → AllShort (l ∷ ls)
      → decode_with_params float power threshold out_max pending_max
        ≡ (true, text_of l ls, take (pending_max - 1) (code (last_of l ls)))
  unfolding decode_with_params get_raw_intervals
  decode_with_params-text power threshold d silence out_max pending_max l ls e zero_off exact h
        short =
      let on : List ℕ = take max_intervals (ons (message_marks d (l ∷ ls))) in
      let all = message_marks-AllPositive float out_max (dot_length float on) d exact (l ∷ ls) in
      rw (e, intervals-ons d (suc silence) (l ∷ ls) all)
        (decode_intervals-some on _ threshold out_max pending_max
            (ons_some d (gap d l.ends_word) l.first l.rest (message_marks d ls))
          ∙ decode_signal_lem threshold (dot_length float on) d exact silence out_max pending_max l
              ls zero_off h short)
