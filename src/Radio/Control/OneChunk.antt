-- ===== src/Radio/Control/OneChunk.antt =====
-- One chunk of the backlog that `rc_ky_service` of cw-skimmer/src/radio_control.c hands to the keyer.
use cw_skimmer.Prelude.{
  ℕ, zero, suc, ◌+◌, ◌≡◌, ◌↔◌, refl, sym, ap, ◌∙◌, Bool, true, false, ◌==◌, List, [], ◌∷◌, ◌++◌,
  append-nil, Option, none, some, arith, length, take, take_of_le, drop, drop-drop, inl, inr,
  Bool-cases, if◌then◌else◌,
}
use cw_skimmer.Prelude.Bytes.{Bytes}
use cw_skimmer.Radio.Text.{chunk_size, chunk_text}
use cw_skimmer.Radio.Control.{RadioControl, ky_close}
use cw_skimmer.Radio.Control.Outside.{Answers, Sent, to_ky, Run}
use cw_skimmer.Radio.Control.Keyer.{write_done, write_to, ky_write, try_chunk}
use cw_skimmer.Radio.Control.Lines.{try_chunk-inside}

-- The bytes of a command that have gone out, by the answer of `send`.
abbrev pub gone_out : Option ℕ → Bytes → List Sent
gone_out none cmd = []
gone_out (some n) cmd = to_ky (take n cmd) ∷ []

drop_taken : {A : Type 0} (n : ℕ) (xs : List A) → drop (length (take n xs)) xs ≡ drop n xs
drop_taken zero [] = refl
drop_taken zero (x ∷ xs) = refl
drop_taken (suc n) [] = refl
drop_taken (suc n) (x ∷ xs) = drop_taken n xs

taken_all : (n m : ℕ) → (n == m) ≡ true → (true ≡ true) ↔ (some n ≡ some m)
taken_all n m h = ground arith

taken_some : (n m : ℕ) → (n == m) ≡ false → (false ≡ true) ↔ (some n ≡ some m)
taken_some n m h = ground arith

equal_of : (n m : ℕ) → (n == m) ≡ true → n ≡ m
equal_of n m h = ground arith

write_done_lem :
    (r : Run) (cmd : Bytes) (answer : Option ℕ)
    → let (ok, r') = write_done r cmd answer in
      ((ok ≡ true) ↔ (answer ≡ some (length cmd)))
      × (r'.rc ≡ (if ok then r.rc else ky_close r.rc))
      × (r'.sent ≡ r.sent ++ gone_out answer cmd)
unfolding write_done
write_done_lem r cmd none = (ground arith, refl, sym (append-nil r.sent))
write_done_lem r cmd (some n) = elim (Bool-cases (n == length cmd)) [
  | inl all ↦ rw all (
    taken_all n (length cmd) all,
    refl,
    ap (λ c. r.sent ++ to_ky c ∷ [])
        (sym (take_of_le n cmd (omega (arith, equal_of n (length cmd) all)))),
  )
  | inr part ↦ rw part (taken_some n (length cmd) part, refl, refl)
]

ky_write-open :
    (answers : Answers) (r : Run) (cmd : Bytes) (fd : ℕ)
    → r.rc.ky_fd ≡ some fd
    → ky_write answers r cmd
      ≡ write_done (record r { asked = r.asked + 1 }) cmd (answers.ky_sent r.asked cmd)
unfolding ky_write write_to
ky_write-open answers r cmd fd e = ap (write_to answers r cmd) e

-- closing the connection leaves the backlog alone
left_kept :
    (ok : Bool) (rc rc' : RadioControl)
    → rc' ≡ (if ok then rc else ky_close rc)
    → drop rc'.ky_pos rc'.ky_backlog ≡ drop rc.ky_pos rc.ky_backlog
unfolding ky_close
left_kept true rc rc' e = ap (λ (o : RadioControl). drop o.ky_pos o.ky_backlog) e
left_kept false rc rc' e = ap (λ (o : RadioControl). drop o.ky_pos o.ky_backlog) e

-- Where text is left behind the place in the backlog, the next 24 bytes of it, or all that is left,
-- are handed to the socket as one command. The place is moved behind them whatever the socket
-- answers, so what is still to be sent is the text behind these bytes, and they are not sent again.
-- If the socket takes the whole command, the connection stays; else it is closed, and of the command
-- just the bytes that the socket took have gone out, or none after an error.
pub try_chunk_lem :
    (answers : Answers) (r : Run) (fd c : ℕ) (rest : List ℕ)
    → r.rc.ky_fd ≡ some fd
    → drop r.rc.ky_pos r.rc.ky_backlog ≡ c ∷ rest
    → let part = take chunk_size (c ∷ rest) in
      let cmd = chunk_text part in
      let moved = record r.rc { ky_pos = r.rc.ky_pos + length part } in
      let answer = answers.ky_sent r.asked cmd in
      let (ok, r') = try_chunk answers r in
      ((ok ≡ true) ↔ (answer ≡ some (length cmd)))
      × (r'.rc ≡ (if ok then moved else ky_close moved))
      × (r'.sent ≡ r.sent ++ gone_out answer cmd)
      × (drop r'.rc.ky_pos r'.rc.ky_backlog ≡ drop chunk_size (c ∷ rest))
try_chunk_lem answers r fd c rest open_fd e =
    let part = take chunk_size (c ∷ rest) in
    let moved = record r.rc { ky_pos = r.rc.ky_pos + length part } in
    let (whole, object, out) =
      write_done_lem (record r { rc = moved; asked = r.asked + 1 }) (chunk_text part)
        (answers.ky_sent r.asked (chunk_text part)) in
    rw
      (try_chunk-inside answers r c rest e
        ∙ ky_write-open answers (record r { rc = moved }) (chunk_text part) fd open_fd)
      (
        whole,
        object,
        out,
        left_kept _ moved _ object
            ∙ sym (drop-drop r.rc.ky_pos (length part) r.rc.ky_backlog)
            ∙ ap (drop (length part)) e
            ∙ drop_taken chunk_size (c ∷ rest),
      )
