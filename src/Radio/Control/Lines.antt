-- ===== src/Radio/Control/Lines.antt =====
-- The loop of `rc_ky_service` (cw-skimmer/src/radio_control.c) over the lines that the keyer sent: it
-- ends, and keeps the object sound.
use cw_skimmer.Prelude.{
  ℕ, zero, suc, ◌+◌, ◌≤◌, ◌<◌, ◌≡◌, ◌⊎◌, refl, ap, Bool, true, false, [], ◌∷◌, Option, none, some,
  arith, length, length-take, length-drop, take, drop, inl, inr, Bool-cases, Option-cases, lt→ltb,
  leb,
}
use cw_skimmer.Prelude.Int.{ℤ, pos, negsuc}
use cw_skimmer.Prelude.Bytes.{Bytes}
use cw_skimmer.Libc.Search.{strchr, before_chr}
use cw_skimmer.Radio.Text.{chunk_size, chunk_text, ky_status}
use cw_skimmer.Radio.Text.Chunks.{ky_chunk-inside}
use cw_skimmer.Radio.Control.{RadioControl, KyState, down, connecting, ready}
use cw_skimmer.Radio.Control.Outside.{Answers, Run, asking, on_rc}
use cw_skimmer.Radio.Control.Keyer.{
  write_done, write_to, ky_write, wait_ms, take_line, drop_sent, send_chunk, try_chunk, after_chunk,
  serve_free, serve_status, serve_line, on_status, on_line, round, serve_lines, cmd_size,
}
use cw_skimmer.Radio.Control.KeyerSound.{KySound, ky_write-KySound, wait_ms-KySound, reconnect}

before_chr-le : (s : Bytes) (c : ℕ) → length (before_chr s c) ≤ length s
unfolding before_chr
before_chr-le [] c = omega arith
before_chr-le (x ∷ s) c = ground (arith, before_chr-le s c)

strchr-lt :
    (s : Bytes) (c : ℕ) {r : Bytes} → strchr s c ≡ some r → length (before_chr s c) < length s
unfolding strchr before_chr
strchr-lt [] c h = cc
strchr-lt (x ∷ s) c {r} h = ground (arith, strchr-lt s c {r = r})

-- A line that was taken is gone from what was received; with none, nothing changes.
record Takes (rc : RadioControl) (out : Bytes × RadioControl) : Type 0 where
  keeps : out.1 ≡ record rc { ky_rx = out.1.ky_rx }
  shrinks : length out.1.ky_rx ≤ length rc.ky_rx
  shorter : out.0 ≡ [] ⊎ (length out.1.ky_rx < length rc.ky_rx)

take_line-Takes : (rc : RadioControl) → Takes rc (take_line rc)
unfolding take_line
take_line-Takes rc = elim (Option-cases (strchr (before_chr rc.ky_rx 0) b';')) [
  | inl absent ↦
      rw (absent, take_line) (record { keeps = refl; shrinks = omega arith; shorter = inl refl })
  | inr (r, found) ↦
      let cut : length (drop (length (before_chr (before_chr rc.ky_rx 0) b';') + 1) rc.ky_rx)
          < length rc.ky_rx =
        omega (
          arith,
          before_chr-le rc.ky_rx 0,
          strchr-lt (before_chr rc.ky_rx 0) b';' found,
          length-drop (length (before_chr (before_chr rc.ky_rx 0) b';') + 1) rc.ky_rx,
        ) in
      rw (found, take_line) (record { keeps = refl; shrinks = omega arith; shorter = inr cut })
]

-- What serving a line does to the object: it stays sound, and nothing is received meanwhile.
pub record Serves (r r' : Run) : Type 0 where
  pub sound : KySound r → KySound r'
  pub rx : length r'.rc.ky_rx ≤ length r.rc.ky_rx

Serves-trans : {r s t : Run} → Serves r s → Serves s t → Serves r t
Serves-trans a b = record { sound = λ v. b.sound (a.sound v); rx = omega (arith, a.rx, b.rx) }

-- Another place in the backlog, inside it, and no more of what was received.
at_place :
    (r : Run) (backlog : Bytes) (p : ℕ)
    → (length r.rc.ky_backlog < 1024 → length backlog < 1024)
    → p ≤ length backlog
    → Serves r (on_rc r (record r.rc { ky_backlog = backlog; ky_pos = p }))
at_place r backlog p fits h = record {
  sound = λ v. record {
    sound = record {
      queue_valid = v.sound.queue_valid;
      one_tuning = v.sound.one_tuning;
      slow = v.sound.slow;
      fast = v.sound.fast;
      rx_fits = v.sound.rx_fits;
      backlog_fits = fits v.sound.backlog_fits;
      inside = h;
      socket = v.sound.socket;
      idle = v.sound.idle;
    };
    in_ky = v.in_ky;
  };
  rx = omega arith;
}

-- The keyer's answer has come, or the connection's times have moved.
answered : (r : Run) → Serves r (on_rc r (record r.rc { ky_awaiting = false }))
answered r = record {
  sound = λ v. record {
    sound =
        reconnect r.rc r.rc.ky_fd r.rc.ky_state r.rc.ky_rx false r.rc.ky_warned r.rc.ky_next_ms
          v.sound v.in_ky v.sound.rx_fits v.sound.socket;
    in_ky = v.in_ky;
  };
  rx = omega arith;
}

drop_sent-Serves : (r : Run) → Serves r (on_rc r (drop_sent r.rc))
unfolding drop_sent
drop_sent-Serves r = elim (Bool-cases (leb (length r.rc.ky_backlog) r.rc.ky_pos)) [
  | inl over ↦ rw over (at_place r [] 0 (λ h. omega arith) (omega arith))
  | inr left ↦ rw left (record { sound = λ v. v; rx = omega arith })
]

module _ (answers : Answers) where
  write_done-rx :
      (r : Run) (cmd : Bytes) (answer : Option ℕ)
      → length (write_done r cmd answer).1.rc.ky_rx ≤ length r.rc.ky_rx
  unfolding write_done
  write_done-rx r cmd none = omega arith
  write_done-rx r cmd (some n) = ground arith

  write_to-rx :
      (r : Run) (cmd : Bytes) (fd : Option ℕ)
      → length (write_to answers r cmd fd).1.rc.ky_rx ≤ length r.rc.ky_rx
  unfolding write_to
  write_to-rx r cmd none = omega arith
  write_to-rx r cmd (some fd) = write_done-rx (asking r) cmd (answers.ky_sent r.asked cmd)

  ky_write-Serves : (r : Run) (cmd : Bytes) → Serves r (ky_write answers r cmd).1
  ky_write-Serves r cmd = record {
    sound = ky_write-KySound answers r cmd;
    rx = unfold ky_write in write_to-rx r cmd r.rc.ky_fd;
  }

  wait_ms-Serves : (r : Run) (n : ℕ) → Serves r (wait_ms answers r n)
  wait_ms-Serves r n = record {
    sound = wait_ms-KySound answers r n;
    rx = unfold wait_ms in omega arith;
  }

  -- a chunk at a place inside the backlog: the part sent, and the place behind it
  pub try_chunk-inside :
      (r : Run) (c : ℕ) (rest : Bytes)
      → drop r.rc.ky_pos r.rc.ky_backlog ≡ c ∷ rest
      → let part = take chunk_size (c ∷ rest) in
        try_chunk answers r
        ≡ ky_write answers
            (on_rc r (record r.rc { ky_pos = r.rc.ky_pos + length part }))
            (chunk_text part)
  unfolding try_chunk send_chunk
  try_chunk-inside r c rest e =
      let more : r.rc.ky_pos < length r.rc.ky_backlog =
        omega (arith, ap length e, length-drop r.rc.ky_pos r.rc.ky_backlog) in
      rw (
        lt→ltb r.rc.ky_pos (length r.rc.ky_backlog) more,
        ky_chunk-inside r.rc.ky_backlog [] r.rc.ky_pos cmd_size c rest e (omega arith),
      )

  pub try_chunk-end :
      (r : Run) → length r.rc.ky_backlog ≤ r.rc.ky_pos → try_chunk answers r ≡ (true, r)
  unfolding try_chunk
  try_chunk-end r h = ground arith

  try_chunk-Serves :
      (r : Run) (rest : Bytes)
      → drop r.rc.ky_pos r.rc.ky_backlog ≡ rest
      → r.rc.ky_pos ≤ length r.rc.ky_backlog
      → Serves r (try_chunk answers r).1
  try_chunk-Serves r [] e h =
      rw (try_chunk-end r (omega (arith, ap length e, length-drop r.rc.ky_pos r.rc.ky_backlog)))
        (record { sound = λ v. v; rx = omega arith })
  try_chunk-Serves r (c ∷ rest) e h = rw (try_chunk-inside r c rest e) (
      Serves-trans
        (at_place r r.rc.ky_backlog (r.rc.ky_pos + length (take chunk_size (c ∷ rest))) (λ b. b)
          (omega (
            arith,
            ap length e,
            length-drop r.rc.ky_pos r.rc.ky_backlog,
            length-take chunk_size (c ∷ rest),
          )))
        (ky_write-Serves _ _))

  after_chunk-Serves :
      (r : Run) (out : Bool × Run) → Serves r out.1 → Serves r (after_chunk answers out).1
  after_chunk-Serves r (true, r') s = Serves-trans s (drop_sent-Serves r')
  after_chunk-Serves r (false, r') s = s

  serve_status-Serves :
      (r : Run) (st : ℤ)
      → r.rc.ky_pos ≤ length r.rc.ky_backlog
      → Serves r (serve_status answers r st).1
  unfolding serve_status serve_free
  serve_status-Serves r (negsuc n) h = record { sound = λ v. v; rx = omega arith }
  serve_status-Serves r (pos (suc zero)) h = Serves-trans (answered r) (wait_ms-Serves _ 40)
  serve_status-Serves r (pos zero) h =
      Serves-trans (answered r)
        (after_chunk-Serves _ (try_chunk answers _) (try_chunk-Serves _ _ refl h))
  serve_status-Serves r (pos (suc (suc n))) h =
      Serves-trans (answered r)
        (after_chunk-Serves _ (try_chunk answers _) (try_chunk-Serves _ _ refl h))

-- The loop returned, and left a sound object.
abbrev pub Ends : Option (Bool × Run) → Type 0
Ends none = ⊥
Ends (some (going, r)) = KySound r

Takes-KySound :
    (r : Run) (rc' : RadioControl)
    → rc' ≡ record r.rc { ky_rx = rc'.ky_rx }
    → length rc'.ky_rx ≤ length r.rc.ky_rx
    → KySound r
    → KySound (on_rc r rc')
Takes-KySound r rc' e h v = rw e (record {
  sound =
      reconnect r.rc r.rc.ky_fd r.rc.ky_state rc'.ky_rx r.rc.ky_awaiting r.rc.ky_warned
        r.rc.ky_next_ms v.sound v.in_ky (omega (arith, h, v.sound.rx_fits)) v.sound.socket;
  in_ky = v.in_ky;
})

module _ (answers : Answers) (next : Run → Option (Bool × Run)) (n : ℕ) where
  on_status-Ends :
      (out : Bool × Run)
      → length out.1.rc.ky_rx < n
      → KySound out.1
      → ((r' : Run) → length r'.rc.ky_rx < n → KySound r' → Ends (next r'))
      → Ends (on_status answers next out)
  on_status-Ends (true, r) h v ih = ih r h v
  on_status-Ends (false, r) h v ih = v

  on_line-Ends :
      (r : Run) (line : Bytes)
      → (line ≡ []) ⊎ (length r.rc.ky_rx < n)
      → KySound r
      → ((r' : Run) → length r'.rc.ky_rx < n → KySound r' → Ends (next r'))
      → Ends (on_line answers next r line)
  on_line-Ends r [] h v ih = v
  on_line-Ends r (c ∷ line) (inl e) v ih = cc
  on_line-Ends r (c ∷ line) (inr h) v ih =
      let done = serve_status-Serves answers r (ky_status (some (c ∷ line))) v.sound.inside in
      unfold serve_line in on_status-Ends _ (omega (arith, done.rx)) (done.sound v) ih

  round-Ends :
      (r : Run) (st : KyState)
      → length r.rc.ky_rx ≤ n
      → KySound r
      → ((r' : Run) → length r'.rc.ky_rx < n → KySound r' → Ends (next r'))
      → Ends (round answers next r st)
  round-Ends r down h v ih = v
  round-Ends r connecting h v ih = v
  round-Ends r ready h v ih =
      let t = take_line-Takes r.rc in
      on_line-Ends _ (take_line r.rc).0 (shorter t.shorter)
        (Takes-KySound r (take_line r.rc).1 t.keeps t.shrinks v) ih
    where
      shorter :
          {line : Bytes} {m : ℕ} → (line ≡ []) ⊎ (m < length r.rc.ky_rx) → (line ≡ []) ⊎ (m < n)
      shorter (inl e) = inl e
      shorter (inr l) = inr (omega arith)

-- With fuel for one round more than bytes were received the loop over the keyer's lines returns,
-- whatever the keyer sent and whatever the system answers, and the object it leaves is sound.
pub serve_lines_total :
    (answers : Answers) (fuel : ℕ) (r : Run)
    → length r.rc.ky_rx < fuel
    → KySound r
    → Ends (serve_lines answers fuel r)
unfolding serve_lines
serve_lines_total answers zero r h v = absurd (omega arith)
serve_lines_total answers (suc fuel) r h v =
    round-Ends answers (λ r'. serve_lines answers fuel r') (length r.rc.ky_rx) r r.rc.ky_state
      (omega arith) v (λ r' h' v'. serve_lines_total answers fuel r' (omega (arith, h')) v')
