-- ===== src/Radio/Control/Outside.antt =====
-- What cw-skimmer/src/radio_control.c asks of the system and of the TCI client, and a record of what
-- it sent. The system's answers are a parameter: `answers` gives, for the n-th question put in a run,
-- what each call returns if that is the call made.
use cw_skimmer.Prelude.{ℕ, ◌+◌, Bool, List, [], ◌∷◌, ◌++◌, Option}
use cw_skimmer.Prelude.Bytes.{Bytes}
use cw_skimmer.Radio.Control.{RadioControl}

-- what `connect` on a socket that does not block returns
pub data Connected : Type 0 where
  at_once in_progress refused : Connected

-- what `recv` returns: 0, an error, EAGAIN, or bytes
pub data Received : Type 0 where
  closed failed nothing : Received
  bytes : Bytes → Received

pub record Answers : Type 0 where
  pub now_ms : ℕ → ℕ
  pub resolve : ℕ → Bool
  pub open_socket : ℕ → Option ℕ
  pub connect : ℕ → Connected
  pub writable : ℕ → Bool
  pub connect_failed : ℕ → Bool
  pub receive : ℕ → Received
  -- how many of the bytes `send` on the KY socket took, or `none` for an error
  pub ky_sent : ℕ → Bytes → Option ℕ

-- A command handed to `tci_send_command`, whose result the code only logs, and the bytes that the
-- KY socket took.
pub data Sent : Type 0 where
  to_tci : Bytes → Sent
  to_ky : Bytes → Sent

-- the object, the number of questions put, and what was sent, oldest first
pub record Run : Type 0 where
  pub rc : RadioControl
  pub asked : ℕ
  pub sent : List Sent

abbrev pub asking : Run → Run
asking r = record r { asked = r.asked + 1 }

abbrev pub on_rc : Run → RadioControl → Run
on_rc r rc' = record r { rc = rc' }

unfoldable pub send_tci : Run → Bytes → Run
send_tci r [] = r
send_tci r (c ∷ s) = record r { sent = r.sent ++ to_tci (c ∷ s) ∷ [] }
