-- ===== src/Spots/Outside.antt =====
-- What cw-skimmer/src/spot_reporter.c asks of the system: the answers are a parameter, one for each
-- question put in a run.
use cw_skimmer.Prelude.{ℕ, ◌+◌, Bool, List, [], ◌∷◌, ◌==◌, Option, if◌then◌else◌}
use cw_skimmer.Prelude.Bytes.{Bytes}
use cw_skimmer.Spots.{Reporter}

-- what `connect` returns: 0, EINPROGRESS, or another error
pub data Connected : Type 0 where
  at_once in_progress refused : Connected

-- what `send` returns: a number of bytes, EAGAIN or EWOULDBLOCK, or another error
pub data SendResult : Type 0 where
  taken : ℕ → SendResult
  again broken : SendResult

-- the fields of `struct tm` that are printed
pub record Tm : Type 0 where
  pub tm_year : ℕ
  pub tm_mon : ℕ
  pub tm_mday : ℕ
  pub tm_hour : ℕ
  pub tm_min : ℕ
  pub tm_sec : ℕ

pub record Answers : Type 0 where
  -- `time`, and `localtime` of it
  pub now : ℕ → ℕ
  pub local_time : ℕ → Tm
  pub socket : ℕ → Option ℕ
  -- `inet_pton` takes the host for an address; `gethostbyname` finds it
  pub is_address : ℕ → Bool
  pub resolve : ℕ → Bool
  -- `fcntl` reads the flags; `fcntl` sets them
  pub get_flags : ℕ → Bool
  pub set_flags : ℕ → Bool
  pub connect : ℕ → Connected
  -- `poll` returns more than 0; `getsockopt` succeeds; SO_ERROR is 0
  pub poll : ℕ → Bool
  pub getsockopt : ℕ → Bool
  pub no_error : ℕ → Bool
  pub send : ℕ → Bytes → SendResult
  -- what "%f" prints for a frequency divided by 1000.0, and "%+.1f" for a level
  pub khz_text : ℕ → Bytes
  pub snr_text : ℕ → Bytes

-- the object, the number of questions put, the sockets that are open, and the bytes that the server's
-- socket took, oldest first
pub record Run : Type 0 where
  pub rep : Reporter
  pub asked : ℕ
  pub sockets : List ℕ
  pub sent : List Bytes

abbrev pub asking : Run → Run
asking r = record r { asked = r.asked + 1 }

abbrev pub on_rep : Run → Reporter → Run
on_rep r rep = record r { rep = rep }

-- the sockets less the one that is closed
unfoldable pub without_fd : ℕ → List ℕ → List ℕ
without_fd fd [] = []
without_fd fd (x ∷ xs) = let rest = without_fd fd xs in if x == fd then xs else x ∷ rest
