-- ===== src/Spots.antt =====
-- The spot reporter of cw-skimmer/src/spot_reporter.c: its object and the queue of the spots that wait
-- to be sent. The pointers to the object and to a spot are not NULL.
pub mod Outside
pub mod Link
pub mod Submit
pub mod Queue
pub mod Resend
pub mod Leak
pub mod Sound
mod Tests
use cw_skimmer.Prelude.{
  ℕ, zero, suc, ◌+◌, ◌-◌, ◌%◌, Bool, true, false, List, [], ◌∷◌, ◌++◌, Option, none, some, set,
  get_or, replicate, take, length, leb, if◌then◌else◌,
}
use cw_skimmer.Prelude.Int.{ℤ, pos, negsuc}
use cw_skimmer.Prelude.Bytes.{Bytes}
use cw_skimmer.Prelude.Slots.{slots}

-- RETRY_QUEUE_MAX
abbrev pub retry_max : ℕ
retry_max = 1000

-- `spot_t`; a `float` is given by its bits, which the reporter only copies and prints
pub record Spot : Type 0 where
  pub callsign : Bytes
  pub frequency_hz : ℕ
  pub snr_db : ℕ
  pub confidence : ℕ
  pub timestamp : ℕ
  pub mode : Bytes

-- what the memory from `malloc` holds is never read before it is written: it is written as zeros
abbrev pub no_spot : Spot
no_spot = record {
  callsign = [];
  frequency_hz = 0;
  snr_db = 0;
  confidence = 0;
  timestamp = 0;
  mode = [];
}

-- `spot_reporter_t`. `socket_fd` is `none` at -1; `host` and `callsign` are the arrays with all their bytes.
pub record Reporter : Type 0 where
  pub socket_fd : Option ℕ
  pub host : Bytes
  pub port : ℤ
  pub connected : Bool
  pub callsign : Bytes
  pub retry_queue : List Spot
  pub retry_head : ℕ
  pub retry_tail : ℕ
  pub queue_size : ℕ
  pub max_queue_size : ℕ
  pub last_connect_attempt : ℕ

-- `strncpy(dst, src, n)` on the string `src`: `n` bytes, with zeros behind a shorter string
abbrev pub strncpy : Bytes → ℕ → Bytes
strncpy src n = take n src ++ replicate (n - length src) 0

-- The object, where both calls of `malloc` succeed. Its memory is not cleared: `host_left` and
-- `callsign_left` are the bytes that stand behind what `strncpy` writes.
unfoldable pub create : ℕ → ℕ → Bytes → ℤ → Bytes → Reporter
create host_left callsign_left host port callsign = record {
  socket_fd = none;
  host = strncpy host 255 ++ host_left ∷ [];
  port = port;
  connected = false;
  callsign = strncpy callsign 63 ++ callsign_left ∷ [];
  retry_queue = replicate retry_max no_spot;
  retry_head = 0;
  retry_tail = 0;
  queue_size = 0;
  max_queue_size = retry_max;
  last_connect_attempt = 0;
}

-- `spot_queue_spot`
unfoldable pub queue_spot : Reporter → Spot → ℤ × Reporter
queue_spot rep spot = if leb rep.max_queue_size rep.queue_size then (negsuc 0, rep) else (
  pos 0,
  record rep {
    retry_queue = set rep.retry_queue rep.retry_tail spot;
    retry_tail = (rep.retry_tail + 1) % rep.max_queue_size;
    queue_size = rep.queue_size + 1;
  },
)

-- `&reporter->retry_queue[reporter->retry_head]`
abbrev pub oldest : Reporter → Spot
oldest rep = get_or rep.retry_queue rep.retry_head no_spot

-- one spot less: the head moves on
unfoldable pub drop_oldest : Reporter → Reporter
drop_oldest rep = record rep {
  retry_head = (rep.retry_head + 1) % rep.max_queue_size;
  queue_size = rep.queue_size - 1;
}

unfoldable pub queue_length : Reporter → ℕ
queue_length rep = rep.queue_size

-- the spots that wait, oldest first
abbrev pub waiting : Reporter → List Spot
waiting rep = slots no_spot rep.retry_queue retry_max rep.retry_head rep.queue_size
