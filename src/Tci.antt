-- ===== src/Tci.antt =====
-- The TCP stream of cw-skimmer/src/tci_client.c: text messages that end with a semicolon and binary frames, one
-- behind the other in one stream of bytes (cw-skimmer/src/tci_stream.h). What is done with a text message is a
-- parameter. The machine is little-endian, memory is there, and the context is not NULL.
pub mod Items
pub mod Rounds
pub mod Stream
pub mod Ends
pub mod Samples
pub mod SampleRing
mod Tests
mod SampleTests
use cw_skimmer.Prelude.{
  ℕ, zero, suc, ◌+◌, ◌-◌, ◌*◌, Bool, true, false, ◌&&◌, ◌||◌, List, [], ◌∷◌, ◌++◌, Option, none,
  some, length, take, drop, get_or, ltb, leb, ◌==◌, if◌then◌else◌,
}
use cw_skimmer.Prelude.Bytes.{Bytes}
use cw_skimmer.Libc.Chars.{within}

-- TCI_STREAM_HEADER_SIZE, TCI_AUDIO_RX_FRAME_MAX_BYTES and sizeof msg
abbrev pub header_size : ℕ
header_size = 64

abbrev pub frame_max_bytes : ℕ
frame_max_bytes = 4_160

abbrev pub msg_size : ℕ
msg_size = 512

-- the `uint32_t` at an index, and the fields of `tci_stream_header_t` that are read
abbrev pub le32 : Bytes → ℕ → ℕ
le32 s i =
    get_or s i 0
    + 256 * get_or s (i + 1) 0
    + 65_536 * get_or s (i + 2) 0
    + 16_777_216 * get_or s (i + 3) 0

abbrev pub header_length : Bytes → ℕ
header_length s = le32 s 20

abbrev pub header_type : Bytes → ℕ
header_type s = le32 s 24

-- `tci_is_iq_stream_type` and `tci_is_text_start`
abbrev pub is_iq_stream_type : ℕ → Bool
is_iq_stream_type t = t == 0 || t == 1

abbrev pub is_text_start : ℕ → Bool
is_text_start c = within b'A' b'Z' c || within b'a' b'z' c || within b'0' b'9' c

-- `tci_tcp_binary_frame_size`
unfoldable pub binary_frame_size : Bytes → ℕ
binary_frame_size s =
    if ltb (length s) header_size
    then 0
    else if is_iq_stream_type (header_type s)
    then (if ltb 0 (header_length s)
          && leb (header_size + header_length s * 4) (frame_max_bytes + 1024)
        then header_size + header_length s * 4
        else frame_max_bytes)
    else 0

-- the text up to its semicolon, with it
unfoldable pub through_semicolon : Bytes → Option Bytes
through_semicolon [] = none
through_semicolon (c ∷ s) =
    if c == b';'
    then some (c ∷ [])
    else elim (through_semicolon s) [ none ↦ none | some msg ↦ some (c ∷ msg) ]

-- `tci_tcp_consume_stream`
unfoldable pub consume_stream : ℕ → Bytes → Bytes
consume_stream count s = if leb (length s) count then [] else drop count s

-- `tci_tcp_context_t`, with what the text messages have left in the client
pub record TcpContext (S : Type 0) : Type 0 where
  pub client : S
  pub stream_buffer : Bytes
  pub audio_buffer : Bytes

module _ {S : Type 0} (parse_text_response : S → Bytes → S) where
  -- `tci_tcp_append_stream`
  unfoldable pub append_stream : TcpContext S → Bytes → TcpContext S
  append_stream ctx bytes = record ctx { stream_buffer = ctx.stream_buffer ++ bytes }

  -- a text message at the front of the stream
  unfoldable pub take_text : TcpContext S → Option (TcpContext S)
  unfolding through_semicolon consume_stream
  take_text ctx = elim (through_semicolon ctx.stream_buffer) [
    | none ↦ none
    | some line ↦ some (record ctx {
      client = parse_text_response ctx.client (take (msg_size - 1) line);
      stream_buffer = consume_stream (length (take (msg_size - 1) line)) ctx.stream_buffer;
    })
  ]

  -- a frame at the front of the stream
  unfoldable pub take_frame : TcpContext S → Option (TcpContext S)
  unfolding binary_frame_size consume_stream
  take_frame ctx =
      let frame_size = binary_frame_size ctx.stream_buffer in
      if leb frame_size 0 || ltb (length ctx.stream_buffer) frame_size
      then none
      else some (record ctx {
        audio_buffer = ctx.audio_buffer ++ take frame_size ctx.stream_buffer;
        stream_buffer = consume_stream frame_size ctx.stream_buffer;
      })

  -- a round of the loop of `tci_tcp_parse_stream_buffer`; `none` where the loop ends
  unfoldable pub parse_round : TcpContext S → Option (TcpContext S)
  unfolding take_text take_frame
  parse_round ctx = elim ctx.stream_buffer [
    | [] ↦ none
    | first ∷ rest ↦ if is_text_start first then take_text ctx else take_frame ctx
  ]

  unfoldable pub parse_from : ℕ → TcpContext S → TcpContext S
  unfolding parse_round
  parse_from zero ctx = ctx
  parse_from (suc fuel) ctx = elim (parse_round ctx) [
    | none ↦ ctx
    | some ctx' ↦ parse_from fuel ctx'
  ]

  -- `tci_tcp_parse_stream_buffer`: a round takes a byte at least
  unfoldable pub parse_stream_buffer : TcpContext S → TcpContext S
  unfolding parse_from
  parse_stream_buffer ctx = parse_from (length ctx.stream_buffer) ctx

  -- what `tci_tcp_service` does with a chunk that it has read
  unfoldable pub receive : TcpContext S → Bytes → TcpContext S
  unfolding append_stream parse_stream_buffer
  receive ctx chunk = parse_stream_buffer (append_stream ctx chunk)
