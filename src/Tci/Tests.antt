-- ===== src/Tci/Tests.antt =====
-- Runs of the stream parser of cw-skimmer/src/tci_client.c.
use cw_skimmer.Prelude.{◌≡◌, refl, List, [], ◌∷◌, ◌++◌, none, arith, replicate, drop, take}
use cw_skimmer.Prelude.Bytes.{Bytes, codes}
use cw_skimmer.Tci.{
  TcpContext, binary_frame_size, through_semicolon, consume_stream, take_text, take_frame,
  parse_round, parse_from, parse_stream_buffer,
}
use cw_skimmer.Tci.Items.{Item, message, frame}
use cw_skimmer.Tci.Stream.{sent, AllItems, receive_all, receive_all_lem}
use cw_skimmer.Tci.Ends.{parse_stream_buffer-ends}

-- the messages that came, the last one first
abbrev keep : List Bytes → Bytes → List Bytes
keep lines line = line ∷ lines

-- a frame with one pair of samples
abbrev small_frame : Bytes
small_frame =
    replicate 20 0 ++ (2 ∷ 0 ∷ 0 ∷ 0 ∷ []) ++ replicate 40 0 ++ (1 ∷ 2 ∷ 3 ∷ 4 ∷ 5 ∷ 6 ∷ 7 ∷ 8 ∷ [])

abbrev items : List Item
items =
    message (codes "dds:0,14074000") ∷ frame small_frame ∷ message (codes "vfo:0,0,14074000") ∷ []

-- cut inside the first message and inside the frame
abbrev chunks : List Bytes
chunks = take 5 (sent items) ∷ take 30 (drop 5 (sent items)) ∷ drop 35 (sent items) ∷ []

abbrev idle : TcpContext (List Bytes)
idle = record { client = []; stream_buffer = []; audio_buffer = [] }

small_frame_size : binary_frame_size small_frame ≡ 72
unfolding binary_frame_size
small_frame_size = refl

items-AllItems : AllItems items
items-AllItems = (
  (refl, ground arith, omega arith),
  ((refl, small_frame_size), ((refl, ground arith, omega arith), tt)),
)

receive_all_lem_example : receive_all keep idle chunks ≡ record {
  client = codes "vfo:0,0,14074000;" ∷ codes "dds:0,14074000;" ∷ [];
  stream_buffer = [];
  audio_buffer = small_frame;
}
receive_all_lem_example = receive_all_lem keep items chunks idle items-AllItems refl refl

-- A line feed behind a message holds the stream up: the next message is not taken.
abbrev two_lines : TcpContext (List Bytes)
two_lines = record {
  client = [];
  stream_buffer = codes "start;" ++ 10 ∷ codes "vfo:0,0,7030000;";
  audio_buffer = [];
}

line_feed_holds : parse_stream_buffer keep two_lines ≡ record {
  client = codes "start;" ∷ [];
  stream_buffer = 10 ∷ codes "vfo:0,0,7030000;";
  audio_buffer = [];
}
unfolding parse_stream_buffer parse_from parse_round take_text take_frame through_semicolon
    consume_stream binary_frame_size
line_feed_holds = refl

parse_stream_buffer-ends_example : parse_round keep (parse_stream_buffer keep two_lines) ≡ none
parse_stream_buffer-ends_example = parse_stream_buffer-ends keep two_lines
