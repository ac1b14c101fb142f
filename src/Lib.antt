-- ===== src/Lib.antt =====
-- Verification of cw-skimmer, a receiver for Morse code on shortwave (the repository's C code under
-- cw-skimmer/src/).
--
-- The program gets I/Q samples from a TCI server (tci_client.c), finds the channels that carry Morse
-- code, decodes each (decode_worker.c, cw_decoder.c, ditdah_decoder.c), checks the text for call
-- signs (cw_message_validator.c), reports them to a spot server (spot_reporter.c), and lets the user
-- tune the radio and key text (radio_control.c).
--
-- Files:
--   Prelude, Prelude/*    shared lists, numbers, tests, bytes, and the items of a ring (`slots`)
--   Libc, Libc/*          the C library functions that the code calls on strings: strchr, strstr,
--                         toupper, snprintf with %d, %lld, %s
--   Radio                 cw-skimmer/src/radio_control.c
--     Radio/Text          radio_control_sanitize_cw, _format_tune, _format_cw_macro, _format_wpm,
--                         _ky_chunk, _ky_status
--     Radio/Queue         the ring of RC_QUEUE operations: rc_push_locked, rc_drop_kind_locked, and
--                         the loop that empties it
--     Radio/Control       struct radio_control, and the requests and settings
--     Radio/Control/Keyer rc_ky_open to rc_ky_append, and the loop over the keyer's lines
--     Radio/Control/Service  rc_ky_service, rc_send_speed, radio_control_service
--     the others          the proofs, each named for what it shows
--   Spots                 cw-skimmer/src/spot_reporter.c: struct and retry queue
--     Spots/Link          spot_connect_socket, spot_reporter_connect and _reconnect
--     Spots/Submit        spot_reporter_submit_spot and _process_retries
--     the others          the proofs, each named for what it shows
--   Validator             cw-skimmer/src/cw_message_validator.c: the predicates on a text
--     Validator/Score     the score, cw_message_validator_score and _accepts
--     the others          the proofs, each named for what it shows
--   Worker                cw-skimmer/src/decode_worker.c: struct decode_worker and its functions
--     Worker/Steps        the thread and the caller as a step relation
--     the others          the proofs, each named for what it shows
--   Config                cw-skimmer/src/config.c: the defaults and the configuration file
--     Config/*            the proofs, each named for what it shows
--   Ditdah                cw-skimmer/src/ditdah_decoder.c: the Morse decoder of a channel
--     Ditdah/Audio        struct ditdah_decoder, biquad_*, ditdah_append_audio, _push_resampled and
--                         ditdah_decoder_feed_iq
--     Ditdah/Signal       get_raw_intervals, moving_average, goertzel_*
--     Ditdah/Params       calculate_cost, find_best_params
--     Ditdah/Morse        morse_to_char
--     Ditdah/Letters      decode_with_params
--     Ditdah/Decoder      ditdah_run_pipeline and the calls of the object
--     Ditdah/Keying       Morse code as it is keyed, a description of its own
--     the others          the proofs, each named for what it shows
--   Capture               cw-skimmer/src/cw_capture.c: the ring of the last samples
--     Capture/File        cw_capture_save and cw_capture_load, by the bytes of the file
--     the others          the proofs, each named for what it shows
--   Tci                   cw-skimmer/src/tci_client.c: tci_tcp_append_stream and
--                         _parse_stream_buffer, the stream of messages and frames
--     Tci/Samples         tci_process_audio_payload, tci_read_iq_samples, tci_get_iq_samples
--     the others          the proofs, each named for what it shows
--   Channel               cw-skimmer/src/cw_decoder.c: the decoder of a channel, around that of Ditdah
--
-- How the code is modelled. A C string is the list of its bytes without the NUL, a NULL pointer is
-- `none`, an `int` is an integer, and a buffer that a function fills is given and returned. Each call
-- of a function of radio_control.c is one step; the service call lets go of its lock between its
-- parts, and what another thread asks for in between is taken to come before or behind the call. What
-- the system answers (the clock, name lookup, connect, poll, recv, send) is a parameter: `Answers`
-- gives the answer to the n-th question of a run, and no theorem assumes anything of it. A float is
-- a parameter too: its bits are carried along, or its operations are given, and a theorem names what
-- it relies on.
--
-- The decode worker has a thread of its own. Its steps and the caller's are interleaved in any order;
-- one step is what happens while the lock is held, or the decoder's work on one chunk between. Beside
-- the worker the state keeps the chunks accepted since the last start, those decoded, and those that a
-- stop has thrown away.
--
-- Fuel. The loop over the keyer's lines has fuel for one round more than bytes are in the receive
-- buffer, since a round that goes on takes a byte at least. The loop that sends the waiting spots
-- again has one round for each spot and one to end. The loop that parses the TCI stream, and the one
-- over the frames of a payload, have one round for each byte, since a round that goes on takes a byte
-- at least.
--
-- Not modelled: the signal processing in floating point (audio_processor.c, cw_detector.c,
-- cw_keying_detector.c, signal_analyzer.c, bayesian_tree.c, cwsk_decoder.c), the neural engine and
-- the GUI in C++, logging and timing output, the options of main.c, and the parts that those above
-- meet only through a parameter or not at all: cwskimmer_api.c, the rest of tci_client.c (the
-- connection, the reading of messages, the training files) and the file system under cw_capture.c.
-- Of the decode worker the texts for its callback are left out, of the configuration the search for
-- the file, and of the Windows build its own branches. Where memory is taken to be there, the comment
-- of the file says so. Where the code overruns a field or an `int` in a way of which C says nothing,
-- the definitions for config.c and for the creation of the ring of cw_capture.c have no result.
pub mod Prelude
pub mod Libc
pub mod Radio
pub mod Spots
pub mod Validator
pub mod Worker
pub mod Config
pub mod Ditdah
pub mod Capture
pub mod Tci
pub mod Channel
