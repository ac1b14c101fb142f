-- ===== src/Radio.antt =====
-- The radio side of the skimmer, cw-skimmer/src/radio_control.c: the texts that it sends (Text), the
-- queue of what a user asked for (Queue), and the object that carries them out (Control).
pub mod Text
pub mod Queue
pub mod Control
mod Tests
