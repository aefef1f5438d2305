-- ===== src/Modes.antt =====
-- The texts of modes: those of a channel in src/channel.c (Modes/Channel), and those of a user in
-- src/user.c (Modes/User). The tables of mode letters are arguments, since the protocol modules change
-- them.
pub mod Channel
pub mod User
