-- ===== src/Watch.antt =====
-- modules/client/g_watch.c: channels and nicks that are watched, on a heap of their own beside the state of
-- the services, and the queue of those who came during a burst. PCRE, which decides a regular
-- expression, is a parameter; s_Guardian is a client that is there. Messages to the log channel are left
-- out.
pub mod Actions
pub mod Entries
pub mod Add
pub mod Remove
pub mod Handlers
pub mod Commands
pub mod Loads
pub mod Kicks
pub mod Commanded
pub mod Loaded
pub mod Added
pub mod Glines
