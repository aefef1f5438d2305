-- ===== src/Lib.antt =====
-- Omega IRC security services: the core of the program, modelled and verified.
--
-- The services link to an IRC network as a server. A line from the uplink goes through the parser,
-- which finds its sender in the lists of servers and users and calls the handlers of its command.
-- The handlers change the lists of users and channels; each change is announced as an event, and
-- the events run the functions that the modules have registered, such as the count of sessions for
-- each host. Which user may command the services is decided by the access list, by masks.
--
-- Files and the code they model:
--   Prelude        lists, Boolean tests, bytes and integers that the models share
--   Dlink          src/dlink.c: doubly linked lists on a heap, and the lists of cells they stand for
--   Match          src/match.c: match_wild (Match/Wild), and the language of masks it decides, and
--                  match_cidr (Match/Cidr)
--   IrcString      src/irc_string.c: valid_hostname, valid_username, valid_servername, and its tables of
--                  character classes (IrcString/Attrs) and of cases (IrcString/Cases)
--   Parser         parse and string_to_array (Parser/Params) of src/parser.c
--   Network        membership in src/channel.c, and exit_one_user of src/user.c
--   Links          src/links.c: find_serv, new_serv, exit_serv and the like
--   Users          src/user.c: find_user, find_uid, new_user, NewNick, exit_user and the like; and
--                  AddToChannel and create_sjoin_nicklist of src/channel.c (Users/Sjoin)
--   Events         AddEventEx, DelEvent, EventEx, RunTimedEvents of src/eventhandler.c
--   Commands       the tables of commands of src/eventhandler.c
--   Access         src/access.c: named flags, find_access, setAccess, check_access, refresh_access
--   Metadata       src/metadata.c
--   Cmds           src/cmds.c: commands of users to the clients of the services, do_cmd
--   Modes          the texts of modes in src/channel.c (Modes/Channel) and src/user.c (Modes/User)
--   Database       src/dbmanager.c: the database in memory
--   Base64         src/base64.c: numbers (Base64/Numbers) and texts (Base64/Quads)
--   Services       the parts put together: AddUser and NewClient of src/user.c (Services/Clients), and
--                  what a line from the uplink does to the state of the services, through the
--                  parser, the tables of commands and the handlers of modules/protocol/unreal32.c
--                  (Services/Unreal); Services/Keeps has the proofs on all of them
--   Watch          modules/client/g_watch.c: channels and nicks that are watched, on that state, with the
--                  command WATCH (Watch/Commands) and the entries of the settings (Watch/Loads)
--   Sessions       modules/client/g_sessions.c: sessions of each host, limits, exemptions, and the
--                  commands SESSION and EXEMPT (Sessions/Commands)
--   Joinflood      modules/client/g_joinflood.c: m_sjoin, chk_floods
--   Tools          src/tools.c: user ids (Tools/Uid), hashes (Tools/Hash), time_to_sec
--                  (Tools/Times), generictoken and ExpandParv (Tools/Tokens)
--   Samples        the models at small inputs
--
-- How the code becomes definitions. A text is a list of bytes; where the code copies it into an
-- array, the model cuts it at the size of the array. The linked lists of src/dlink.c are modelled
-- once, in Dlink, as nodes on a heap with links in both directions; the other models use lists in
-- their place. Users and channels stand on a heap, a function from addresses, so that `none` is a
-- read of freed memory. The current time, the addresses that malloc returns and what it leaves in a
-- block are arguments. Words have 32 bits, with their wrap-around written out; the ids count in
-- base 36. Calls of the modules are recorded as outputs, and the functions that modules register
-- are a parameter of the events: they take the state of the rest of the program to a status and a
-- new state. What the rest of the program puts into the tables of commands, and what its handlers
-- do, is a parameter of Services/Unreal too; there the functions that are registered for events are
-- not run, but for that of modules/client/g_log.c, which counts the users who exit. A handler of a
-- timed event may delete its own event and no other. Whether assertions abort, and how much of the
-- stack a line of words may overwrite, are arguments.
--
-- Bounds and fuel. Each loop of the code is a recursion on the list or the text it walks over, with
-- these exceptions. string_to_array counts rounds: 14, the number that its own bound MAXPARA of 15
-- allows; int_to_base64 and the printing of a number count the places of their buffers, 7 and 10.
-- The walk of dlink_find follows addresses, so it takes fuel, of which one more than the number of
-- cells before the one that it finds is enough. exit_serv takes fuel for the calls of itself, of
-- which one is enough for a server with no other below it; its walk has one round more than the
-- list has nodes. omega_squit gives it one more than the number of servers; where this is not
-- enough, the line has no result. The queue of the watched runs 26 rounds in each call, as the code
-- counts them. A pointer has 8 bytes, where the code takes its size.
--
-- Not modelled: sockets, threads, signals, files, logs and the counters of memory use (calls of the
-- operating system); the loader of modules; the text of what is sent, which is a value instead; the
-- modules for the protocols of ircds other than unreal32, which do the same for other lines; the
-- other client commands, which format text; the watch list in the database; the files of the
-- database; the addresses of encode_ip and decode_ip, which the resolver of the system reads;
-- libopm, a copy of another project's library. PCRE and the settings are parameters. A malloc that
-- fails is left out.
pub mod Prelude
pub mod Dlink
pub mod Base64
pub mod Match
pub mod Tools
pub mod Parser
pub mod Events
pub mod Access
pub mod Metadata
pub mod Database
pub mod Modes
pub mod Sessions
pub mod Network
pub mod IrcString
pub mod Services
pub mod Watch
pub mod Joinflood
pub mod Users
pub mod Commands
pub mod Links
pub mod Cmds
mod Samples
