-- ===== src/Lib.antt =====
-- Models of the Rust programs of this repository, with the theorems that make them correct.
--
-- 03-mini-redis/original-rust/src, a server of the Redis protocol and its client:
--   Redis/Frame.antt       frame.rs: `Frame::check`, `Frame::parse` and their readers. A cursor is the
--                          list of bytes that are left. `usize` is 64 bits; the sums that the code
--                          computes on it wrap.
--   Redis/Connection.antt  connection.rs: `read_frame`, `parse_frame`, `write_frame`. A connection is
--                          its read buffer with the chunks that the socket has yet to deliver, an
--                          empty chunk being the end of the stream; writing gives the bytes written.
--   Redis/Db.antt          db.rs: the state behind the mutex, every operation on it, and in
--                          Redis/Db/Task.antt the task that purges expired keys, as a step relation
--                          over the calls of clients and the passing of time. The `BTreeSet` of
--                          expirations is a sorted list (Redis/Db/Expirations.antt), a `HashMap` is a
--                          function into `Option`.
--   Redis/Parse.antt       parse.rs: a `Parse` is the list of entries that are left.
--   Redis/Cmd.antt         cmd/*.rs: commands from frames and to frames; Redis/Cmd/Apply.antt applies
--                          them to the database.
--   Redis/Session.antt     cmd/subscribe.rs: the session that SUBSCRIBE opens, a round at a time.
--   Redis/Server.antt      server.rs and shutdown.rs: the loop of a handler over the events that it
--                          wakes up to, and the back-off of the listener.
--   Redis/Client.antt      clients/client.rs: the requests of `Client` and the reading of replies, and
--                          the way that frames are printed in errors (frame.rs).
--   Redis/Subscriber.antt  clients/client.rs: `Subscriber`.
-- 04-fish-shell/rust-rewrite, parts of the shell fish:
--   Fish/Color.antt        color/color.rs: colours and their notations; Fish/Color/Palette.antt has
--                          the tables of names and of terminal colours, and the search of the nearest.
--   Fish/Wgetopt.antt      wgetopt/wgetopt.rs: the state of the scanner, the exchange of arguments and
--                          the search for a long option; Fish/Wgetopt/Scan.antt is the scan. A wide
--                          string is the list of its code points, and a call that panics is none.
-- 02-coreutils, parts of the coreutils:
--   Coreutils/Echo.antt    echo/rust-rewrite/echo.rs: the flags, the choice by POSIXLY_CORRECT, and the
--                          output, with the parsing of escapes as a parameter.
--   Coreutils/Cat.antt     cat/rust-rewrite/cat.rs: the writing of lines with numbers and marks, over
--                          reads as for tr. The count of lines is a library's, a parameter.
--   Coreutils/Tr.antt      tr/rust-rewrite/{operation,simd,tr}.rs: the parser of sets
--                          (Coreutils/Tr/Sequence.antt), their expansion (Coreutils/Tr/Sets.antt), the
--                          operations on bytes (Coreutils/Tr/Operation.antt) and `uumain`
--                          (Coreutils/Tr/Main.antt). A table of 256 elements is a function. What the
--                          reads give is a list; writing succeeds.
-- 01-hexyl/original-rust/src, a hex viewer:
--   Hexyl/Offset.antt      main.rs: numbers of bytes with signs and units; an i64 is an integer of
--                          Common/Int.antt with its bounds.
--   Hexyl/Byte.antt        lib.rs and colors.rs: the category of a byte, its colour and its character.
--   Hexyl/Printer.antt     lib.rs: the printer and the borders, with Hexyl/Builder.antt for the builder;
--                          what is written is the list of code points.
--   Hexyl/Line.antt        lib.rs: the parts of a line: position, bytes, characters.
--   Hexyl/Dump.antt        lib.rs: the loop of `print_all` over the reads, with the squeezer. What the
--                          reader will give is a list of arrivals, as for a connection.
--   Hexyl/PrintAll.antt    lib.rs: `print_all` as a whole, with the C include style and the end.
--   Hexyl/Main.antt        main.rs and input.rs: what `run` makes of each option, and seeking; then
--                          Hexyl/Run.antt is `run` as a whole: the job, the printer that is built,
--                          and `print_all` over the reads.
-- A handler reads a frame from its connection, makes a command of it by way of the argument parser,
-- applies it to the database and writes the response; the client does the reverse.
--
-- Panics, errors and values are the outcomes of Common/Outcome.antt. The recursive readers of frames
-- take fuel, one unit for a frame and one for the entries of an array; twice the bytes and one more is
-- enough, since every frame takes a byte, and this is proved; the parser of sets has a round for each byte, and the sets never meet a repetition
-- without end; the loop of hexyl has a round for a line, which takes a byte at least. Memory is unbounded, but for the vector of a printer, whose size `run` tests. An instant and a duration are numbers of
-- nanoseconds.
--
-- Code outside the repository is a parameter: `atoi` (an argument of the readers, which the round
-- trips assume to read back decimals), the casing of Unicode strings (Casing, documented on ASCII), the
-- broadcast channels (Broadcast, with their documented receiver counts), the map of streams
-- (StreamMap, by its keys and their number), the indexing of wide strings (Wide, with the NUL character at the end), the
-- counting up of a number in a buffer (cat), the debug format of bytes, and for hexyl the lower case of
-- a text (documented on ASCII), the alphanumeric characters and the seeking of files.
--
-- Not modelled: the tasks that the listener spawns and its semaphore, the clients that only pass calls
-- on, the command lines, the files that cat opens and its copy without options; the texts of errors and
-- warnings; the colours of hexyl that the environment or floating point give (a palette, an argument)
-- and its reports; the timer of fish, which computes in floating point; and the C++ code.
--
pub mod Common
pub mod Coreutils
pub mod Fish
pub mod Hexyl
pub mod Redis
