-- ===== src/Lib.antt =====
-- honeytrap (github.com/honeytrap/honeytrap): a network honeypot. Listeners take packets or
-- connections, a service answers each one, and every event goes to channels (pushers).
--
-- This library models the raw listener of listener/canary, which answers TCP by itself on top of
-- AF_PACKET sockets: it parses each frame, finds or makes the state of the connection, moves that
-- state, and sends frames back; the sessions of the FTP service of services/ftp; the printing service
-- of services/ipp on the reader of binary requests of services/decoder; TFTP, services/tftp.go; and the
-- sessions of SMTP and Redis, services/smtp and services/redis.
--
-- The modules:
--   Base      the shared vocabulary: natural numbers that keep the wrap-around of Go's integers
--             written out (`u8`, `u16`, `u32`), Boolean tests, lists, slices with Go's bounds, and
--             `Outcome`, which is a value, an error or a run-time panic.
--   Net       net.IP: To4 and Equal.
--   Wire      the packet formats, listener/canary/{udp,arp,ethernet,icmp,ipv4,tcp}: each `Unmarshal`
--             or `Parse` is a function from bytes to an Outcome, each `Marshal` one into bytes.
--             Wire.Tcp keeps the options in Tcp/Defs (reading) and Tcp/Marshal (writing), and the
--             two functions with a checksum in Tcp/Checksum.
--   Canary    listener/canary/{canary_linux,state,arpcache,route,socket}.go: the checksum of outgoing
--             segments (Checksum), the connections and their table (State), the frame that `send`
--             builds (Send), `handleTCP`, stage by stage (Handler), and the detector of port scans with its
--             sets (Knocks; knock.go and unique-set.go).
--   Ftp       services/ftp/{cmd,conn,auth,status,driver}.go: the connection with its replies (Session),
--             the texts of the reply codes (Status), a command with its flags and its `Execute`
--             (Command, Commands), and `receiveLine` with the table of the commands (Line). A session is
--             generic in the state of its file driver.
--   Decoder   services/decoder/{decoder,encoder}.go: a method is a function from the state of the reader
--             to a `Run`, which is a result beside the new state, a panic, or a loop that used up its
--             fuel. Ahead and Reads have the rules of a read of what stands ahead, Bounds any sequence
--             of calls.
--   Ipp       services/ipp/{values,group,message}.go: the attributes (Values), groups and messages
--             (Message), and `ippHandler` (Handler). The fields of a message for the server's own use
--             are the record Job.
--   Smtp      services/smtp/{conn,message,server}.go: the state functions and the loop of `serve`
--             (Session), over what is left to read; Diagram has the moves that the protocol allows.
--             Base.Lines has the readers of lines and of dot blocks of net/textproto.
--   Redis     services/redis/{redis,commands,redis_handler,messages}.go: the parser over the lines that
--             bufio.Scanner gives, the commands and the loop of `Handle` (Handler), the texts (Messages).
--   Tftp      services/tftp.go: `Handle`, one datagram after another, over the files by address.
--
-- A `*State` is a reference into the list of the states made so far, and the table of 65535 slots is a
-- list of optional references. The lock of a state is held during the whole of `handleTCP`, so a call
-- is one step: it takes the state out, works on it, and puts it back. What it does to other objects
-- is kept in order as a list of actions (writes to the socket, flushing and closing it, the start of
-- the protocol handler, knocks) and of frames. Clock and random numbers are arguments.
--
-- The knock detector runs over knocks, the seconds between them and those behind the last, with a tick for
-- each five seconds of waiting; the array that Each ranges over while Remove moves its items is written out.
--
-- The FTP commands take what the network does (an address answers, a port is free) as an argument, and
-- an int is held as its 64 bits. The lines that a client sends are a list, at whose end the connection
-- is closed. Texts are lists of bytes, whose letters and blanks are those of ASCII.
--
-- The loops are structural, except the two that fold the carries of a checksum, which run on fuel 3: a
-- uint32 is below 2^32, one round takes it below 2^17, and the next two below 2^16. A decimal number of
-- 64 bits has at most 20 digits, the fuel of `digits_of`. The loops of the reader of IPP messages run
-- on one bound, `limit`; a theorem that a message is read holds for every bound above the sizes of its
-- parts, and one that reading does not end holds for every bound. Numbers of 16 and 32 bits are their
-- bits. `serve` of SMTP and the parser of Redis run on fuel for rounds and nested calls: a measure of
-- what is left to read bounds the one, the number of lines the other. `Handle` of Redis runs for a
-- number of rounds.
--
-- Not modelled here: epoll and the ring buffer between `send` and the socket, the protocol decoders of
-- tcp_handlers.go and udp_handlers.go, the other listeners, the pushers, the configuration, the server
-- and the other services, which are left for later or only call other packages. The HTTP side of
-- ipp.go is glue; the printer names that it adds to the profile of the printer are an argument of
-- `ippHandler`. ipv4.go is modelled as it runs on Linux.
pub mod Base
pub mod Net
pub mod Wire
pub mod Canary
pub mod Ftp
pub mod Decoder
pub mod Ipp
pub mod Tftp
pub mod Smtp
pub mod Redis
