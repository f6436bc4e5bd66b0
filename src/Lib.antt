-- ===== src/Lib.antt =====
-- A model of the DNP3 library in Rust: the protocol stack, its two roles and its transports.
--
-- The program has one crate for each layer. crates/dnp3-core has the errors, the byte reader, addresses,
-- timestamps and the CRC; crates/dnp3-link puts a payload and its addresses into a frame;
-- crates/dnp3-transport cuts an application fragment into segments that fit a frame, and puts them
-- together again; crates/dnp3-app encodes and decodes fragments with their objects;
-- crates/dnp3-outstation answers the frames of a master; crates/dnp3-master asks, over any channel of
-- frames; and crates/dnp3-tcp and crates/dnp3-serial carry frames as bytes. A request goes up through
-- `LinkFrame::decode`, `TransportSegment::decode`, `Reassembler::push` and `ApplicationFragment::decode`,
-- its response goes down through `ApplicationFragment::encode`, `fragment` and the frame constructors.
--
-- Files:
--   Prelude: numbers, lists, bytes, masks and chunks that all parts share
--   Core: crates/dnp3-core/src/lib.rs. Error, Reader (Reading and Progress are the rules for what a
--     parser reads and that it ends), Address, Timestamp48, Crc
--   Link: crates/dnp3-link/src/lib.rs. ControlField and LinkFrame
--   Transport: crates/dnp3-transport/src/lib.rs. Segment and Reassembler
--   App: crates/dnp3-app/src/lib.rs. AppControl, FunctionCode, ObjectHeader, Points (the kinds of
--     points, their encoders and decoders), AppObject, ApplicationFragment
--   Outstation: crates/dnp3-outstation/src/lib.rs, `handle_frame` and all it calls
--     and, in Channel, `run_once` on any channel
--   Master: crates/dnp3-master/src/lib.rs. The session over a `MasterChannel`, a record of operations
--     that every channel fills; Loopback is the channel to an outstation that answers at once
--   Tcp: crates/dnp3-tcp/src/lib.rs. The connection and, in Client, the client that connects again,
--     over a `Network` that stands for tokio
--   Serial: crates/dnp3-serial/src/lib.rs. The transport over a `Driver` that stands for the
--     serialport crate and, in Mock, the endpoints for tests
--   Examples: examples/common. Points, Text and Cli are the points, the texts and the commands of
--     outstation_shared.rs, Startup and States are master_shared.rs, Channels has the channels and loops of
--     the programs beside it; Upsert, Forms, Acknowledged and Served hold their theorems
--   Tests: runs on concrete bytes
--
-- A byte, a word and an index are native numbers; what the source wraps or cuts is written with `%`.
-- A signed 32-bit value is its bit pattern. A function that fails returns `Result`, whose third
-- constructor `stuck` says that the fuel of a loop ran out; a `Reader` goes through the parsers as a
-- state, and a handler returns its result with the session after it, also after an error. The fuel of
-- each loop is a count that the source has at hand: the payload's length for the CRC blocks, the unread
-- bytes for the objects and, with one more, for the padding, the count of points for the packed formats.
--
-- The crates above the protocol have errors of their own: their methods are `Action`s of Core/Fallible,
-- which return a result and the state after it. The loops of the master run on one unit of fuel for
-- each frame or fragment that is received, and the mock's read on one for each sleep of five
-- milliseconds.
--
-- Of Rust's `str` Examples/Text has what the examples use, on lists of code points; `Debug` is a parameter.
-- The loop of polls never ends by itself, and the model has its first rounds.
--
-- Not modelled: the main functions and the printing of the examples, what the sockets, the timers and the
-- serial driver do inside, and a poisoned lock, which panics. The database stands behind a lock that other
-- tasks may write to: it is an argument of the handlers, and a function of its surroundings where a loop
-- reads it again. Formatting and hashing of values is left out everywhere.
pub mod Prelude
pub mod Core
pub mod Link
pub mod Transport
pub mod App
pub mod Outstation
pub mod Master
pub mod Tcp
pub mod Serial
pub mod Examples
mod Tests
