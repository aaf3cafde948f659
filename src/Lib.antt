-- ===== src/Lib.antt =====
-- fluxrig moves payment messages between gears on racks, over a bus. This library models the parts
-- that decide what happens to a message on its way; each path below is in the repository.
--
-- Outbox: pkg/runtime/outbox.go, and its callers in pkg/runtime/runtime.go. An emission that the bus
--   refuses is parked in a bounded queue, which a drain later forwards. Outbox.antt has the record and
--   one function for each locked section: `park`, `park_event`, `park_if_held`,
--   `park_event_if_held`, `begin_drain`, `remove`, `set_bus_state` stand for `park`, `parkEvent`,
--   `parkIfHeld`, `parkEventIfHeld`, `beginDrain`, `remove`, `setBusState`. Outbox/Drain.antt has
--   `runDrain` and `publishWithRetries`, in a world that says how the bus answers, when the context
--   ends and what other goroutines call between two locked sections. Outbox/Emit.antt has
--   `waitClear`, the bus leg of `publishPort`, `publishEvent` and the retry loop of events.
-- Lane: pkg/runtime/lane.go, the lane in memory between the gears of one rack, in Lane.antt: each
--   goroutine's step between two accesses to shared data is an action, and a schedule a list of them.
-- Coatcheck: pkg/gears/native/coatcheck/restore.go, what a message gets back from a stored one.
-- Wasm: pkg/wasm/catalog/section.go, `AppendCustomSection` and `ExtractCustomSection` in Wasm.antt.
-- Splitter: pkg/gears/native/io_tcp/splitter.go and `frameOutbound` of server.go, in Splitter.antt.
-- Conductor: pkg/gears/native/conductor. Conductor/Tree.antt has the destination tree of tree.go and
--   `pick`, Conductor/Parse.antt `parseDest`, Conductor/Routes.antt `parseRoutes` of route.go and
--   `matchRoute` of gear.go.
-- Message: pkg/fluxmsg/helper.go, `Get` and `Set`, and `deletePath` of the conductor, in Message.antt,
--   over messages with nested maps. Keys: `FieldToKeyPart` and `JoinKeys` of pkg/sdk/helpers.go.
-- Valet: pkg/valet, the engine that matches replies to requests. Valet.antt has one function for each
--   method of `Engine`, with the tickets in a heap; Valet/History.antt runs any calls one after another.
-- Conductor.Gear: pkg/gears/native/conductor/gear.go, on top of the tree, the routes, the messages and
--   the engine: Conductor/Gear.antt has `handleRequest`, `handleReply` and what they call,
--   Conductor/Gear/History.antt `onExpire` and a run of inputs.
-- Frame: pkg/gears/native/iso8583/io/frame.go. Frame/Bitmap.antt has `extractBitmaps`, Frame/Mti.antt
--   `decodeMTI`, Frame/Header.antt `GetHeaderOffset`, `ExtractHeader`, `BuildHeader`, `swapTPDU` and
--   `decodeRawHeader`, with `SetMetadataBytes` of pkg/fluxmsg/struct.go.
-- When: pkg/gears/native/iso8583/codec/sdl, the expressions that a specification asks of a message. Of
--   when.go When/Lexer.antt has `next`, When/Parser.antt `ParseWhen`, with one function for each
--   production, and When/Path.antt `String` of a reference; When/Eval.antt has `Eval` and `BindKinds`
--   of eval.go. When/Validator.antt has `NewValidator` and `Validate` of validate.go, and
--   When/Resolver.antt `checkWhen` of resolve.go. The proofs about the parser follow its productions.
-- Translation: pkg/translation. Translation/Currency.antt and Translation/Amount.antt have amount.go;
--   of translation.go Translation/Spec.antt has `checkTranslation`, over the interface `Protocol`,
--   Translation/Apply.antt `Select` and `value`, Translation/Written.antt the rest of `Apply`.
-- Only the conductor holds another part, its engine (Valet). A translation reads and writes a message (Message) by paths. A gear's stream is split into messages (Splitter), whose headers and
-- bitmaps are read (Frame); a conductor gives a request a port (Conductor), parks it under a key of its
-- fields (Keys, Message) and matches the reply (Valet), and what is emitted goes to the gears
-- of the same rack through the lane (Lane) and to the bus through the outbox (Outbox). Fields that do
-- not travel are stored and restored (Coatcheck). A gear's binary carries its manifest in a custom section (Wasm).
--
-- Bytes are numbers, and texts are lists of bytes. A machine integer wraps where its wrapping can
-- matter: the counters of the outbox, the counters of the round robin and the offsets into a Wasm
-- file are taken modulo 2^64.
-- Fuel: the loop that makes room runs at most once for each queued item, a drain once for each item
-- and once more when nothing is parked meanwhile, the scanner of a stream once for each byte, and
-- `ExtractCustomSection` once for each section and once more. Each is proved enough where it is used.
-- The parser of expressions takes the levels of nesting that are left, and its loops two steps for
-- each character left and two more.
-- A result without fuel left is a value of its own, so no theorem counts it as success.
--
-- Times and durations do not wrap, and a timer that fires is an action that may come at any time.
--
-- Not modelled: logging, telemetry, sockets and the bus itself, whose answers are parameters;
-- bufio.Scanner and encoding/binary are as documented. The limits of memory are left out.
-- How a text reads as a float and floats compare, what the clock and the random source give, and how a
-- value that is no text prints, are parameters. Trimming and upper case are those of ASCII.
-- The fields of the codecs, the YAML loaders, the registry, the mixer, the snake, the control plane and the stores are not modelled.
pub mod Prelude
pub mod Message
pub mod Keys
pub mod Valet
pub mod Lane
pub mod Coatcheck
pub mod When
pub mod Translation
pub mod Outbox
pub mod Wasm
pub mod Splitter
pub mod Conductor
pub mod Frame
mod Tests
