-- ===== src/Lib.antt =====
-- rtn-mq: what the message queue's endpoint, its data, its codecs and its enrollment do, and that they do
-- it right.
--
-- Parts, and how they interact. Payloads and records are charged to a budget (Buffer). The tasks of an
-- endpoint hand values on through single-producer queues (Queue). Everything on the wire is CBOR that must
-- be canonical (Cbor), in frames (Wire). Signed data are COSE containers: a publisher signs the envelope
-- of a message (Message), an authority signs certificates and revocations (Auth). A host gives certificates
-- to peers that hold a join code (Join). One task owns an endpoint (Endpoint): it keeps the sessions of
-- peers, the subscriptions, the deliveries that are pending and the messages that were received, checks
-- what peers may do by their certificates, and charges what it keeps to budgets.
--
--   src/error.rs    Error.antt      `Error`, and `?` as the bind of `Result`.
--   src/buffer.rs   Buffer.antt     `Budget` and `Permit`; Buffer/Ledger.antt their interleavings;
--                                   Buffer/Pool.antt `BufferPool` and `PayloadLease`.
--   src/queue.rs    Queue.antt      `channel`, `Sender`, `Receiver`; each atomic action is an event.
--   src/cbor.rs     Cbor.antt       `Writer`, `Reader`, `canonical`.
--   src/auth.rs     Auth/Cose.antt (COSE), Auth/Claims.antt (`Permission`, `Claims`, `Certificate`),
--                   Auth/Trust.antt (`Trust`, revocations), Auth/Authority.antt (`Authority`).
--   src/message.rs  Message/Topic.antt (`Topic`), Message/Envelope.antt (`MessageId`, `Envelope`).
--   src/wire.rs     Wire/Frame.antt (`Header`, `read_header`, `write_frame`), Wire/Hello.antt,
--                   Wire/Data.antt, Wire/Control.antt (`Control`).
--   src/join.rs     Join/Options.antt, Join/Code.antt (`JoinCode`), Join/Hints.antt and
--                   Join/Decoding.antt (`JoinCode::decode`), Join/Host.antt (state, encoding,
--                   storage), Join/Admission.antt, Join/Operations.antt (`issue`, `revoke_code`,
--                   `enroll`), Join/Reply.antt (`Enrollment`).
--   src/endpoint.rs Endpoint/Config.antt (`Config`), Endpoint/Outcome.antt (`RecipientOutcome`,
--                   `PublishOptions`, `Metrics`).
--   src/endpoint/owner.rs
--                   Endpoint/Owner.antt (the types, `Owner::new`); below it Session.antt (`register`,
--                   `remove_peer`, `finish`), Subscribe.antt, Remote.antt (`control`), Publish.antt,
--                   Receive.antt (`begin`), Deliver.antt (`incoming`), Credits.antt (`grant_credits`),
--                   Schedule.antt, Upkeep.antt and Maintenance.antt (`maintenance`), Certificates.antt
--                   (`Deny`, `Revoke`, `Renew`), Release.antt, Commands.antt (`command`, `run`). The other
--                   files there hold what is proved of them.
--
-- How code corresponds to definitions. A function of the source is a function of the same name; where Rust
-- has several of one name, the type is added to it (`encode_host`, `verify_certificate`). A method on
-- `&mut self` returns the new state. `Result` is a data type, a `?` is a bind. Bytes, strings and keys are
-- lists of numbers; a `usize` or `u64` is a natural number with its range or its wrap-around written out.
-- A `BTreeMap` is an association list in the order of its keys (Prelude/Map.antt). A decoder is a function
-- of the bytes that are left. A derived order is the order of its fields (Prelude/Order.antt).
--
-- Parameters, each with its laws: minicbor (Cbor.antt), the keys, signatures and digest of iroh and sha2
-- (Crypto.antt), rtrb and tokio's Notify (Queue.antt), the storage of a host (Join/Host.antt), base64
-- (Join/Code.antt), the addresses of iroh (Join/Hints.antt). What the owner reads from outside is a record,
-- `Outside`: the clock at each reading, the instant, random numbers, whether a channel or a queue takes a
-- value, what an application has answered. A run of the owner is a list of commands, each with its
-- `Outside`, so that the theorems on runs hold for every answer of the clock, the channels and the other
-- tasks.
--
-- Tests/ instantiates each parameter with functions, RFC 8949 heads for minicbor among them, and runs the
-- decoders on the files of tests/fixtures. Random bytes and the time are arguments.
--
-- In the owner, `Option` stands for the panic of `Permit::shrink_to`, and for no other. A receipt is the
-- list of the outcomes that were sent, a queue the list of what it has taken. The permits of a grant and of
-- a pending delivery are the sizes that were reserved. What holds a permit is shared with other tasks, so
-- that a permit that is dropped is an event of its own in a run (Endpoint/Owner/Release.antt), for any
-- size at any time, and not a part of the operation that gives its holder up.
--
-- Bounds. No definition takes fuel: loops are structural recursion on lists, or on a count that was read.
-- The limits of the source stand as they are: 4096 bytes for an envelope, 15 KiB for a certificate, 256
-- permissions, 4096 revocations, 16 KiB of metadata, 4 MiB for a stored host.
--
-- An `Instant` has no last value here, so that the panic of an `Instant + Duration` past its range, which a
-- very long `retry_interval` would reach, is not modelled. The `unwrap` of `grant_credits` is shown to find
-- its subscription (Endpoint/Owner/Credits/Present.antt).
--
-- Not modelled: the transport (src/endpoint/transport.rs) and the handles of src/endpoint.rs after `Config`,
-- which are connections, tasks and channels; of the owner, the commands of the enrollment host (what they
-- call is in Join), `Connect`, `Metrics` and `TopicsReady`, and the connections that `run` accepts; the
-- decoder of a stored host, the exchanges of src/join.rs on a connection, the files of identities and hosts,
-- and the release of permits whose holder expires or is replaced in src/join.rs.
pub mod Prelude
pub mod Error
pub mod Buffer
pub mod Queue
pub mod Cbor
pub mod Crypto
pub mod Auth
pub mod Message
pub mod Wire
pub mod Join
pub mod Endpoint
pub mod Tests
