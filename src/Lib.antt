-- ===== src/Lib.antt =====
-- A model of the core of AEGIS Mesh, a peer-to-peer messenger, and what makes it correct. The program
-- is aegis-mesh/crates/aegis-core, with aegis-cli and aegis-ffi beside it.
--
-- The parts, and the files that model them:
--   Error        error.rs: the error enum, the conversions of foreign errors, `Result`.
--   Crypto       crypto/: IdentityId (the identifier of a node, identity.rs), Aead (aead.rs),
--                KeyAgreement (x25519.rs and the conversion of keys in identity.rs) and Signal
--                (signal.rs: the key agreement and the session). Primitives has the interfaces of the
--                crates for Ed25519, X25519, AES-GCM, HKDF, SHA-256, hex, BIP39 and Argon2, which are
--                parameters. Identity (identity.rs) has the identity and its encrypted blob, Keystore
--                (keystore.rs) the trait of key stores with its laws, File and Memory, and Fingerprint
--                (fingerprint.rs) the safety number.
--   Messaging    messaging/: Priority, Envelope and Channel. Envelope has a child for each part of
--                envelope.rs: Id, Flags, Kind, Body (the payload), Relay (`advance_ttl`), Fresh,
--                Validate, Wire (bytes and signatures).
--   Mesh         mesh/: Router (router.rs), StoreForward (store_forward.rs) and Peer (peer.rs).
--   Transport    transport/: Lora (lora.rs, the frames and the read loop; Port, the transport), Ble
--                (ble.rs, the queue) and Loopback (loopback.rs, the frames on a socket and their
--                reader; Hub, the transport).
--   Storage      storage/sqlite.rs: Sqlite (tables, keys and values, wipe), its child Mail (envelopes
--                and channels as rows), and Spec, the mailbox that the table of envelopes refines.
--   Config       config.rs: the settings, and the writing of files.
--   Json         the interface of serde_json at one type.
--   Cli          aegis-mesh/crates/aegis-cli/src: Serve (commands/serve.rs), a running node, and
--                Commands (context.rs, commands/identity.rs, commands/wipe.rs) with its children Send
--                (commands/send.rs) and Start (how commands/serve.rs comes to a node).
--   Ffi          aegis-mesh/crates/aegis-ffi/src/lib.rs: the functions for the Android application.
--   Base         lists, equality, `HashMap` and `BTreeMap`, bytes and texts, words, the clock.
--   Samples      values for the tests, which stand in the modules named Tests.
--
-- How they interact: a transport hands the bytes of an envelope to `Envelope::from_bytes`. The router
-- decides on the envelope by its hop counters, its time stamp and the duplicate filter; the targets of
-- a relayed one are `forward_targets`, among the neighbours that the registry of peers has online, but
-- the node computes them and sends over every transport. The store-and-forward queue holds messages for
-- peers that are away; the node puts none there. Cli/Serve composes these into a node: an event is an
-- envelope, an announcement or a collection, and the effects are what is printed and sent.
--
-- How the code corresponds to the model:
--   - Each function has the name of the Rust function, in the module named for its type. A method that
--     changes its receiver takes the state and returns it with the result. A method that takes a lock
--     once is one step; `observe` of the registry takes two locks one after the other, and its two
--     sections are separate events of a run.
--   - Clocks are arguments, in nanoseconds. Where a method reads a clock twice it has two readings.
--     `duration_since` and `saturating_sub` stop at 0, as subtraction on natural numbers does.
--   - Machine integers are natural numbers. Sums of `u64` in freshness and in the sequence bound are
--     written `% 2 ^ 64`, as in a release build.
--   - `HashMap` is an association list with distinct keys, whose order stands for the open order of
--     iteration. `BTreeMap` is the list of its entries in the order of its keys.
--   - `String` is its UTF-8 bytes. Identifiers are one-field structs and stand for their texts.
--   - serde_json, ed25519_dalek, sha2, hex, x25519_dalek, aes_gcm and hkdf are parameters: records of
--     operations with the documented laws (`Codec`, `Ed25519`, `Hash`, `X25519`, `Aes256Gcm`, `Hkdf`),
--     which `Suite` of Crypto/Signal gathers. That a signature verifies over no other message is a
--     hypothesis of the theorems that need it.
--   - Keys, salts and nonces that the code draws at random are arguments, and so is what a mutex, the
--     operating system or the database engine answers. The code panics where a `expect` fails or a
--     text is cut inside a character, and where `dequeue_due` cannot reserve room for n envelopes; the
--     model of `Identity::new` returns the error, a node that panics has no next state, and
--     `dequeue_due` is for an n that can be reserved.
--   - SQL statements are functions on tables, which are lists of rows. A statement that fails changes
--     nothing, or the engine rolls the open transaction back with it (`Engine`); a transaction is the
--     difference between what the connection sees and what is on the disk. The order of rows of one
--     time stamp, which SQL leaves open, is an argument (`Scan`). An `i64` is its bit pattern.
--   - The tasks of a hub take turns (Transport/Loopback/Hub): what `tokio::select!` takes where both of
--     its branches are ready is an argument, and a client is accepted in one step and served from a
--     later one on.
--   - The inner read loop of lora.rs runs on fuel, one more than the length of the buffer. Every turn
--     but the last shortens the buffer, so the loop ends by its own `break`. The loop of loopback.rs
--     runs on the length of the stream, of which each turn takes four bytes or more.
--
-- Not modelled: the tokio channels of 256 envelopes from a transport to its forwarder and on to the
-- main loop of `aegis serve`, whose receivers may lag: an event of Cli/Serve is an envelope that the
-- main loop was handed. Nor the parsing of arguments, `aegis peers`, which shows a fixed text, and the
-- Android application; the modes of files, and the pragmas of the database. `ChannelRole` and
-- `ChannelMembership` are data that no function uses.
pub mod Base
pub mod Error
pub mod Ffi
pub mod Crypto
pub mod Messaging
pub mod Mesh
pub mod Transport
pub mod Samples
pub mod Json
pub mod Config
pub mod Storage
pub mod Cli
