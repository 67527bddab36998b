-- ===== src/Lib.antt =====
-- Nemo messenger: the wire format and the home server.
--
-- Nemo is an end-to-end encrypted messenger. A client seals an envelope to the home server of the
-- recipient (HPKE), hands it to its own home server, and that one passes it on to the other, which opens
-- it and appends it to the mailbox that a capability token names. The owner of the mailbox fetches and
-- acknowledges with signed authorisations. Two crates are modelled here: crates/nemo-wire, the encodings
-- that clients and servers share, and of crates/nemo-server the home server, src/home.rs, its links
-- to other servers, src/federation.rs, and the host of the groups, src/group.rs.
--
-- Wire/ is crates/nemo-wire/src:
--   Wire/Cbor        cbor.rs: the writer, and the reader on fuel. `decode` gives the length of the input
--                    as fuel; Wire/Cbor/Fuel proves that more changes nothing, since every item takes a
--                    byte. Arrays and maps are data types of their own beside `Value`, a text is its bytes.
--   Wire/Envelope    envelope.rs: buckets, `pad`, padded messages, inner and outer envelopes.
--   Wire/Sign        sign.rs. The record `Crypto` holds what ed25519-dalek, sha2 and hpke do; every
--                    definition that needs one of them takes it as an argument.
--   Wire/Hpke        hpke.rs. The documented behaviour of RFC 9180 is the record `IsKeypair`.
--   Wire/Fields      the steps by which the messages read a CBOR map.
--   Wire/Card, Wire/Revocation, Wire/OwnerAuth, Wire/Bundle, Wire/S2s
--                    card.rs, revocation.rs, and of hostframe.rs the owner's authorisation, the server
--                    bundle, and the frames and payloads of the link between servers.
--   Wire/Join, Wire/Bodies, Wire/Prekey, Wire/Discovery
--                    join.rs, of hostframe.rs the bodies of a group stream and the signed responses,
--                    prekey.rs, discovery.rs.
--   Wire/Messages    the messages as one type, with what their two ends agree on; of the inner envelopes
--                    only those with a text.
--   Wire/Ids, Wire/Hex, Wire/Error
--                    the lengths, `copy_fixed`, hexadecimal text, the error type.
--
-- Server/ is crates/nemo-server/src, mostly home.rs:
--   Server/Mailbox   one mailbox: rows in the order of their numbers, the idempotency index and the byte
--                    count; `store_envelope` is the end of `append_inner`, `collect` the work of
--                    `gc_mailbox`, `fetch_rows` and `ack_upto` those of `fetch` and `ack`. The eviction
--                    loop runs at most as often as there are rows, which is enough since a round removes one.
--   Server/Tokens    capability tokens in the order they were minted. `token` finds the last entry of a
--                    key; `admit` is the match of `authorize_append`, `dead_for` and `dead_all` are the
--                    sweepers.
--   Server/Dirty     `HomeDirty`, the journal that the database writer drains.
--   Server/Home      the state `HomeServer`; Append, Owner, Capabilities, Directory and Operator hold the
--                    handlers.
--                    A handler maps a state to a result and a state, so that what was written before an
--                    error stays written. Reach holds the step relation of a home server: its handlers, the
--                    operator's calls, and the operations of federation.rs and s2s.rs that its links are made of.
--
--   Server/Federation
--                    federation.rs and s2s.rs: `pin`, `refuse`, `take_frame`, `accept_frame`, `reset_link`. A peer's
--                    frame may end in an envelope that is taken in by `ingest`. Keep shows that this does
--                    not touch the peers, Link follows one server's counters, Step those of two servers, Resume a
--                    link that was reset. Logs and Taking show that links keep the invariant of a home server.
--                    Queue is the outbound queue, Pump the pump of federation.rs (Settle and Drained show
--                    what it leaves), Dial the connections of s2s.rs: the stream is an argument that says
--                    for each frame what comes back, if anything. A round of either loop passes or removes a
--                    row, so as many rounds as rows are enough, which the theorems show.
--
--   Server/Groups    group.rs: the state `GroupHost`; Members, Admit, Stream, Files and Append hold the operations,
--                    Dirty the journal. Steps is the abstract specification: the steps that a group may go
--                    through, whatever the host does in between; Refines shows that each operation takes
--                    such steps only, and Reach, Removal and Once what follows from that. `fanout_copy` writes
--                    its row before it seals the copies, and so does the model: the row stays when a copy
--                    cannot be sealed.
--
-- Prelude/ holds what they share: lists and Boolean tests over the native numbers, byte strings, the
-- result type, maps and sets as association lists, the methods that fail and mutate, and their rules.
--
-- Numbers are natural numbers; where the source adds two `u64`, the sum is taken modulo 2 ^ 64 (`add64`),
-- saturating operations saturate, and theorems that need it say that no counter overflows. A `HashMap` is an
-- association list; no theorem depends on its order. Random tokens and the randomness of HPKE are arguments.
--
-- Not modelled: sockets, HTTP, TLS and Postgres (http.rs, tls.rs, of s2s.rs what is around the frames,
-- pg.rs), the client (crates/nemo-core), the bindings
-- (crates/nemo-ffi) and the applications. `dummy_work`, which only spends time, is left out. The nemo: URI of
-- a card is left out.
pub mod Prelude
pub mod Wire
pub mod Server
pub mod Tests
