-- ===== src/Lib.antt =====
-- CIPHER: availability contracts between publishers and storage providers, their payments, and the
-- protocols by which chunks are moved.
--
-- The Go program has a publisher pay a provider for keeping the chunks of a file. The contract
-- package holds one record for each contract, challenges the provider in epochs that cover every
-- chunk once, records the verified answers and settles the payment by the share of answers that
-- passed. The payment dispatcher turns each verified answer into a signed payment state or a signed
-- record of the failure, which the coordinator submits to the chain. Chunks are uploaded to providers
-- by the push protocol and fetched by the chunk protocol, in length-prefixed messages. Requests for a
-- file, each behind a proof of work, make up its demand, and announcements its replicas.
--
-- The parts, and the files that model them:
--   * Availability/Types.antt: availability/availability-contracts/types/types.go, the objects.
--   * Availability/Lifecycle.antt: contract/lifecycle.go and contract/state.go there. `Follows` is
--     the state diagram as a relation, stated apart from the table of the code.
--   * Availability/Epoch.antt: challenge/epoch.go. Each operation takes the epoch store and returns
--     it with its result. Epoch/Coverage and Epoch/Fresh are on the choice of chunks, Epoch/Store
--     and Epoch/History on sequences of operations.
--   * Availability/Challenge.antt: challenge/challenge.go and challenge/randomness.go.
--   * Availability/Verification.antt: verification/verifier.go. Verification/Binding is on Merkle
--     proofs, Verification/Accepts on whole responses.
--   * Availability/Merkle.antt: integration/availability/merkle.go, the prover's side.
--   * Availability/Settlement.antt: settlement/settlement.go, with the wrap-around of int64.
--   * Availability/Contract.antt: contract/contract.go and contract/verify_and_record.go. `System`
--     is the state of the package: contractStore, whether a resolver is set, and the epoch store.
--     Contract/Store, Funding, Initiate, Record and Settle hold the operations under the names of
--     the Go functions in snake case; Invariant, Effects, Bodies, Initiation, Steps, History,
--     Endings and Refusals are on them.
--   * Chunk.antt: network/protocol/chunk (limits.go, messages.go, decoder.go, validation.go).
--     Framing, Decoding, Payloads and Accepts are on its operations.
--   * Distribution.antt: network/distribution. Distribution/Tracker is tracker.go, and
--     Distribution/Counts is on it; Distribution/Planner is planner.go, and Distribution/Placement
--     is on it.
--   * Escrow.antt: availability/escrow-payment. Escrow/Bindings is bindings/registry.go,
--     Escrow/Payment the payment package, Escrow/Coordinator is coordinator/publisher.go and
--     coordinator/sign_only.go, and Escrow/Schedule, Escrow/FailRecord and Escrow/Dispatcher are
--     coordinator/dispatcher.go. Outcomes says what a dispatch does on every branch; Tally
--     counts the results of a history on its own; Recent, Streak, Ledger, History, Promises and
--     Reached are on its schedules over any history, Repeats on failed and
--     repeated dispatches, Evidence on slashing, Vouchers and Forward on the coordinator, Redeeming
--     and Settling on the calls of the chain, Encoded on the encodings.
--   * Push.antt: network/protocol/push. Push/Messages is messages.go, Push/Handler and Push/Stream
--     are handler.go, Push/Client is client.go. Push/Steps is any interleaving of streams: a chunk
--     is checked and committed in two steps, as the handler gives up its mutex in between. RoundTrip
--     is on the messages, Checks and Batches on every branch of the handlers, Sound on the
--     invariant, Uploads on accepted batches, Reading and Serving on the loop.
--   * Demand.antt: availability/proof-of-request. Demand/Requests is request/request.go,
--     demand/tracker.go and validation/validator.go: the store of pending requests, whose records
--     timers hold too. Sums and Pending are on its invariant, Histories on any sequence of its
--     critical sections, Effects on requests as a set of pairs, Races on what comes
--     between the two critical sections of ResolveRequest and AbortRequest. Work is
--     security/pow.go with ValidateAndTrackRequest of integration/availability/demand_bridge.go, and
--     Announcements is cacheAnnouncement, and Replicas is replica/tracker.go, demandMetadata and
--     IngestAnnouncement of the bridge.
--   * Prelude.antt: numbers, lists, byte strings, maps, results and encodings.
--   * Examples.antt: concrete inputs.
--
-- How the code is rendered. A string or byte slice is a list of numbers; a map is an association
-- list; a pointer held by a map is written back where it is changed. Every exported operation of the
-- contract and epoch packages holds its package's mutex, and is one step; StartNextEpoch
-- gives it up before it creates the epoch, and no operation removes an epoch in between. What `rand.Read`, the
-- clock and the chunk count resolver answer are arguments of the operation that asks; so is what
-- others do to the request store while ResolveRequest or AbortRequest does not hold its mutex. Times are
-- nanoseconds. An int64 or int that may be negative is a signed number, and the products and
-- differences of settlement.go wrap at 64 bits; a uint64 counter is reduced modulo 2 ^ 64.
--
-- Parameters. SHA-256 is a function `sha256` on byte strings, with the one hypothesis, where it is
-- used, that a digest has 32 bytes; nothing else is asked of it, and a collision is one of the
-- outcomes of the theorem on binding. ed25519.Verify is a Boolean function of key, message and
-- signature; where a signature of ed25519.Sign has to verify, `IsKeyPair` says so of one key. The
-- coordinator's signer answers with the state it is given and some signature, and the adapters of
-- the chain answer a call with success or an error. Decoding a manifest's JSON is a partial function
-- of its bytes, and what the file system does to the content store is an argument of the handlers.
--
-- Fuel. The loop of NewMerkleTree runs once for each level of the tree; its fuel is the number of
-- leaves. Every round halves the level, so this is enough. The loop of handleStream has
-- fuel for each byte of its stream and one more: a message takes at least four. The loop of
-- GeneratePoW need not end; its fuel is the number of nonces that it tries.
--
-- Not modelled: tickets and request signatures, which are JSON; streams and contexts of the chunk
-- protocol; the packages on discovery, identity, transport, storage, transfer and retrieval, which
-- are mostly I/O; the Ethereum client and generated bindings; the distributor of
-- network/distribution; the Solidity contracts, in another language.
pub mod Prelude
pub mod Availability
pub mod Chunk
pub mod Distribution
pub mod Escrow
pub mod Push
pub mod Demand
pub mod Examples
