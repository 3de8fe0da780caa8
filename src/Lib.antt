-- ===== src/Lib.antt =====
-- Momoka: the verification of optimistic Lens publications that are stored on Arweave through Bundlr.
-- A submission names the block at which the publication would have been valid on chain, carries the
-- typed data that its author signed, and has a timestamp receipt. The program checks that the block,
-- the signature, the simulated effect and the event agree.
--
-- All paths are below momoka-node/src. The files and what they model:
--   Prelude        names of the libraries, Boolean tests, integers over the native numbers, the texts
--                  functions that the code calls, and promises: `Async S A` takes the state of the
--                  surroundings to a value or an error and the state that is left
--   Models         data-availability-models: `MomokaValidatorError`, `DAResult`, the publications;
--                  Models/Chain is `if (result.isFailure()) return failure(result.failure)`
--   Common         common/helpers.ts, common/environment.ts and utils
--   Submitters     submitters.ts
--   Evm            evm/ethereum.ts and evm/gateway: Interfaces is what the proofs call, Node and Gateways
--                  are how it is answered, over JsonRpc, which is
--                  input-output/json-rpc-with-timeout.ts; Anvil is evm/anvil.ts
--   Requests       input-output/bundlr, input-output/arweave and the functions with a timeout
--   Proofs         proofs and client: ClosestBlock and Utils are utils.ts; Publications has one module
--                  per verifier in proofs/publications, with the names of its methods; Checker is
--                  da-proof-checker.ts, whose methods behind the checks of the submitter are in
--                  Checker/Steps and whose interfaces are in Checker/Interfaces; Gateways and Verifiers
--                  implement these interfaces for a node and for a browser client, with the handlers of
--                  workers/message-handlers; Submissions puts the checkers together, and Clients
--                  compares what a node and a client get and verify; Batch is check-da-proofs-batch.ts
--   Database       input-output/db.ts: the variable `db` is the first argument of each function
--   Queue          queue: Known holds the program's two queues (`Shared`), Processing the rounds that
--                  empty them
--   Workers        workers/worker-pool.ts as a state that requests and messages change, one step each:
--                  the listeners of an event run in the order in which they were added
--   Watchers       watchers: Pages is `getBulkDataAvailabilityTransactions`, Verifier, Indexer and Failed
--                  are a round of each loop, with the variables of its function as a state, and Startup
--                  is what comes before the node's loop
--   Tests          runs on concrete submissions
--
-- The names are the source's in snake case. A method with early returns is one function per stretch
-- between two awaited calls, named for what is known by then (`publication_known`, `proofs_known`).
-- A scalar of the typed data or the event is a `Value`, since nothing has checked the JSON's types:
-- `strictly_equal` is `===`. Block numbers and the times of receipts, and the texts that are ids, hashes
-- and signatures, have the types that the source declares, and a number is an integer. The union of the event types, and that of the typed data, is one record with the
-- properties of every member.
--
-- Parameters, since they are code that the program only calls: axios and the GraphQL client
-- (`FetchProvider`, `Post` and functions of a URL and a body), ethers (`Ethers`, `BigNumbers`,
-- `Messages`), the encodings of the contracts' ABI (`Encodings`), arweave (`Providers`), the file system,
-- Buffer, time (`wait`, which is what passes while the program sleeps, and `late`), and the key-value
-- store with the writing and reading of JSON (`Level`, `Json`). What a theorem relies on of them it names
-- (`LevelLaws`, `IsReliable`, `AnswersBulk`, `WithinLimit`, `ServesLog`, `IsReadable`,
-- `Records`). The checker is stated over
-- its interfaces (`DaProofsGateway`, `DaProofsVerifier`, `EvmApi`), which Proofs/Gateways,
-- Proofs/Verifiers and Evm/Gateways fill. The state type is a parameter too, so a theorem holds whatever
-- the calls change.
--
-- A promise that is not awaited makes its changes at once, and what it resolves to is dropped. If it
-- rejects, `unhandled` is applied to the state: Node ends the process then, so what a run does behind it
-- says nothing of the code, and the theorems on whole rounds ask that these writes do not fail
-- (`WritesResolve`). A pool never answers a request whose handler rejects (`Answers`). Calls that
-- run concurrently follow each other in the order of their array.
--
-- `checkDAProof` calls itself for the publication that a pointer names, with `verifyPointer` off. The
-- check of a pointed publication is therefore an argument of `check_da_proof_using`, and
-- `check_da_proof` gives it the one that verifies no pointer: the recursion needs no fuel. `chunkArray`
-- takes fuel, one more than the array's length, which is enough for a size above 0; `retryWithTimeout`
-- recurses on the retries left, and a pull on the pages that may follow. A loop that runs forever is
-- modelled by one round of it, and `run_rounds` is any number of them.
--
-- Not modelled: logging, the command line, the commands that install and start the local anvil node, the
-- in-memory store, which nothing uses, the rest of the generated types, and the implementation in
-- momoka-rs.
pub mod Prelude
pub mod Models
pub mod Common
pub mod Submitters
pub mod Evm
pub mod Proofs
pub mod Database
pub mod Queue
pub mod Workers
pub mod Requests
pub mod Watchers
pub mod Tests
