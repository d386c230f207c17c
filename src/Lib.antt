-- ===== src/Lib.antt =====
-- The DHTDynamic audit strategy: a plugin for auditing files that are kept on a server and change.
-- The owner of a file tags its blocks, an auditor challenges the server for some of them, the server
-- proves that it holds them, and the auditor verifies the proof. A hash table with a version and a
-- time stamp for each block goes with the file, and maintenance requests update, insert and delete
-- its entries. An engine asks the strategy for the request of a stage, runs the stage, and passes the
-- results on in a context.
--
-- The parts, and the files that model them:
-- - Metadata: a block's metadata (include/DHTDynamicAuditStrategy/state_stores/versioned_block_metadata.h).
-- - Store: the state store (source/state_stores/dynamic_hash_table_state_store.cpp). Its state is a
--   map from file identifiers to the cells of a heap of collections, since the collections are
--   shared pointers, with the factory and the readings of the clock. Store/Rebuild is how insertBlock
--   and deleteBlock write a collection anew; Store/Spec is what the store promises, lists of blocks
--   for each file; Store/Invariant is what holds of every block's metadata in a store; the other
--   children relate the store and its promise.
-- - Maintain: the stage that changes the store (source/maintain.cpp, with maintain_types.h).
-- - Common: the hash of a block's identity and the sum of its 32-byte segments (source/common.cpp).
-- - Messages: the data between the stages (params.h, tags.h, challenges.h, proves.h, request_ext.h).
-- - Tags: the tag stage (source/generate_tags.cpp). It reads the store, and registers in it the
--   blocks that it does not know.
-- - Challenges: the challenge stage (source/generate_challenges.cpp), over the store too.
-- - Keys: the parameters of a user (source/generate_keys.cpp), with the loop that draws a scalar that
--   is not zero, which the challenge stage has too.
-- - Initialize: the empty parameters of the algorithm (source/initialize_algorithm.cpp).
-- - TagPoint: the arithmetic of tags (source/tags.cpp).
-- - Proofs: the proof and its verification (source/generate_proofs.cpp). Proofs/Audit and Proofs/Cycle
--   put the stages together.
-- - Requests: createRequest (source/strategy.cpp), which makes the request of each stage from the raw
--   input of an engine and the context. Requests/Carried is the context and the requests;
--   Requests/Engine, Chain and Cycle follow the requests of an audit through the stages.
-- - Wire: the readers and writers of the messages (source/params.cpp, challenges.cpp, proves.cpp,
--   tags.cpp, versioned_block_metadata.cpp, with params.h and maintain_types.h).
-- - Artifacts: the factory of empty objects that are read into (source/artifact_factory.cpp).
-- - Plugin: the strategy object, its exported constructor and its algorithm, of which only whether
--   it is there is kept, and the making of the store (source/strategy.cpp, strategy.h).
-- - Reach: the stores that come about, by calls of the store and the stages (source/strategy.cpp hands
--   each stage its request and the store), by collections that an engine hands to the store with
--   setBlockMetadataCollection, and by what it changes through the pointers that it has.
-- - Base, Exec, Run, Fallible: helpers, and the three kinds of outcome below.
-- - Tests: concrete instances of the interfaces, and runs on them.
--
-- Code that is not in the repository is an interface in CoreLib, taken as an instance argument: the
-- sparse collections of metadata and of tags, with the laws of a map; the SM9BLS scalars, points and
-- pairing; the serialization of metadata; the sources of randomness; the JSON values and data maps of
-- an engine's input; and the archives, which read back what they wrote. What a theorem needs of the
-- pairing is a named hypothesis (Proofs/Laws): it is bilinear, and computed away from infinity.
--
-- An operation of the store or a stage is a function from a state to an outcome (Exec): a value or
-- an exception, and in both cases the state that is left. A request that is made and an object that
-- is read are values or exceptions (Fallible), without a state. `std::size_t` and `std::uint64_t`
-- are natural numbers below 2⁶⁴ with the wrap-around of `blockIndex - 1`, `idx + 1` and the local
-- index of a block written out (word_pred, word_suc and word_sub of Base). The loops of the
-- challenge stage draw until they like a number, so they run on fuel (Run); any fuel above a number
-- of draws that hits enough blocks is enough for the picking loop, and any fuel above the number of
-- zeros in a row for the loops of scalars.
--
-- Not modelled: the mutex of the store, since each call holds it from its start to its end and is one
-- step here; logging; the pointers to metadata that getBlockMetadata hands out, whose callers in the
-- repository copy what they point to (in Reach any collection may be changed at any time); a null
-- collection given to setBlockMetadataCollection, which the next call dereferences; what is left in an
-- object when its reader throws, which no code of the repository uses; generateKeys on a null
-- algorithm, which is undefined in the language; the constants by which a plugin names itself and
-- lists what it can do, and the exported destructor, which decide nothing of an audit.
pub mod Base
pub mod Fallible
pub mod Exec
pub mod Metadata
pub mod CoreLib
pub mod Messages
pub mod Common
pub mod Store
pub mod Maintain
pub mod Tags
pub mod TagPoint
pub mod Proofs
pub mod Run
pub mod Challenges
pub mod Initialize
pub mod Keys
pub mod Requests
pub mod Wire
pub mod Plugin
pub mod Reach
pub mod Artifacts
pub mod Tests
