-- ===== src/Lib.antt =====
-- The indexing service finds content claims and indexes for multihashes. A query
-- (pkg/service/service.go) is a walk over jobs: a job handler asks the provider index for the
-- records of a multihash, fetches the claim that each record names, adds it to the state of the
-- query, and spawns jobs for the multihashes that the claim leads to.
--
-- Parts, and the files that model them:
--   Result       Go's errors, results, and calls with effects on a world.
--   ByteMap      pkg/internal/bytemap: a Go map as the list of its entries in one iteration.
--   Types        pkg/types: context ids, the interface of a cache, and its contract.
--   Redis        pkg/redis: a cache over a redis client, and the three stores.
--   ClaimLookup  pkg/service/claimlookup: claims by HTTP, and behind a cache.
--   BlobIndexLookup  pkg/service/blobindexlookup: the same for indexes, with Range headers.
--   ProviderResults  pkg/providerresults: provider records: their equality and their CBOR.
--   BlobIndex    pkg/blobindex: the index of the slices of a DAG, and its archives.
--   ProviderCacher   pkg/service/providercacher: a provider cached for all slices of an index.
--   Metadata     pkg/metadata: the claim metadata in a provider record, and its binary form.
--   ProviderIndex    pkg/service/providerindex: provider records, cached and narrowed.
--   JobWalker    pkg/internal/jobwalker: JobWalker/Single is singlewalk, JobWalker/Parallel is
--                parallelwalk, as the steps of the coordinator and its workers, and, in
--                Parallel/Workers, as a handler in one worker meets it among steps of the others.
--   JobQueue     pkg/internal/jobqueue: the background queue as steps; JobQueue/Contexts has the
--                contexts of its handlers, in time.
--   Assert       pkg/capability/assert: the caveats of the assert capabilities.
--   QueryResult  pkg/service/queryresult: what is built from the end of a query.
--   Service      pkg/service/service.go: jobs, keys, the state of a query, URLs, the job handler,
--                Query with both walkers, and NewIndexingService; Service/Construct is
--                pkg/service/construct.go, which joins all the parts.
--   Server       pkg/server/server.go: the handler of GET /claims; Server/Setup is the rest of it.
--   ContentClaims    pkg/service/contentclaims: the methods of the ucanto server.
--   Command      cmd/main.go: the command that starts the server.
--   DataModels   the schema types of the packages of data models.
--   TestUtil     pkg/internal/testutil/helpers.go: the requirements of the tests.
-- Prelude holds shared names and lemmas, Samples the stores, codecs and sorts that the modules named
-- Examples use.
--
-- How the code is read. A function that reads and changes the world is a function from a world to
-- a result and a world; what was written before an error stays written. CIDs, multihashes, DIDs and
-- texts are lists of bytes. Numbers are natural numbers, and an unsigned integer of 64 bits wraps
-- where it is written so. Code outside the repository (redis, HTTP, IPNI, multihash, CAR and IPLD
-- libraries) is a parameter, and what is assumed of it is a named hypothesis. Contexts appear where
-- the code reads them. A nil dereference and an index outside a slice are errors of their own, which
-- nothing catches. The parallel walk and the job queue are relations: a step is one message or one
-- return, and a run is a list of steps, where one that is not possible is passed over; so every
-- interleaving is a run. No definition uses fuel: the loops of the code are recursions on lists.
--
-- Not modelled: the parsing of the command line, what the schema library
-- makes of embedded schemas, the generators of test values, and how a context that is done changes the
-- order of the steps of the walk and the queue.
mod Prelude
pub mod Result
pub mod ByteMap
pub mod Types
pub mod Redis
mod Samples
pub mod ClaimLookup
pub mod ProviderResults
pub mod BlobIndex
pub mod BlobIndexLookup
pub mod ProviderCacher
pub mod Metadata
pub mod ProviderIndex
pub mod JobWalker
pub mod JobQueue
pub mod Assert
pub mod QueryResult
pub mod Service
pub mod Server
pub mod ContentClaims
pub mod Command
pub mod TestUtil
pub mod DataModels
