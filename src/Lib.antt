-- ===== src/Lib.antt =====
-- CacheProxyfy, a caching proxy for the package registries of npm, PyPI, Maven and Go.
--
-- A request names a file of a package version. `serve` looks the version up in Redis and then in
-- PostgreSQL for the checksum of an artifact, opens it in the artifact store, and otherwise has the
-- version scanned for known vulnerabilities, fetches it through a singleflight group, a rate limiter
-- and a retry loop, answers, and leaves the writing of indexes and logs to goroutines. A worker
-- evicts what was not requested for a while, and an API reads the tables. A tool of its own copies
-- the artifacts from the local store into S3.
--
-- Files and code (paths from the repository's root):
--   Proxy/Http             ServeHTTP, handleHealth, handleMetadata of internal/proxy/proxy.go
--   Proxy/Serve, Tasks     serve, stage by stage, and the goroutines that it starts
--   Proxy/World            the state that requests share
--   Proxy/Retry            internal/proxy/retry.go, fetchFromUpstream and doFetch
--   Proxy/Router           internal/proxy/router.go
--   Singleflight           internal/singleflight/singleflight.go as a step relation
--   RateLimit              internal/ratelimit/ratelimit.go
--   Security               internal/security
--   Ecosystem              internal/ecosystem, a file for each registry
--   Cache                  internal/cache/redis.go, over the interface Cache/Redis of the driver
--   Db                     internal/db: Schema, then Packages, Listing and Audit for
--                          package_store.go, Connection for DSN in db.go
--   Storage                internal/storage: the interface Backend, and the local store over the
--                          file system of Disk
--   Storage/S3             internal/storage/s3.go, over the requests of Storage/ObjectStore
--   Eviction               internal/eviction/eviction.go
--   Migration              cmd/migrate/main.go: Work for the list of entries, Pool for the workers as
--                          steps, Start for what is around them, Sizes for formatBytes; the other
--                          files hold what their runs keep to
--   Metrics                internal/metrics/metrics.go: the families and the series that New starts
--   Proxy/Concurrent       several requests in serve at once, with the singleflight group between
--                          them: the steps, what the group hands out (Shared, Flights), the answers,
--                          the store (Origins), what the indexes point at (Checksums, Indexes, Hits),
--                          and that nobody is stuck
--   Config                 the settings of internal/config/config.go; Load over the interface
--                          Config/Viper of its library
--   Program                main.go: the start, and the handlers of the proxy's port (Access) and of
--                          the internal one (Internal) behind the authentication; Shutdown for the
--                          servers and signals as steps; Health for cmd/healthcheck/main.go
--   Auth                   internal/auth/middleware.go
--   Api                    internal/api/handler.go
--   Prelude                shared types, tests, texts as lists of bytes, sorting, 64-bit integers
--   Tests                  runs at concrete inputs
--
-- State is passed explicitly: an operation takes the state and returns its result with the new
-- state. Errors are values of `Result`. Calls to Redis, the database and the file system fail by a
-- script, which the theorems leave open. Texts are bytes. Durations and offsets are 64-bit patterns
-- that wrap around; sizes, counters, identifiers and instants are unbounded. A subtraction from an
-- instant stops at the origin of time.
--
-- Redis, the backend of the store and the token bucket are records that the proxy takes as section
-- parameters, with the laws that it relies on. Redis is filled by a server in memory, the backend by
-- the local store and by S3 over any service with the laws of ObjectStore, which a bucket in memory
-- meets, the token bucket in the tests by a counter. Further parameters are the transport and the
-- replies of the registries and of OSV, the JSON codec, the jitter of delays, bcrypt, viper, the driver
-- of PostgreSQL, and the parsing of durations.
--
-- The retry loop runs on the number of attempts that its configuration allows, which is the bound of
-- the source's loop; the scale of a size runs on 64 rounds, of which it needs at most six for a
-- 64-bit size; the digits of a number in the connection string are at most 20, which 64 bits need;
-- the other loops follow lists. The function `serve` is one request by itself, with the result of a
-- fetch that it joins given. In Proxy/Concurrent any number of requests take its stages as steps in
-- any order, between which their goroutines run, each as a whole; a lookup, the scan, and the
-- callback with its wait and its attempts are one step each. Inside the singleflight group the steps
-- are those of Singleflight. The workers of the migration tool go in any order, one step at a time;
-- they have S3 and the local store to themselves. The order that SQL leaves open among equal rows is
-- that of the table, and the order of the router's ecosystems is that of the source.
--
-- Not modelled: SHA-256 checksums, which the proxy does not compute, the JSON rendering, the text
-- format of the counters, log lines, what histograms observe, and the time limits of the servers.
-- A database statement that was committed and whose reply is lost is left out, and so is that net/http
-- cleans paths and redirects. In Proxy/Concurrent a Put is one step: the local store shares a file
-- between the Puts under one name, and runs in which two of them overlap are left out.
-- In Program/Shutdown the requests do not show, and the eviction worker only as told to stop or not.
-- What viper finds in files and variables is a parameter with the documented order of precedence as
-- its law. Expiry of Redis keys shows only as keys that are not found, a response of S3 is never lost
-- after S3 has acted, and a panic of the Maven handler's UpstreamURL shows as a missing URL.
pub mod Prelude
pub mod Api
pub mod Auth
pub mod Cache
pub mod Config
pub mod Db
pub mod Ecosystem
pub mod Eviction
pub mod Metrics
pub mod Migration
pub mod Program
pub mod Proxy
pub mod RateLimit
pub mod Security
pub mod Singleflight
pub mod Storage
pub mod Tests
