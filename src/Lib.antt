-- ===== src/Lib.antt =====
-- simply_ip_exporter: a daemon that mirrors IP records from a Vault service into memory and publishes
-- them as plain-text feeds, with a signed API for its own keys and endpoints.
--
-- A background worker (Sync, src/sync.rs) asks Vault for the records of each endpoint through the
-- paging client (VaultClient, src/vault_client.rs, whose requests are in VaultClient/Wire) and puts
-- them into the in-memory cache (Cache, src/cache.rs). The public feed (Feed, src/feed.rs) reads the
-- cache within the endpoint's retention window, filters and aggregates the networks (IpFilter,
-- src/ipfilter.rs), answers a current copy with 304 and charges a listing to the client at the
-- limiter (RateLimit, src/ratelimit.rs). The client's address comes from the peer and the forwarding
-- headers (Config, src/config.rs, whose settings are in Config/Runtime), against the trusted
-- proxies, whose host names and those of bound_ips lists (BoundIps, src/bound_ips.rs) share one
-- resolver cache (Dns, src/dns_cache.rs). Requests to the API pass the middleware (Auth,
-- src/middleware.rs), which checks the signature (Crypto, src/crypto.rs), the identity of the Master
-- (Master, src/master.rs), the single use of the signature (Replay, src/replay.rs) and the key's
-- networks. Support (src/api/support.rs, src/api/guards.rs) is what the handlers share; they work on
-- the rows of the database and on the cache: Keys (src/api/keys.rs), Endpoints
-- (src/api/endpoints.rs) and Groups (the grants of src/api/groups.rs and their cleanup,
-- src/groups.rs); Reads is the handlers that only read. Api is the routes of src/lib.rs that change
-- the state, and the daemon as a sequence of requests, cleanups and sync passes, each run to its
-- end. Startup is the start of the process up to the pinned Master (src/main.rs, with the
-- INITIAL_MASTER_KEY check of src/config.rs). Error is src/error.rs, Entities the rows of
-- src/entities/.
--
-- Each operation is a function of its state that returns the new state, with the name it has in the
-- source; a handler threads the states in the order of its awaits. `now` is the instant that the
-- call reads, in nanoseconds; dates are numbers, and UUIDs are numbers. A lock that is held for a
-- whole method makes the method one step; a poisoned lock is a flag. A hash map is an association
-- list with the same lookups (Prelude/HashMap). Text is a list of UTF-8 bytes, and white space is
-- that of ASCII. The signed integers are unbounded, and the one computation that can wrap around,
-- the skew of a timestamp, has its wrap-around written out (Prelude/Int).
--
-- What is outside the repository is a parameter: the ipnet crate and the address parser
-- (Prelude.Net.IpNets), the cryptographic crates (Crypto.Primitives), the system resolver, Vault's
-- answers and the order in which its concurrent pages arrive, date arithmetic, sorting, and what the
-- database answers. A forwarding header is the list of its lines, each as far as the HTTP crate
-- reads it as text. Loops are structural recursion; the sequential walk over Vault's pages has the
-- source's own bound of max_pages turns as its fuel, which is enough for a listing of that many
-- pages, and the digits of a number have one more turn than the number.
--
-- Not modelled: the connection to the database, its migrations, the listener and the shutdown of the
-- process; the liveness probe, the request extractors, logging, the detached boot retry of host names
-- and the timers of the workers. The interleaving of concurrent requests between two awaits is modelled
-- at one place, the deletion of an endpoint, where an argument is what other requests do in between.
-- The tests (Tests) apply the theorems to small concrete worlds.
pub mod Prelude
pub mod RateLimit
pub mod Replay
pub mod Cache
pub mod VaultClient
pub mod Error
pub mod Entities
pub mod Sync
pub mod Dns
pub mod BoundIps
pub mod Config
pub mod IpFilter
pub mod Crypto
pub mod Master
pub mod Auth
pub mod Feed
pub mod Support
pub mod Keys
pub mod Endpoints
pub mod Groups
pub mod Api
pub mod Startup
pub mod Reads
pub mod Tests
