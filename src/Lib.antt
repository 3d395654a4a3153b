-- ===== src/Lib.antt =====
-- A model of the core of TronHawk: the local Core service that keeps which plugins may do what in
-- which Electron application, the protocol that its clients speak, and the rules for what a plugin
-- package may declare.
--
-- The parts and how they meet. A client sends one JSON line per request over a local socket
-- (crates/ipc/src/lib.rs); a control client proves the server before it sends its token. The
-- service (crates/core/src/daemon.rs) keeps the registered applications with a policy per plugin,
-- reads the installed plugins through a cache, and serves each application a plan: which payload of
-- which plugin runs, and with what capabilities. A plugin in a plan may ask Core for HTTP requests
-- to the domains of its manifest, which the package crate (crates/package/src/lib.rs) has
-- validated.
--
--   Common          lists, texts, maps and decimals that the parts share. A text is the list of its
--                   code points (`Str`), a `BTreeMap` or `HashMap` an association list (`Map`).
--   Json            `serde_json::Value`, its numbers kept as text.
--   Ipc             crates/ipc/src/lib.rs. Frame is `read_frame` over the buffers that `fill_buf`
--                   returns (the async reader is the same loop); Envelope the requests and
--                   responses; Hex the hex and comparison routines, of which
--                   crates/core/src/daemon.rs has copies; Client `call`, `verify_server` and
--                   `call_control` over what the peer does.
--   Package         crates/package/src/lib.rs. Plugin has its records, Identifiers the plugin ids
--                   and config keys, Domains the entries of `network.domains`, Manifest the schema
--                   with its typed forms, Paths what is used of `std::path`, Archive (with Central
--                   for the scan of an archive's bytes for repeated names) the names, sizes and
--                   order of the checks on an archive before it is extracted.
--   LogStore        crates/core/src/log_store.rs, the event log: Record its records and what makes
--                   one valid; Lines the text of a file, how it is read and recovered; Files the
--                   active file and its four archives with their rotation; Sort the order and
--                   filter of a query; Store `append` and `query`, with Open for `LogStore::new`.
--   Daemon          crates/core/src/daemon.rs. State is `ServiceInner` with the state file and the
--                   event log; StateFile `read_state` and `write_state`; Installed the cached read
--                   of the plugins; Plan `execution_plan`; Handlers and its child Policy the
--                   control handlers; Control the sequences of control requests; Token the launch
--                   tokens; RateLimit the log budget and Logs the handlers of the log; Network
--                   `network_request` with Domains (`domain_allows`) and Follow (its redirect
--                   loop); Router `handle_request` up to the handler that it calls. Install
--                   `install_plugin`, `remove_plugin` and the sweep at the start, over the
--                   directories of the installed root (Site is the service with them); Hash is
--                   `hash_bytes` of crates/core/src/lib.rs.
--   Injector        crates/injector/src/asar_merge.rs. Asar has `parse_asar` and `write_asar`,
--                   Entries the unpacked entries of a header, Merge `build_merged_asar`.
--
-- State is passed explicitly: a handler takes a `Core` and returns its result with the `Core`
-- behind it. What a request meets outside is an argument: `Env` (whether the state file and the log
-- take a write, the fingerprint and the scan of the plugin directory), the peer and its bytes, the
-- transport and the URL parser (`UrlApi`), the answers of the file system (`Disk`), the JSON text
-- of a log record (`Codec`: one line that reads back), the zip crate's view of an archive
-- (`Source`), versions and ranges (`Semver`), HMAC-SHA256 (`Hmac`, of which only that it yields 32
-- bytes is assumed), `canonical_executable` and the SHA-256 of a path, what the file system refuses
-- among the plugins' directories (`FileSystem`) and what `extract` makes of a package
-- (`Extraction`), the asar crate (`AsarApi`), the text of JSON (`JsonText`) and whether a file
-- takes bytes (`Sink`), the JSON of the state (`StateText`) and the calls on its files (`StateFs`).
-- Random bytes and clock readings are arguments too. Handlers take their parameters decoded and
-- return the values of their answer, not its JSON.
--
-- Loops are structural: `read_frame` on the buffers, the plan on the plugins, `follow` on the
-- number of redirects that are left, at first the 5 of `MAX_REDIRECTS`. Printing a number uses the
-- number as fuel, which exceeds its digits; the scan of an archive's bytes has one more than the
-- bytes, and each round takes some. Machine integers keep their bounds: FNV wraps at 2 ^ 64, sums
-- of `saturating_add` stop at `max_u64`, and parsed numbers are bounded by their type. Instants are
-- whole seconds.
--
-- Not modelled: packing, and the reading of entry files; IFEO and autostart and the start of the
-- service, which are mostly calls of the file system and of Windows around what is modelled; the
-- rest of the injector and the launcher (processes and the registry), the Manager application, and
-- the vendored electron-hook, which is third-party code. Mutexes are not modelled: each handler
-- runs alone, as the code holds the lock. One reading of the clock stands for the several of a
-- handler that takes logs, and a call for the size of the active log file does not fail.
mod Common
pub mod Json
pub mod Ipc
pub mod Package
pub mod LogStore
pub mod Daemon
pub mod Injector
