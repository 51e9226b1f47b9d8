-- ===== src/Lib.antt =====
-- The core of AI Usage Tracker, the Tauri application that keeps the accounts of several AI providers
-- and shows how much of each is used. The code is the Rust of src-tauri/src. A refresh asks a provider
-- for the usage of an account and saves it; alerts, groups and the order of the accounts are kept in
-- small stores beside the accounts, each in a JSON file; the usage seen is kept as a history of months.
-- A pairing peer can send accounts and groups, over the local network or as QR codes.
--
-- The parts, with the source that each is about:
--   Prelude       lists, texts, sets, maps and results that the others share
--   Model         src-tauri/src/model.rs: Provider, UsageWindow, UsageSnapshot, Account
--   Windows       src-tauri/src/model.rs: WindowKind::classify and what calls it
--   JsonFile      src-tauri/src/store/json_file.rs and platform/fs_util.rs: JsonFileStore and its writes
--   AccountOrder  src-tauri/src/store/account_order.rs: AccountOrderStore
--   Limits        src-tauri/src/limits.rs and store/mod.rs: bounds, clamp_chars, is_valid_account_id
--   Sanitize      src-tauri/src/limits.rs: sanitize_imported_account and the checks on input
--   Buckets       src-tauri/src/store/buckets.rs: BucketStore, the account groups
--   Accounts      src-tauri/src/store/accounts.rs: AccountStore, its files and the deleted accounts
--   Secrets       src-tauri/src/store/credentials/cache.rs and mod.rs: the sign-ins and their cache
--   Chunks        src-tauri/src/store/credentials/chunking.rs: credentials cut in pieces
--   Alerts        src-tauri/src/store/alerts.rs: AlertStore, with evaluate
--   Airgap        src-tauri/src/pairing/airgap.rs: the transfer by QR codes
--   Pairing       src-tauri/src/pairing/mod.rs and commands/pairing.rs: PairingSessionManager
--   Protocol      src-tauri/src/pairing/protocol.rs: the frames on the wire
--   Transport     src-tauri/src/pairing/transport.rs: run_authenticated_transfer
--   History       src-tauri/src/history/store.rs and mod.rs: months, readings, shortening
--   RefreshLoop   src-tauri/src/refresh_loop.rs: when a refresh is due, the turns up to a refresh
--   Backoff       src-tauri/src/refresh_backoff.rs: RefreshBackoff
--   Version       src-tauri/src/updater/version.rs: which version is newer
--   Tests         runs at fixed inputs
--
-- A method of a store is a function with its name that takes the store and returns the store after the
-- call with the result; what the call takes from outside (the clock, a new id, how an access to the
-- disk ends) is an argument. A lock is held for a whole call, so the calls of a history come one after
-- another. A text is the list of its Unicode scalar values. Error texts that only report are
-- constructors. Loops are structural recursion, with three exceptions: decimal digits and chunks of
-- bytes run on the value and the length, and the shortening of a month on a count of turns, for which
-- one more than the readings of the month is enough.
--
-- Parameters stand for code from elsewhere: serde_json is a codec, which where a theorem says so reads
-- back what it writes, but for the floating point numbers of usage (ReadsBack in JsonFile.antt), a
-- HashMap is iterated in any order that visits each entry once, f64 is a type with the few tests that
-- the code applies, and the Unicode tables of std are functions. atomic_write_private leaves the new
-- contents or the old ones, and when its last call fails it reports an error with the new contents in
-- place; the platform's credential store is a map whose calls work or fail. The version counter of the
-- accounts wraps at 2 ^ 64. SHA-256, base64, the URL parser, the ciphers and the compressor are
-- functions; CodecLaws in Airgap/Frames.antt is what is relied on of them.
--
-- A session between two devices is a history of calls, events and commands in any order, each of which
-- is one step; a confirmation is two, one under each lock, and so is an attempt to join by a code, whose
-- lookup in between may take any time. A channel is a number, and what is sent on
-- it stands in a log. A transfer is a step on each thing that can happen to it, and each write succeeds
-- or fails as the step is told.
--
-- Not modelled: the HTTP clients of the providers, the sign-in windows, the local API, the discovery and
-- the handshake of two devices and what their payload holds, the months of the history on disk and its
-- reports, what a refresh does, diagnostics, the platforms' credential stores, the commands that connect
-- the parts, and the frontend.
pub mod Prelude
pub mod Model
pub mod JsonFile
pub mod AccountOrder
pub mod Limits
pub mod Buckets
pub mod Backoff
pub mod Version
pub mod Windows
pub mod Accounts
pub mod Sanitize
pub mod Secrets
pub mod Alerts
pub mod Chunks
pub mod Airgap
pub mod Pairing
pub mod Protocol
pub mod Transport
pub mod History
pub mod RefreshLoop
mod Tests
