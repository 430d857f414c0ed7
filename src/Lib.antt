-- ===== src/Lib.antt =====
-- Verification of axioma-oracle: the admission of oracle observations into a ledger.
--
-- The library turns the answer of an external model into an AX:OBS:v1 record. `ax_obs_admit` (src/obs.c)
-- checks the order, the identifiers and the pair of state and failure of an input, has the output
-- validated and normalised (src/validate.c), fills the record, has its canonical JSON committed to
-- (src/canonical.c, src/hash.c) and moves the admission context on. `ax_obs_validate` recomputes the
-- hash of a stored record. src/admission.c fills inputs and derives the hash of chained oracles. The
-- gateway daemon (gateway/src) reads a request (gw_main.c), writes an intent file (gw_wal.c), sends a JSON
-- body to the oracle, takes the text out of its answer (gw_json.c), has an observation admitted, validates
-- it and appends its canonical form to the evidence ledger (gw_ledger.c), a file of framed entries that it
-- replays when it starts; then it removes the intent, which a start turns into a record when it is left.
--
-- Files:
--   Prelude     shared names; tests on numbers, lists of bytes, C strings, bit masks, integers
--   Types       include/axilog/l3_types.h, limits.h and oracle.h
--   Record      include/axilog/obs.h
--   Validate    src/validate.c; children: Utf8, Nfc, Normalise and Text for the proofs
--   Canonical   src/canonical.c; children: Writer, Decimal, Hex, Escape, Parameters, Observation
--   Hash        src/hash.c; child: Compute
--   Obs         src/obs.c; children: Checks, of the code, and Inputs, Admit,
--               Refuse, Limits, Valid and Sequence, of the proofs
--   Admission   src/admission.c; children: Inputs, Derivation
--   Gateway     gateway/src
--     Ledger    gateway/src/gw_ledger.c; children: Words, Frame, Replay, Append, Restart, Mirror, Search
--     Commit    commit_observation of gateway/src/gw_main.c; children: Landed, Recorded (what
--               stands behind a receipt)
--     Json      gateway/src/gw_json.c; children of the code: Escape, Text (strings), Value
--               (s_skip_value), Body (single members), Content (gwj_content_text); of the proofs: WellFormed,
--               RoundTrip, Strings, Fuel, Loops, Printed (values and their text),
--               Spelled (the text by RFC 8259), Skipped, Lookup, Message,
--               and Loops, Blocks, Texts below Content
--     Wal       gateway/src/gw_wal.c; children: Field, Recovered
--     Protocol  the request lines of gateway/src/gw_main.c; child: Ingest
--     Request   the request body of gateway/src/gw_main.c; child: Printed
--     Serve     handle_request and recover_wal of gateway/src/gw_main.c; children: Evidence, Budget,
--               Accepted
--     Client    the attempts of gwc_call in gateway/src/gw_client.c; child: Attempts
--     Settings  the setters of gateway/src/gw_config.c; child: Accepted
--   Tests       runs on sample values
-- A definition has the name of the C function without `ax_`; a part of a function has a name of its own
-- and stands beside it.
--
-- Conventions. A byte is a number, IsByte bounds it. A pointer with a length is the list of its bytes; a
-- C string is an Option, `none` for NULL, read up to its first zero byte (`c_str`). A function that
-- fills memory behind pointers returns the new values; a count of bytes or a negative code is a
-- Result. Enumerations are numbers, since the code tests for values outside them. `room` is `size - 1`
-- in a `size_t`, which wraps for 0; the writers then write out of bounds, and the result is the code `overrun`,
-- which the source has not. The other arithmetic stays in range, as the bounds of the theorems
-- say. A field of 64 bits is a number below 2^64.
--
-- Fuel. The loops over text take the number of bytes as fuel, and each round uses one at least. The loop
-- over digits has the 24 bytes of its buffer, and 20 digits are enough for a 64-bit number. The replay of
-- the evidence file has its size and one: every round but the last takes a frame off it. s_skip_value has
-- two calls for each byte and one; the loops over members, elements and request lines have the number of
-- bytes and one (`repeat`), since a round takes one byte at least. The copy of the ledger file has its size, since
-- a round reads one byte at least.
--
-- Not modelled. `axilog_sha256` and `axilog_commit` belong to libaxilog and are a parameter (Substrate),
-- assumed to give digests of 32 bytes (IsSubstrate). Where C would read past an object the list ends. The
-- audit library is a parameter (Chain), assumed to commit in 32 bytes and to start with no fault (IsChain),
-- and what a write, a sync or an open of a file does is an argument. What libcurl does in a transfer is an
-- argument of Gateway/Client; in Gateway/Serve the whole call (gwc_call) is a parameter, a function from
-- the body to its result, and `sent` of a Daemon has the bodies that it was given. What `pread` gives at
-- each offset is an argument. The answer that is sent, the URL check, the log, the capture of fixtures, the
-- sockets, the start sequence, the reading of the configuration file, ci/, tests/ and tools/ are left out.
pub mod Prelude
pub mod Types
pub mod Record
pub mod Validate
pub mod Canonical
pub mod Hash
pub mod Obs
pub mod Admission
pub mod Gateway
pub mod Tests
