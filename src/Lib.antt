-- ===== src/Lib.antt =====
-- A model of browser-fetch-router, and proofs about it. The program fetches web pages for agents:
-- it takes a URL of a caller, tests it, chooses a provider, and fetches the page through a
-- transport that connects only to addresses that it has tested. The parts that are modelled:
--
-- * UrlSafety (browser_fetch_router/url_safety.py): Ip has the address classes and `is_blocked_ip`,
--   ParseIp `_parse_ip` (its Notations the ways to write an IPv4 address), SplitUrl the parts of a URL,
--   Encode the encodings of a host and a path, Normalize `normalize_and_validate_url`, Redirect
--   `validate_redirect` and `blocked_resolved_targets`, Result the errors.
-- * HttpClient (browser_fetch_router/http_client.py): SideEffects is the side-effect policy, Headers
--   the validation of caller headers, Transport one request over a pinned socket, and Requests the
--   redirect loop of `SafeHttpClient.request`. It uses UrlSafety for the first URL, for each
--   redirect and for the answers of the resolver.
-- * Approvals (browser_fetch_router/default_deny.py and browser_fetch_router/approvals.py): DefaultDeny
--   is what is never read without its own approval, Scopes the grammar and matching of approvals
--   and `can_read_url`, Store the stored approvals. An exact scope of a URL goes through UrlSafety.
-- * Cost (browser_fetch_router/cost.py): Ledger is `CostLedger`, TokenBucket and CircuitBreaker the
--   classes of these names. Ledger.Steps is what processes that share the file may commit.
-- * Lifecycle (browser_fetch_router/lifecycle.py and browser_fetch_router/session.py): SessionId the
--   grammar of session ids, Kill the kill sequence of one process, Cleanup `run_cleanup` with what
--   `read_json_dict` of browser_fetch_router/paths.py does to a corrupt registry.
-- * Cdp (browser_fetch_router/cdp.py): Endpoint is `cdp_base_url` and `validate_tab_websocket_url`, Chat
--   commands over a socket with `_send_cdp_command`, Pages `fetch_tab_list`, Answers what is read from
--   the answers, and Reading `fetch_tab_text` and `fetch_tab_screenshot`. The list of tabs is asked
--   through the client of HttpClient.
-- * UserTabs (browser_fetch_router/read_user_tabs.py): Failures has the envelopes of errors, Redaction
--   `redact_tab_list`, Access the approvals of a command and `_resolve_and_authorize_tab`, Listing
--   `list_tabs`, Reading `read_tab`, Screenshots `screenshot_tab` with `validate_image_dest` of
--   browser_fetch_router/paths.py, and `revoke`. It uses Approvals for what may be read and Cdp to read.
-- * Interactive (browser_fetch_router/interactive.py): Hosted is what becomes of a reservation and of
--   the answer of a hosted provider, Runs a run with its limits, its reservation in Cost and its key
--   from Environment, and the confirmation of a task, Dispatch `run_interactive_browser`.
-- * Environment (browser_fetch_router/env_allowlist.py): `provider_env` and `provider_credential`.
-- * Cache (browser_fetch_router/cache.py): reads and writes of records, and Lock the wait for the lock
--   of a read.
-- * ReadWeb (browser_fetch_router/read_web.py): Payloads has the routes, the paid fallback and the
--   shape of payloads, Reads `read_web` with the cache on both sides of the lock.
-- * Providers (browser_fetch_router/providers): Jina is `fetch` of providers/jina.py, on top of the
--   client of HttpClient and of Quality, the gate of browser_fetch_router/quality.py.
-- * Json, Schema and Statuses: JSON values, the envelope of browser_fetch_router/schema.py, and the exit
--   codes of browser_fetch_router/status.py.
-- * Prelude has what the modules share: tests on numbers, lists, text and dicts. Tests has runs of
--   the models and applies the theorems to them.
--
-- A text is a list of code points; case, white space and digits are those of ASCII. Amounts of
-- money and times are natural numbers of a small unit, where the program has floats, so their
-- rounding is not modelled; the token bucket computes in an arithmetic that is a parameter, with what
-- is relied on of floats as named laws. Ids, times and random values are arguments. The standard library is
-- that of CPython 3.11; its parts that are tables or services are parameters: the IDNA codec and
-- the NFKC test (Unicode), `urljoin`, `unquote`, and the network with the charset decoder
-- (Network), which may answer differently at each hop, psutil with the kernel (Psutil), and the
-- file system around the registries (Files). So are the JSON parser, `str` of a value, base64 and
-- the WebSocket client of a browser, the disk that an image is written to, the parsers and the
-- printer of amounts, the tests of a task against the patterns of its tier, what a hosted browser
-- or a provider of pages answers, the expression that drops scripts and styles, the digest that
-- names a cache record, and the clock and the kernel at each round of the wait for a lock. A
-- SQLite transaction, and a read and write of a JSON file under its lock, is one step. Other
-- processes stand between these steps as functions on the state that they share. A JSON integer
-- is a sign and a natural number, and a float a sign and its whole millionths.
--
-- Bounds and fuel: the redirect loop has the ten hops of the source, and running out of them is
-- the error of the source. The loop that reads a body has more fuel than the body has bytes, and
-- each read but the last takes at least one. Decimal printing has more fuel than the number. The
-- answer to a command is looked for among the hundred messages of the source. The wait for a lock
-- runs on fuel, which is enough with one round more than there are ticks to the deadline.
--
-- Not modelled: the registration of processes and the rotation of logs, the launch of a browser
-- by `setup_cdp`, the adapters of the providers other than Jina, the release of the lock of a
-- read, the parsing and dispatch of the command line, the audit log, diagnostics and
-- installation, and what is only I/O.
pub mod Prelude
pub mod Cost
pub mod UrlSafety
pub mod HttpClient
pub mod Approvals
pub mod Lifecycle
pub mod Tests
pub mod Json
pub mod Statuses
pub mod Schema
pub mod Cdp
pub mod UserTabs
pub mod Environment
pub mod Interactive
pub mod Cache
pub mod ReadWeb
pub mod Quality
pub mod Providers
