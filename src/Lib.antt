-- ===== src/Lib.antt =====
-- Vorliq: the logic of the Node backend that decides and keeps state, and the pages' signed requests.
--
-- The backend stands between the clients and the Flask service that holds the chain. It checks who
-- may write, limits and bans abusers, keeps small stores in JSON files, caches answers and watches
-- the service. The modules follow its files:
--
--   Json           the values of a request's payload, and canonicalJson and bodyWithoutAuthorization
--                  of backend/middleware/signedAuthorization.js
--   Auth.Lockout   backend/middleware/authLockout.js: the failures of each client. lockedSecondsRemaining
--                  is locked_seconds_remaining, recordFailure is record_failure, clearFailures is
--                  clear_failures
--   Auth.Base58    base58Encode of backend/middleware/signedAuthorization.js
--   Auth.Signed    the rest of that file up to verifySignedAuthorization: the table of routes in Routes,
--                  the hashes, keys and addresses in Crypto, the message in Envelope, the checks and the
--                  nonces in Verify
--   Auth.Gateway   requireSignedAuthorityWrite, which joins the two: it asks Auth.Lockout first, then
--                  Auth.Signed, and tells Auth.Lockout how it went
--   Faucet         backend/faucetAbuse.js, its admin views in Faucet.Views, and in Faucet.Race and
--                  Faucet.Limit how backend/routes/faucet.js calls it
--   RateLimit      backend/rateLimitStore.js; RateLimit.Admin is backend/middleware/adminAuth.js, which
--                  keeps its counters there; RateLimit.Limiters is backend/middleware/rateLimits.js
--   Referral       backend/referralStore.js
--   ResponseCache  backend/cache.js; ResponseCache.World has the requests whose producers overlap
--   Chat           backend/chatStore.js
--   Monitors       backend/monitors.js
--   Pagination     backend/pagination.js
--   NodeLifecycle  backend/nodeLifecycle.js
--   Address        backend/address.js
--   Validation     backend/middleware/validation.js: the result of a check and its monad in Check, the
--                  checks of one field in Field, those of the routes in Routes, validateBody in Body
--   JsonStore      backend/jsonStore.js: the files of one store and the acts of atomicWriteJson and
--                  safeReadJson in Disk, withLock of several processes in Lock, the health in Health
--   NodeCompare    backend/nodeCompare.js; the raw node and the forbidden markers are in NodeCompare.Raw
--   Incidents      backend/incidents.js: the checks and the new incident in Incidents, the operations on the
--                  store in Incidents.Store
--   Reports        backend/communityReports.js
--   NodeMonitor    backend/nodeMonitor.js: the alerts and the status of the network; NodeMonitor.AlertState is
--                  updateAlertState, shouldSendOperatorAlert and markAlerted
--   Client         the pages' side of a signed request: Client.Signer and Client.Transfer are
--                  frontend/src/helpers/signer.js, Client.Wallet and Client.Backup are
--                  frontend/src/helpers/storage.js,
--                  Client.Authority and Client.Messages are frontend/src/helpers/signedAuthority.js;
--                  Client.Accepted joins them with Auth.Signed
--   Common         lists, dictionaries, integers and texts that they share
--
-- A definition has the name of the function that it models, in this library's spelling. State is
-- passed explicitly: an operation takes the state (a Map, or the content of a JSON file as it was last
-- written) and returns the new one with its answer. A JavaScript object or Map is a Dict, whose keys
-- are distinct; the key `__proto__` of an object is not treated specially. Errors are values.
--
-- Assumptions. One request reads the clock once, as a number of milliseconds from 0. The JSON
-- files can be read and written, and hold what was written last; one process works on them at a
-- time, except in Faucet.Race and JsonStore.Lock. Texts are texts of Unicode scalar values,
-- measured in UTF-16 units as JavaScript does; toLowerCase changes the ASCII letters only. A
-- number of a payload is the text that JSON.stringify prints. Limits that the environment can
-- change have their default values, or are parameters.
--
-- Parameters. Node's crypto module and the conversions of JavaScript are the record
-- Auth.Signed.Crypto.Runtime; the hash of admin tokens, Number.parseInt and the producers of
-- cached answers are arguments, and so are JSON.parse and JSON.stringify of the JSON files. The
-- record Validation.Check.Env holds Number and the numbers, new URL, net.isIP and the setting of
-- NODE_ENV. The record Client.Browser.Browser holds what the pages use of Web Crypto, base64, JSON
-- and the elliptic library. Nothing is assumed of them but what a theorem names.
--
-- Bounds. base58Encode divides a number until it is 0: its loop is recursion on fuel, and the
-- number itself is enough fuel, since a division by 58 makes a positive number smaller. All
-- other loops are over lists and texts. The loop of withLock is recursion on the list of what its
-- attempts meet; a theorem says how many attempts are enough. Walking through pages takes at most
-- as many requests as there are items.
--
-- Not modelled: what only passes requests on to Flask, the texts of messages, logging, mail,
-- timers, what the stores do while a lock file is in their way, the other stores and routes of
-- the backend, the pages and other helpers of the frontend, the mobile application, the SDK, the
-- tools, and the blockchain service in Python.
pub mod Common
pub mod Json
pub mod Address
pub mod Auth
pub mod Chat
pub mod Client
pub mod Faucet
pub mod Incidents
pub mod JsonStore
pub mod Monitors
pub mod NodeCompare
pub mod NodeLifecycle
pub mod NodeMonitor
pub mod Pagination
pub mod RateLimit
pub mod Referral
pub mod Reports
pub mod ResponseCache
pub mod Validation
