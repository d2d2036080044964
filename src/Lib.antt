-- ===== src/Lib.antt =====
-- Domestic Oracle: the consent gate of a household assistant and what it rests on.
--
-- An agent asks for an action; `request_action` (backend/consent.py) looks the agent up, scans the
-- content that led to the request, asks the circuit breaker and the policy engine, and then runs the
-- work, holds it for the owner or refuses it. Every outcome is an entry of the hash-chained, signed
-- ledger. The owner answers what is held with `resolve`, which runs the stored action.
--
-- Parts, each with the module that models it:
--   Prelude, Python   shared lists, integers and keyed tables; Python's numbers (fixed point with six
--                     decimals, and inf, -inf, nan), JSON values and dicts, and a record of the
--                     library functions that the program takes from Python
--   Sessions          backend/sessions.py, the owner's sessions
--   Limits            backend/limits.py, hourly and daily limits
--   Crypto            backend/crypto.py: Keys (key loading, keyset, rotation), Requests (freshness,
--                     nonces); the package `cryptography` is a record of three functions
--   Ledger            backend/ledger.py: Entry (rows and their hashes), Append, Verify, Anchoring,
--                     Spending (sum_today), Views, Summary; the other children are proofs
--   Monitor           backend/monitor.py, one scheduled check
--   Risk              backend/risk.py
--   Policy            backend/policy.py: Rules (evaluation), Store (rules, mode, cache)
--   Provenance        backend/provenance.py, with the compiled patterns as a
--                     parameter; Rules is the table that they are compiled from
--   Consent           backend/consent.py: Tables (agents and approvals), Gate (request_action), Queue
--                     (resolve), Signed (verify_agent_request)
--   Auth              backend/auth.py, the owner's passphrase
--   HomeAssistant     backend/home_assistant.py, with the mock home; Values is `control` at any JSON
--                     value, as a stored request can hold it; Live is the REST backend, Listener the
--                     WebSocket task as a state machine
--   Agent             backend/domestic_oracle: Executor (`_execute` of agent.py, which re-runs held
--                     actions), Tools (the guarded tools), Lookups (discover_devices), Inbox
--                     (read_inbox), Home (their outside in the mock home), Mailbox (the mail client as
--                     their outside)
--   Stream            backend/domestic_oracle/stream.py: Frames (`_translate`), Pump (the bridge from
--                     the worker thread to the event loop, a relation between states)
--   Mail              backend/domestic_oracle/atomicmail_client.py: Work (proof of work), Token (the
--                     capability token), Calls (credentials, JMAP session and request), Messages (what is
--                     sent), Client (send, reply, list_inbox, search)
--   Mcp               backend/mcp_server.py: Tools, Token (`_TokenGuard`)
--   Routes            backend/main.py: Chats (histories), Events (live device states), Owner (login,
--                     keys, export, policies, control panel, external agents, approvals), Status
--                     (health, monitor, MCP)
--   Server            backend/main.py as a whole: State (one state for all routes), Open (the routes that
--                     ask for no session), Gateway (the mounted MCP
--                     server, the health check), Owned (the owner's, behind `require_owner`)
--   Verifier          tools/verify_ledger.py, the offline check of an export
--   Tests             examples
--
-- A function that changes tables or globals takes the state and gives the new one beside its result.
-- An exception is `none`, or a constructor of the result's type. The work behind the gate is a
-- function on a state of the outside, which returns a text or raises. Each reading of the clock is an
-- argument, in microseconds; the ids and keys that are drawn at random are arguments too. The loops go
-- over lists, but for the search of the proof of work, which has fuel: any amount above the nonce that
-- it finds is enough. The two threads of the stream are a relation, one step for each move.
--
-- The agent's tools, the MCP tools and the routes all end in `Consent.request_action`; what is held
-- there waits with its action and arguments until `Consent.resolve` hands them to `Agent.execute`. The
-- outside that the work reaches is a record of callables, `Agent.Outside`, which `Agent.Home.outside_of`
-- fills with the mock home and a mail client.
--
-- A route of Server takes the whole state, which the next request finds; the server's key is loaded
-- before the gate runs, where it was not. A turn of the model that answers the chat is a list of guarded
-- tools that it uses, with the texts that it sends. Credentials without a required field count as a
-- KeyError when they are loaded. The live Home Assistant's names and states are texts.
-- How SQLite and Python add up the day's spending is a parameter of which nothing is assumed; all other
-- numbers have six decimals, exactly. The stream's consumer is read to its end.
--
-- Not modelled: the Countersig path (a service; the model is the local path, where it is not
-- configured), the amounts in the ledger's summary, the language model that turns text into rules, the
-- start of the agent's runtime and of the application, a client that leaves a chat stream before its end,
-- the OverflowError of a whole number that no float can hold, the owner's routes that show the monitor's
-- and the MCP server's settings as part of Server (they only read, and stand in Routes.Status), and
-- backend/vendor.
pub mod Prelude
pub mod Python
pub mod Sessions
pub mod Limits
pub mod Crypto
pub mod Ledger
pub mod Risk
pub mod Policy
pub mod Provenance
pub mod Consent
pub mod Verifier
pub mod Monitor
pub mod Auth
pub mod HomeAssistant
pub mod Agent
pub mod Mcp
pub mod Stream
pub mod Routes
pub mod Server
pub mod Mail
pub mod Tests
