-- ===== src/Lib.antt =====
-- AgentFactor lets coding agents work on a project together, and puts a gateway between them and what
-- they do. This library models the services that decide and that keep state, and proves what they
-- promise. Paths are those of the repository; a method `name` of the source is the definition `name`
-- here (without a leading underscore).
--
-- The parts and their files:
--
--   Base      Python's operations on texts, lists and sets; `Result` for methods that raise (a code and
--             an HTTP status), `Exec` for methods that change a state and may raise.
--   Json      the values of `json.loads`.
--   Store     a table as the list of its rows in the order of insertion; `get`, `add` with the primary
--             key and the unique columns that SQLite enforces, and `upsert` (get, then add or update).
--   Security  src/agentfactor/security. Model: the rows of the security tables of clients/database.py and
--             `session_scope`, which commits what its block wrote or rolls all of it back.
--             Gateway (gateway.py): the configuration (Config, Loading), actions (Action), rules
--             (Policy), decisions and one-use grants (Decisions), the tools of MCP servers (Tools), and
--             a call of one (Mcp).
--             Network (network.py): headers, routes and addresses, and the loop of redirects (Requests).
--             Documents and DataFlow (dataflow.py), Access (access.py), Response (response.py),
--             Credentials (credentials.py), Executor (executor.py: sessions, paths, authorization and, in
--             Executor/Network, `network_request` with its two callbacks).
--             Policies (policy.py): revisions and their versions (Revisions), the staging of a bundle,
--             the replacement of the gateway's file and the switch to the new revision (Publication),
--             canary rollouts (Rollouts) and the gateway's own view of its policy (Gateway).
--             Sync (service.py): what the daemon answers (Daemon), one event of a page (Ingest), the
--             pages of a workspace with the hash chain and the cursor (Pages), chains of events and the
--             rows that are stored of them (Chains, Linked), the workspaces in turn with the posture of each (Posture), the
--             canary runs (Canary), and the proofs with the assurance they give (Proofs).
--             Samples and Tests: the theorems applied at concrete inputs.
--   Work      src/agentfactor/services/work_service.py: items, edges and proof windows (Graph, Items),
--             claims (Claims), the proof gate (Gate) and conflicts over files (Conflicts). Collector:
--             services/proof_collector.py, the proofs of the files and tests of a window, its ticks and
--             its closing, with `emit` of services/event_service.py.
--   Messages  services/inbox_service.py (Inbox, Delivery) and services/approval_service.py (Approvals,
--             Decided); the texts sent to terminals and the audit log are part of the state.
--
-- How the code is read:
--
--   A method is a function from the state to its result and the next state. The state is the tables, the
--   gateway's configuration file, and the number of random values drawn so far. The n-th identifier and
--   the n-th token are functions of n that the machine gives: no theorem assumes that they differ, since
--   the unique columns refuse a repetition. A method draws a fixed number of values at its start, and
--   does not give them back.
--   Times are microseconds; a method that reads the clock takes the time as an argument.
--   `realpath`, SHA-256, `json.dumps`, `json.loads`, the environment, the verification of a JWT, the
--   validation of a JSON schema and the answers of an MCP server are parameters. SHA-256 has no
--   hypothesis: where a theorem speaks of a token it speaks of its hash.
--   The column `taint_labels` is the list that it encodes. A set is a list, of which the proofs use the
--   membership. An exception of Python itself is an error with status 500.
--   `created_at` is the place of a row in its table.
--   Loops run over lists, but for the page loop of `sync`, which takes fuel: `none` is the answer when
--   the fuel has run out. More rounds than the last sequence of the daemon are enough, since each round
--   that goes on moves the cursor forward.
--   A request over the network has `Wire` for its state: the state of the services and the connections
--   that were opened. What the resolver answers depends on the round, and what an upstream answers on
--   all the connections before; the clock is read again in each round. The loop of redirects counts its
--   six rounds down. urllib, ipaddress, `str.lower` and the size of a text in bytes are parameters.
--   HMAC-SHA256, the replacement of the gateway's file, the answers of the daemon's client, the parsing
--   of dates, the texts that git and difflib give, and `int()` of a text are parameters too. The texts of
--   a SecuritySyncError are not told apart, and the numbers of the daemon's protocol are natural.
--
-- Not modelled: the listings of rows for the web interface, the handlers of the executor that do the
-- work of the operating system, the overview of the security service, the critical path of the work
-- graph, the parsing of the log of git, the export of audit rows and the sandbox, the services for
-- terminals and context, HTTP routes, and the other languages of the repository.
pub mod Base
pub mod Json
pub mod Store
pub mod Security
pub mod Work
pub mod Messages
