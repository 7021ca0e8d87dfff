-- ===== src/Lib.antt =====
-- shuttle-rs: a local-first event log for coding agents, and what its core guarantees.
--
-- The program keeps one append-only log of events (src/core.rs) in a store. Everything that the
-- commands and the MCP tools show is a projection of that log: tasks and handoffs (src/task.rs) and
-- the runs of workflows that a repository's manifest defines (src/workflow.rs). A command reads the
-- projection, checks that its action is allowed, and appends an event. An agent reaches the log of
-- its own workspace through the tools of src/mcp.rs, and the logs of several projects through the
-- gateway (src/gateway.rs), which picks the project of a request and has its backend run a command.
-- The gateway's listeners are guarded by a token or by an authorization server (src/oauth.rs) with
-- its own tables.
--
-- Files:
--   Prelude   shared names; lists over native numbers, stable sorting, maps keyed by identifiers,
--             texts, decimal numerals, and the bits of bytes
--   Crates    what the code uses of uuid and serde_json: a record of operations and documented laws
--   Core      src/core.rs: events, filter, errors, the interface of a store
--   Store     src/store.rs. Tables: the tables events and event_tags, insertion with its constraints.
--             Events: the store's interface, with the filter of list. Insertion, Lookup, Latest: the
--             proofs
--   Api       src/api.rs: the envelopes of the values that leave the program
--   Context   src/context.rs, and the with_repo_metadata of src/mcp.rs: the state of a repository.
--             Status: what git reports. Assemble: the context that an agent is shown
--   Mesh      src/mesh.rs. Import: export, import and synchronisation of stores. Loop, Convergence:
--             the proofs
--   Task      src/task.rs. Events: the constructors of events (new_task, new_claim, ...).
--             Project: project_tasks and project_handoffs, one function per arm of the match.
--             Queries: tasks, open_tasks, ensure_task_exists, ... over any store
--   Memory    src/memory.rs. Recall: memories as events and their recall. Results: the proofs
--   Message   src/message.rs: messages, the inbox and the history, with the proof
--   Collab    src/collab.rs. Events: the events and the status of a collaboration. Agents: the proofs
--   Gateway   src/gateway.rs. Registry: the registry of projects and its validation. Names, Persist:
--             add_project. Auth, Config: the configuration and the listeners. Authorize: the check of
--             a request. Service: the commands for a project. Mcp: the JSON-RPC endpoint and its
--             tools. Http: the handlers. Pages: the endpoints of the authorization server. Responses:
--             what they answer. Selection, Adding, Loaded, Listeners, Authorized, Handlers,
--             Consent: the proofs
--   Mcp       src/mcp.rs. Commands: the workflow tools that act on a run. Answers: what a tool is.
--             Tools, Workflows: the tools. Requests: their dispatch and JSON-RPC. Checks, Refinement:
--             the proof that the actions on a run take the steps of Workflow.Protocol. Growth,
--             Growing, Attribution: what the tools add to the store
--   Remote    src/remote.rs. Mapping: events as the hosted gateway takes and gives them, cursors and
--             the checkpoint. Push: the push of a store. Cursors, Order, Resume, Pushes: the proofs
--   Workflow  src/workflow.rs. Manifest, Load: the manifest and its checks. Run: the run's state and
--             the checks of the actions. Project: the events and the projection of a log. Protocol: the
--             commands as a step relation on runs, a check followed by the event it lets through.
--             Latest and the other files: the proofs
--   OAuth     src/oauth.rs. Tables: the rows and the shared statements. Requests: the requests and
--             the check of a redirect URI. Flow: the operations of OAuthStore. Redirect: the metadata
--             documents and the redirect, with Encoding, the inverse of its encoding. Operations:
--             sequences of operations, and how an invariant of the statements carries over to them
--   Tests     concrete inputs: each theorem applied at one, and runs of the definitions
--
-- How code is rendered: a struct is a record and an enum a data type; a Result is the data type
-- Result of Core; a function that changes a struct returns the changed one; a HashMap is a list of
-- entries with distinct keys, in an order that stands for the unspecified iteration order; an
-- operation on SQLite takes the tables and returns its result and the tables, and a transaction
-- that fails gives back the tables it began with. A query reads one state of its store throughout.
-- Uuid::new_v4 and Utc::now are arguments. A Uuid is the number it stands for and an instant the
-- number of nanoseconds since an epoch: the texts that to_rfc3339 writes of instants in UTC sort
-- in the order of the instants, in the years 0 to 9999. A match arm that is unreachable!() is never
-- taken, and the function returns what it has there. Every loop is a fold or a recursion on a list,
-- but for three:
-- the search for a free name has one try more than there are names, which is proved to suffice; the
-- digits of a numeral take its value as fuel, and a bitwise operation the sum of its operands, both
-- more than there are digits. Every definition is total.
--
-- A handler of the gateway takes the state and returns its answer and the state: the service, the
-- configuration file, the backends and the tables of the authorization server. What a backend does
-- with a command is a parameter (the trait Runner), as are the environment, the printing and parsing
-- of TOML and what git reports. Requests are handled one after the other.
--
-- A column of the table events that holds a text written from an identifier, an instant, the tags
-- or the metadata is represented by that value, and what parsing the text gives is a parameter: the
-- text of tags is read back as it was written (JSON strings), that of an identifier too, an instant's
-- either is not accepted (a year after 9999) or is read back as it was written, and the metadata may be
-- refused or come back changed (a floating-point number). What depends on more has it as a hypothesis.
--
-- The functions of SQLite that the filter of the store uses (json_extract, lower, LIKE) are
-- parameters, as are the digest, the URL parser and the JSON values; each has the laws that its
-- record states and no other. A failure of SQLite itself (a lock, a full disk) is not modelled: a
-- statement fails only where a constraint of the schema refuses it. Nor is a failed write of the
-- file of a checkpoint.
--
-- Not modelled: the gateway's backends; of src/remote.rs the pull and CloudEventStore; the schemas
-- of the tools of src/mcp.rs; the ranking of src/memory.rs (score_event, ranked_recall); of
-- src/store.rs and src/oauth.rs the schema migrations, and of src/store.rs the backups, checks and
-- the adapter tables; the adapters (floating-point code), and the I/O of the binaries, the HTTP
-- layer and telemetry. The files under crates are earlier copies of the modules under src, and
-- workers is TypeScript.
pub mod Api
pub mod Collab
pub mod Context
pub mod Core
pub mod Crates
pub mod Gateway
pub mod Mcp
pub mod Memory
pub mod Mesh
pub mod Message
pub mod OAuth
pub mod Prelude
pub mod Remote
pub mod Store
pub mod Task
pub mod Tests
pub mod Workflow
