-- ===== src/Lib.antt =====
-- wrix: what the models of this repository's Rust code are, and what is proved of them.
--
-- Planner models the image layer planner, crates/wrix-image-tools/src/planner. Petgraph is the
-- interface of the graph library, with its documented laws, and ListGraph an implementation of it;
-- Graph is `Graph::parse` and the graph's operations, Pipeline the operations of a `Step`, Score the
-- popularity ranking, and Plan `plan_json` after its JSON. The condensation and the topological sort
-- are arguments with the laws that the ranking relies on. The loop of `reachable` runs on fuel that
-- counts every index and every edge end, and its theorem shows that this is enough.
-- Auto is the default planner of planner/auto/mod.rs: which indices own each index, the groups that
-- have the same owners, and their layers.
--
-- Core.Workspace models crates/wrix-core/src/path/mod.rs: the text of a workspace hash from the
-- digest that SHA-256 gives, the port offset in its `u32` and `u16`, and the container names from the
-- workspace's directory name. Text is the list of its bytes; a name's characters stand for themselves.
--
-- Core.Quantity models crates/wrix-core/src/duration/mod.rs and the quantities of
-- crates/wrix-core/src/repository_policy/cache/mod.rs, with humantime's parser as a parameter.
--
-- Service models parts of crates/wrix-service/src. Pool is control/pool/mod.rs: the queue of
-- preparation jobs as a state that each call changes, where what the threads have come to and what
-- the host answers are arguments of the call. Supervisor is lifecycle/supervisor/state/mod.rs: the
-- record of an owner on a disk, with the outcome of each save. Route is route/mod.rs: the ports of a
-- deployment, searched in their order on a system that is an argument; FrontDoor is the selection of
-- targets and the rounds of `serve` in the same file, as a sequence of events.
-- Policy is gateway/policy/mod.rs: hosts, rules and what a policy permits, and the baseline's
-- ranges. Gateway is gateway/mod.rs with management/mod.rs, traffic/mod.rs and the trait of
-- transport/mod.rs: the table of grants, the private protocol that attaches, activates and revokes
-- them, the admission of a request until its dial, and the loop over both listeners as a sequence
-- of events, each what one task does between two waits. Its history of a run is what the statements
-- are about; header maps, URIs, base 64 and the network are parameters.
-- Registry is control/registration/mod.rs with calls of control/mod.rs on the registry of namespaces:
-- the file on a disk, and what each call leaves there under every failure. The controller's
-- operations are inspect, register, admit_cache and retire; Registry.Writers has the host's calls that
-- write the registry (host_sql_policy, commit_host_sql, retire_sql and retire_host_cache) and the
-- registration in the closure of a preparation job. recover_registry, which guards an upgrade, and
-- required_sql, which reads the grants, are not modelled.
-- Drain is lifecycle/drain/mod.rs: the loop that waits for a native role's work to end, on a world of
-- the role and the clock. Its fuel counts the loop's rounds, and as many as the budget has sleeps,
-- with two more, are enough.
--
-- State is crates/wrix-state/src: the tables of the host's control database with the keys of
-- store/schema/mod.rs, and State.Association the calls of store/association.rs. What a call asks of
-- the host, the resolver and the scope check are its arguments; SQLite refuses what its keys refuse,
-- and does not fail otherwise.
--
-- Notify is crates/wrix-notify/src/route/mod.rs: the routes of notifications, parsed from the fields
-- of a registration's JSON and saved as such, and the names of their files.
--
-- Common holds the conditional and tests, results with their bind, lists, text, sets, maps, sorts and
-- binary operations.
-- Maps are association lists, read by their lookups and, with distinct keys, their length; the
-- registry's is in the order of its keys.
--
-- Not modelled: the reading and printing of JSON, the file system, processes, sockets and threads
-- beyond their answers, the relays of the gateway, the work that a preparation job does beyond its
-- registration, and the other crates.
pub mod Common
pub mod Planner
pub mod Core
pub mod Service
pub mod State
pub mod Notify
