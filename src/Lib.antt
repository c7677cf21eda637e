-- ===== src/Lib.antt =====
-- jiji deploys containers to servers that form a WireGuard mesh. On each server an agent keeps, in
-- one SQLite database, three replicated logs (the members of the mesh, the deployments, the scale of
-- the services), the leases of container addresses and the cron runs; the CLI publishes member records
-- to the agents. Before that a planner gives every server its addresses, and on each server a proxy
-- routes requests to the services. This library models that core and proves what its parts rely on.
--
-- Parts and files (paths from the root of the repository):
-- - Network.Cidr: crates/jiji-network/src/cidr.rs. `Ipv4Cidr` and its functions by their names; Parse
--   is `from_str`, Display is its inverse; Range, Subnets, Read and Printed hold the theorems.
-- - Network.Buckets, Network.Naming, Network.Planner: crates/jiji-network/src/planner.rs and naming.rs.
--   `allocate_bucketed` stands in Buckets. In Planner, `plan_servers` is the loop of `plan` over the
--   assignments, Plan holds `plan` and `plan_endpoints`, Select the selection of hosts and services by
--   the patterns of Core.Pattern (crates/jiji-core/src/pattern.rs); Outcome, Defaults, Run, Mesh and
--   Filters hold the theorems. The planner draws on Network.Cidr for subnets and addresses.
-- - Proxy.Routes, Proxy.Wildcard: crates/jiji-proxy/src/route_manager.rs and wildcard.rs. `routed` is the
--   entry whose balancer `lookup` returns, `exact_entry` the one that `backend_status` finds; Upkeep
--   holds `apply`, `tcp_apply` and `refresh_due_routes`. Lookup, Tables, Tcp, Certificates,
--   Refreshed and Ticked hold the theorems.
-- - Agent.Membership: crates/jiji-agent/src/membership.rs. `MembershipView::apply` is `apply`, its
--   ordering rule `verdict` and `against_current`, its last steps `conclude` and `settle`; `order` is
--   `record_order`, `active` is `active_members`. Claims, Fences and Senders hold the theorems.
-- - Agent.Catalog: crates/jiji-agent/src/catalog.rs, in the same way; `elect` is the loop of
--   `active_healthy`. Fences and Winners hold the theorems.
-- - Agent.Desired: crates/jiji-agent/src/desired.rs; `merge` is `apply` behind `verify`. Merge and
--   Converges hold the theorems.
-- - Agent.Store: the replicated logs of crates/jiji-agent/src/store.rs: `apply_membership`,
--   `apply_catalog`, `apply_desired`, `compact_operations` and the readers, which call the three views
--   above as the code does. Members, Answers, Deployments and Scales hold the theorems.
-- - Agent.Leases: crates/jiji-agent/src/leases.rs and the lease table of store.rs. Exclusive,
--   Allocation and Hosts hold the theorems. The allocator draws on Network.Cidr.
-- - Agent.Cron: crates/jiji-agent/src/cron.rs and the cron tables of store.rs. Overlap and Claims hold
--   the theorems. Agent.CronSpecs: the installed jobs of the same files. Agent.Scheduler:
--   crates/jiji-agent/src/scheduler.rs, `tick`, over these tables; Rows and Advances hold the theorems.
--   Agent.CronSchedule: `next_due_at` of crates/jiji-agent/src/cron_schedule.rs.
-- - Cli.Members: crates/jiji-cli/src/commands/network/membership.rs, `reconcile_record` and
--   `compute_decommissions`, against Agent.Membership.
-- - Common: shared lists, texts, maps and results. Examples: tests and instances of the theorems.
--
-- How state is modelled: a view, a table or the store is a record that an operation takes and
-- returns; an error leaves the caller with the state it had, as the transaction of the code does. A
-- `BTreeMap<String, _>` is the list of its pairs in the order of the keys, a `BTreeSet<String>` a list
-- that is only asked what it contains. An SQL statement is the function on rows that it denotes, with
-- its primary keys and unique columns. Machine integers are natural numbers; the operations that can
-- wrap say so (`u32`, `u64`). An `expect` that fails is an error of its own, `panicked`. A `HashMap` has
-- the order of its keys. Every loop is a structural recursion on the list or the range that it
-- runs through; `show_decimal` and `hex_digits` alone run on fuel, four for the five digits of a port,
-- 19 for the 20 decimal digits of a `u64` and 16 for its hexadecimal ones.
--
-- Parameters: the content hash (serde_json and SHA-256) of each kind of record, of which three theorems ask
-- that no two records at hand have the same; the hash of a text and the digest of a list of texts in the
-- plan (SHA-256); time zones and the occurrences of a cron schedule (jiff, jiff_cron), the id and the start
-- of a run; pingora's load balancer with its discovery, in the proxy; the size of the database file; the
-- label of an observation, which is decoded JSON. Errors of SQLite, of the file system and of serialization are not
-- modelled: the records hold texts, numbers and plain enums. Integers beyond the 63 bits of an SQLite
-- column are left out.
--
-- Not modelled: the proxy's sockets, certificates and ACME, the scheduler's timer, the validation of a
-- configuration, the deployment transaction, and everything that is I/O (sockets, SSH, processes,
-- systemd, container engines).
pub mod Common
pub mod Core
pub mod Network
pub mod Agent
pub mod Cli
pub mod Proxy
pub mod Examples
