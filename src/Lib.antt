-- ===== src/Lib.antt =====
-- Kelmor is a hosting panel: an HTTP API (internal/httpserver) over a store of tenants and their
-- resources (internal/store), and a worker (internal/job) that claims the jobs which API calls
-- enqueue and runs them through a privileged agent (agent). This library models the in-memory
-- store, on which the API and the worker stand, the worker's run of a job, the fences by which
-- store and agent turn away a worker that lost its lease, the paths that the agent may manage, the
-- roles of users, and the transaction by which the updater (internal/update) installs a release.
--
-- Parts of the program and files:
-- Store/Models: the row types of internal/store/models.go. A time is a count of nanoseconds with
--   0 for the zero time, an int or int64 is its 64-bit pattern, a pointer to a time is an Option.
-- Store/Memory: type Memory and NewMemory of internal/store/memory.go. A map is a list of entries
--   (Base/Table), whose order stands for the order in which Go happens to walk the map.
-- Store/Op: a method as a program over the memory that may return early. Env is what a call
--   finds around it: the clock, read once for a call, and what id.New would draw.
-- Store/Normal: normalizeJob and validateNewJobLocked of internal/store/memory.go, normalizeAudit
--   and jobReplayLocked of internal/store/resource_atomic.go.
-- Store/Jobs and Store/Leases: the queue of jobs of internal/store/memory.go and
--   internal/store/fence.go, from EnqueueJob to ExpireStaleLeases. A lease carries a
--   fence.
-- Store/Members, Store/Accounts: unique, AddMember, AccountsForUser, CreateAccountWithJob and
--   UpdateAccountWithJob of internal/store/memory.go.
-- Store/Commit: commitAsyncMutationLocked and its callers of internal/store/async_atomic.go.
-- Store/Resources: commitDomainMutationLocked and its callers of
--   internal/store/resource_atomic.go.
-- Store/Rows: the methods of internal/store/memory.go that get, list, put and delete rows.
-- Store/Cascade: DeleteWebsite, DeleteDomain and PurgeAccount of internal/store/memory.go.
-- Store/Imports: importAccountWithJob of internal/store/import_atomic.go.
-- Store/Restores: the restore journals of internal/store/memory.go.
-- Agent: Dispatch of agent/operations/ops.go with the fences of agent/operations/fence.go. What a
--   method does on the host, files, JSON, SHA-256 and the call of a remote agent are parameters.
-- Worker: execute of internal/job/worker.go and RetryDelay of internal/store/memory.go. The handler
--   of a job is a parameter. Worker/Fencing puts the store, the worker and the agent together.
-- Limits: internal/limits/limits.go with enforceDomainLimit of internal/httpserver/api.go, over the
--   in-memory store.
-- Update: the install transaction of internal/update/apply.go, from beginTransaction to the commit,
--   with rollbackTransaction and recoverInterruptedTransaction; Artifact of internal/update/verify.go and
--   artifactKindForTarget of internal/update/client.go; removeTreeAt of
--   internal/filesystem/root.go. Update/Root has the files below the install root and what can happen
--   to a file operation; Update/Transaction and Update/Install have the code. Update/Artifacts has
--   validateArtifacts of internal/update/client.go; what it takes from path, net/url and encoding/hex
--   is a record of functions.
-- Paths: agent/policy/path.go. What it takes from path/filepath is a record of functions; what it
--   takes from strings is written out in Paths/Text.
-- Roles: internal/rbac/rbac.go; strings.TrimSpace is a parameter of expand.
-- Base: texts, tests, 64-bit numbers and maps, shared by all parts.
-- Tests: concrete stores and calls.
--
-- Modelling: a method of the store holds its mutex throughout, so it is one step from a memory to a
-- memory and a result; interleavings of callers are sequences of such steps. PurgeAccount is the
-- exception: it takes and releases the mutex several times, and is modelled as the one step that it
-- is when no other caller comes between. Dispatch of the agent also locks twice, to accept a fence
-- and to remember one, and is one step in the same sense: its calls follow one another.
-- Rows are values. Where a method stores the pointer it was given (PutUser, PutAccount, PutDomain and
-- most others), the model has the row as it is at the call, and neither a later write through the
-- caller's pointer nor what a method writes into the caller's own struct is modelled. Loops are
-- recursions over the entries of a map, so nothing here runs on fuel. A float64 in a job's payload is
-- kept as the int64 that Go converts it to. The decimal print of a fence is a parameter of a claim.
-- An operation on a file of the install root works, fails before or after its effect, or the process
-- dies before it; the removal of a tree may stop at any subset of its entries. A write is one step,
-- as the rename that ends it, and a path's parents are there. The test of a target's path
-- is an argument of the rollback.
--
-- Not modelled: the PostgreSQL store (SQL text run by a server), the HTTP layer, the
-- handlers of jobs and the agent's system calls, the installer, the download, the
-- signature and the versions of a release, and the portals.
pub mod Agent
pub mod Base
pub mod Limits
pub mod Paths
pub mod Roles
pub mod Store
pub mod Tests
pub mod Update
pub mod Worker
