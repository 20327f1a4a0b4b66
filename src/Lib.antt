-- ===== src/Lib.antt =====
-- A Kubernetes CSI driver for Huawei storage: its choice of a storage pool for a volume, the flows that
-- undo half-done work, the controllers that modify volumes, the quality of service, the locks of the
-- connectors, and the helpers that these stand on.
--
-- Parts of the program and how they interact. The controller (csi/driver) asks the selector
-- (csi/backend/handler) for a pool, or for a pair of pools with hyperMetro or replication. The
-- selector takes the pools of the available backends from the cache (csi/backend/cache), runs the capability
-- filters, the topology filter and the capacity filter of csi/backend/backend.go over them, and takes
-- the pool with the most free capacity; a thick volume is taken off the free capacity that the
-- cache holds. The plugins (csi/backend/plugin) then create the volume by a flow of tasks
-- (utils/flow), which are undone when one fails. A claim to modify the volumes of a storage class
-- (pkg/modify) is split into contents, one for each volume; a content asks the driver to modify its
-- volume, and when all are completed the storage class is replaced. The connectors keep two
-- operations on one device apart by lock files and semaphores (connector/utils/lock).
--
-- Files and what they model:
--   * Prelude, Prelude/Tests, Lists, Dict, Result, Int: the language: Boolean tests, lists, Go maps
--     as association lists (a theorem about every list covers every order of iteration), results
--     (value, error), and integers of 64 bits with their wrap-around.
--   * Strconv: `StrToBool` and `ParseIntWithDefault` of utils/utils.go over Go's strconv.
--   * Flow/Transaction: utils/flow/transaction.go. `commit` and `rollback` are `Commit` and `Rollback`.
--   * Flow/TaskFlow: utils/flow/taskflow.go, with `MergeMap` of utils/utils.go. `run_flow` and
--     `revert_flow` are `Run` and `Revert`.
--   * Retry: utils/retry/retry.go. Finalizers: pkg/finalizers/finalizers.go.
--   * Version: `CompareVersions` of utils/version/version.go.
--   * Backend/Model: csi/backend/model. A `*StoragePool` or `*Backend` is an address, and `World` is the
--     memory: the objects, the cache, and the calls that plugin objects got.
--   * Backend/Quota: `IsStorageQuotaAvailable` of storage/fusionstorage/utils/utils.go.
--   * Backend/Filter, Topology, Capacity: the filters and the weighing of csi/backend/backend.go.
--   * Backend/Select: csi/backend/handler/backend_selector.go, with `LoadCacheStoragePools` of
--     backend_cache_wrapper.go; Select/Direct is `SelectRemotePool` of csi/backend/backend.go.
--   * Backend/Cache: csi/backend/cache/backend_cache.go, the updates of csi/backend/model and the cache
--     wrapper; Cache/Register is csi/backend/handler/backend_register.go.
--   * Backend/Build: the construction and the validation of backends in csi/backend/backend.go.
--   * Backend/Sample: a small cache for tests.
--   * Prelude/Io: a function that acts on a world and may fail, for do blocks.
--   * Modify/Model: the objects of pkg/modify, and the API, listers and driver that it calls (`Api`).
--     Modify/Parameters: the checks of parameters. Modify/Classes: `replaceStorageClass` and what it calls.
--     Modify/Claim, Status, Creation and Deletion: claim_worker.go. Modify/Content: content_worker.go.
--     Modify/Worker: object_worker.go. Modify/Sample: a small cluster for tests.
--     A function that begins with `if Status.Phase != phase` is `at_claim_phase` or `at_content_phase`.
--     `clientSet` and `contentClient` reach the same API, and are one set of operations here.
--   * Qos: the validators of storage/oceanstorage/oceanstor/smartx/smartx.go; Qos/Client: its operations.
--   * Creator: base.go and filesystem.go of storage/oceanstorage/oceanstor/volume/creator, as a
--     transaction of Flow/Transaction over the REST client (`Nas`).
--   * Lock: connector/utils/lock and utils/client_semaphore.go. What runs under the mutex, and an operation on
--     a channel, is an atomic action; `Step` and `Timeout` are the actions of the callers.
--
-- Code that is not modelled is an argument: what a plugin object answers, the JSON decoder, the API server and
-- `rand.Shuffle` are fields of `Env`, `Cluster` and `Setting`, and a shuffle is taken to permute (`IsShuffle`);
-- the steps of a transaction, the tasks of a flow and the function that is retried are functions
-- on a world, of which the theorems on undoing ask that a cancel takes back what its call did and that a
-- failed call changed nothing (`IsUndoable`); the revert of a task may rely on a map that still has what
-- the task was given and returned. A queue of client-go that was shut down is described by `ShutDown`.
-- What the Kubernetes API documents is stated by the records `ClassLaws`, `PhaseLaws`, `RequestLaws` and
-- `StatusLaws`, and of the array by `PolicyLaws`; in the first two a call that fails may have taken
-- effect.
--
-- Loops and bounds: every loop is recursion on the list or the counter that it runs over, so nothing
-- runs out of fuel, except the writing of decimal digits, whose fuel is one more than the number and
-- is shown to be enough by the round trip, and the endless loop of a worker, which is shown to return
-- when its queue is shut down. A retry loop counts its ten rounds down. Integers of Go are integers that are wrapped to 64
-- bits where the code subtracts.
--
-- Not modelled: the REST clients and plugins of the storages, the shell commands of the connectors, the CSI servers and
-- the controllers of storage backends (their states are in the API server and in the storage), the command line
-- tool, logging, and the locks of the cache, whose operations are taken one at a time.
pub mod Prelude
pub mod Strconv
pub mod Creator
pub mod Flow
pub mod Retry
pub mod Finalizers
pub mod Lock
pub mod Modify
pub mod Qos
pub mod Version
pub mod Backend
