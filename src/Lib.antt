-- ===== src/Lib.antt =====
-- go-atomos is an actor framework: an atom handles the mails of its mailbox one after the other on
-- a goroutine of its own, and other atoms send it synchronous and asynchronous messages, tasks and
-- kill mails. This library models the parts of the framework that hold state of their own and proves
-- how they behave. Every path is from the root of the repository.
--
-- Parts and files:
-- - Mailbox (mail.go): the linked queue on a heap of mails, the allocation modes, the loop that waits
--   for a mail and hands it to the handler, the stop of an idle mailbox. A pointer is a number, nil is
--   0. Mailbox/Queue says what list a heap represents; Push, Pop, Unlink, Stop, Release and Loop each
--   treat the operations of their name. The handler is a parameter of the loop.
-- - WaitGraph (cosmos_process.go: detectDeadlockAndWait, removeWaitEdge, waitChain; base_atomos.go:
--   the check in PushSyncMessage): the graph of goroutines that wait for a synchronous call. Waits and
--   Detect treat the walk, History the calls made one after the other.
-- - Task (atomos_task_manager_queue.go, atomos_task_manager.go): the tasks of an atom. Args is
--   createTaskHelper with Accepts and Fields on it; Life, Cancel and Cron treat the manager. The
--   manager's mutex is a flag: to lock it while it is held gives `deadlocks`, since the only caller
--   that can be inside is the same goroutine. cron.ParseStandard is a parameter.
-- - Async (base_atomos.go: asyncSet, asyncPop, asyncCancelAll, OnAsyncMessagingCallback,
--   PushAsyncMessage): the callbacks that an atom waits for.
-- - Refs (atomos_id_tracker.go; element_local.go: addRefAtom, onInstanceRefsDrained,
--   elementAtomRelease, elementAtomStopping, getAtomFromRemote): the references to atoms. A tracker
--   releases into the state that it was taken from, and tells its element when the count is drained. Count
--   treats the counts by state, Found, Reached and Released what is seen of them under a name, Entries and
--   Once the entries of the atoms.
-- - Atom (base_atomos.go: mailboxOnStartUp, mailboxOnReceive, mailboxOnStop and the setters of the
--   state; base_atomos_mails.go: sendReply): the life of an atom on its mailbox goroutine. It holds the
--   callbacks of Async and the tasks of Task, and user code is a `Holder` that may change both. The
--   channel of a mail is kept by the mail's address. Stop has the definitions of the stop.
-- - Persist (atom_local.go: elementAtomSpawn, OnStopping; element_local.go: cosmosElementSpawn, the end of
--   OnStopping): the spawn and the stop around the code of the user, which is a parameter, with its panics and
--   the data that is kept. Stopping treats the stop of an atom, Trip a stop and the spawn that follows it.
-- - Local (cosmos.go: AddElementImplementation, SetElementSpawn; cosmos_local.go: trySpawningElements,
--   cosmosElementSpawn, OnStopping): the elements of a program, their spawn and their stop. Builder treats the
--   calls of the builder, Spawning the loop with its roll-back, Stopping the stop that follows it.
-- - Kills (element_local.go: the first part of OnStopping): an element kills its atoms on goroutines that a
--   semaphore limits, while atoms halt by themselves; a step relation, with Progress on its runs.
-- - AtomState (base_atomos.go): the states.
-- - CallArgs (base_atomos.go: createBaseAtomosHelper, getRemoteArg, createExtForCosmosArgs): the
--   arguments of a push.
-- - Push (base_atomos.go: PushSyncMessage, PushKillMail, PushWormholeMailAndWaitReply, PushAsyncMessage,
--   PushAsyncMessageCallback, PushTaskCallbackMail; base_atomos_mails.go: waitReply): the pushes to an atom and
--   the waits for a reply, on the wait graph of WaitGraph. Calls interleaves the callers of one atom with the
--   atom; Edges and Steps treat the wait graph and the mails, History all of it.
-- - Process (cosmos_process.go: Start, Stop, stopFromOtherNode, Drain and its watcher;
--   atomos_remote_service.go: TryKilling): the process with the resources of its cluster. What scripts,
--   etcd, grpc and the spawn of elements answer is a parameter, the `World`. Sections has their critical
--   sections as steps, Guards and History treat them.
-- - Spawn (util_sync_map.go: MapGoWithRefCount; element_local.go: elementAtomSpawn): the lock under a
--   name, taken by goroutines whose steps interleave. Refs/Spawn has the spawn of an atom itself, on
--   the references of its element.
-- - Remote (cosmos_remote.go): what etcd tells of another node, which version calls are routed to, and
--   the connections. A version is a pointer; strconv.FormatInt and proto.Equal are parameters.
-- - VersionLock (cosmos_etcd_version_lock.go; util_etcd.go: etcdGet): the lock of a node in etcd. The server and
--   json are parameters with the laws of Laws. Changes and Transactions treat one transaction, History the
--   processes that use the lock at the same time.
-- - Cluster (cosmos_etcd.go: watchCluster, handleKey and the functions that it calls): the nodes that a
--   process knows from the keys in etcd, each a remote node of module Remote. Keys, their parts and json are
--   the parameter `Wire`; Watch treats the events of one node among those of others.
-- - LogFile (app_logging.go: AppLoggingToFile): the two log files, their rotation, and the clean-up of their
--   directory, with sort.Slice as a parameter. History treats the files that are open, Cleanup what is removed.
-- - ErrorCode (error_code.go): the codes. Common holds what the parts share: tests on numbers, lists,
--   maps as association lists (lookup, insert, delete), integers.
--
-- Bounds and fuel: numbers are unbounded naturals; a counter that the source keeps in a machine word
-- wraps where it is written with `%`, and theorems that need unused ids say so. The walk of the wait
-- graph runs on one step more than the graph has edges, and the loop of the mailbox on one round for
-- each mail up to its exit mail, that one included. Unlinking walks the mails of the queue on fuel
-- of their number.
--
-- Not modelled: timers and time, logging, user code beyond what it answers, the queues of tasks apart
-- from the atom's own, the older task interface, the routing of calls between nodes, the keepalive of
-- the own key in etcd, the calls between nodes, configuration, the application, the supervisor, the
-- code generator and the vet tool. Goroutines interleave in Spawn, Kills, Push/Calls and
-- Process/Sections, and processes in VersionLock/History; elsewhere each operation is one step, and so
-- is a dial in Remote.
pub mod Common
pub mod ErrorCode
pub mod Atom
pub mod CallArgs
pub mod AtomState
pub mod Mailbox
pub mod WaitGraph
pub mod Task
pub mod Async
pub mod Refs
pub mod Persist
pub mod Kills
pub mod Local
pub mod Process
pub mod Spawn
pub mod Push
pub mod Remote
pub mod VersionLock
pub mod Cluster
pub mod LogFile
