-- ===== src/Lib.antt =====
-- The runtime of liz: threads of work with turns, approvals, checkpoints, workspace mounts, what it
-- knows of its owner and of people, and the sandbox in which shell commands run.
--
-- The server keeps one `RuntimeCoordinator` (crates/liz-app-server/src/runtime/coordinator.rs). It
-- owns the managers and passes them the stores: the turn manager holds the turns that are running or
-- waiting in memory, the thread manager and the stores keep threads, logs, checkpoints and memory on
-- file, the node registry holds nodes and workspace mounts, the policies judge what comes in and what
-- goes out, and the executor builds the command for a shell tool.
--
-- Files:
--   Prelude, Text, Assoc: Booleans, lists, options, the texts of the standard library (trim, contains,
--     replace, format!), and the maps, as association lists in the order of insertion.
--   Protocol: the data of crates/liz-protocol/src, one file for each of its modules.
--   Storage: the records of crates/liz-app-server/src/storage and the files of storage/paths.rs.
--   Runtime: crates/liz-app-server/src/runtime. State is the state of the coordinator and of what it
--     owns; Exec the monad of its methods, where an early return by `?` keeps what was changed before
--     it; Stores the calls of runtime/stores.rs; Error, Ids, ThreadManager, TurnManager, NodeRegistry,
--     PolicyEngine, OutputPolicy, Inbound and Coordinator are the source files of those names.
--     Functions keep their names; what a method builds on the way has a name of its own, as
--     `started_turn` in `start_turn`.
--   Executor: executor/sandbox.rs (Sandbox), the building of commands in executor/shell.rs (Command)
--     and the tools on files in executor/workspace.rs: reading (Workspace), listing and searching
--     (Workspace.Folders), writing and patching (Workspace.Edits).
--     Runtime.Surface (People, AboutYou, Knowledge) and Runtime.Auth are parts of coordinator.rs: what
--     the owner sees and changes of the global memory, and the provider profiles with the logins that
--     end in one; Coordinator.Nodes has its operations on nodes and its list of threads.
--     Runtime.Memory is the memory engine, runtime/memory.rs: the facts (Memory), the words of texts
--     (Tokens), what a compilation reads and how topics are kept (Compile), what it proposes by words
--     or from a model (Proposals), how that is applied (Apply), and what is read out of the memory
--     (Recall, Evidence).
--     TurnManager.Phases has the machine that each thread is, Coordinator.Operations the operations
--     of which a history is made, and Coordinator.Upkeep those that have nothing to do with turns.
--   Events: the event bus, events/mod.rs.
--   Runtime.Examples, Runtime.RegistryExamples, Runtime.Surface.Examples, Runtime.Auth.Examples,
--     Runtime.Memory.Examples, Executor.Examples, Executor.WorkspaceExamples, Events.Examples: runs on
--     concrete states.
--
-- Numbers of type u64 wrap at 2 ^ 64. The clock is a function from the number of a reading to
-- nanoseconds. The file system of the stores is a function that says which calls fail: a call
-- that fails changes nothing. For the tools that write files, the disk that the making of folders
-- and a failed write leave is a parameter. Platform, environment and program folder are the
-- record `Host`, and version, system and host name the record `LocalHost`. The path of an
-- artifact's file is a parameter of the record of a tool. The parser of what a model answers, the
-- exchange of a login with its provider, the parser of URLs and the tables of Unicode (is a
-- character alphanumeric, what is the lower case of a text) are parameters of what uses them.
--
-- Fuel: the loop for a free mount id (`free_mount_id`) gets one unit for each mount in the table, and
-- a table of n mounts cannot take more than n ids; the printing of a number n gets n + 1 units, one
-- more than it has digits at least.
--
-- Not modelled: JSON and the folders of the storage, a write of a store that fails half way and
-- the details of a storage error; the order in which a HashMap is iterated, where the source does
-- not sort; the starts of logins, which draw random numbers, and the logins to MiniMax and by
-- OAuth to GitLab; the search and the prompts of the memory engine, where the search scores by
-- floating point embeddings; the context assembler, the running of commands, the model gateway,
-- the server, its channels and the clients. Connections share the server, and with it the
-- coordinator, behind one lock, so the operations are taken one after another.
pub mod Prelude
pub mod Text
pub mod Assoc
pub mod Protocol
pub mod Storage
pub mod Runtime
pub mod Executor
pub mod Events
