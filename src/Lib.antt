-- ===== src/Lib.antt =====
-- near-sandbox: a crate that starts a local NEAR node (`neard`) for tests, prepares its files, and
-- drives it over JSON RPC.
--
-- The program's parts, and where they are modelled:
-- * src/error_kind.rs, the error types: ErrorKind. An error of a library or of the operating
--   system is kept as its text.
-- * src/config.rs, which writes config.json, genesis.json and one key file for each account before
--   the node runs: Config.Account (the types), Config.Node (config.json), Config.Genesis
--   (genesis.json and key files). They act on the folder of Disk, whose calls may fail by name, and
--   where a write that fails may have written a part.
-- * src/sandbox/mod.rs, the handle of a node: Sandbox.Handle; Sandbox.Ports for reserving
--   ports; Sandbox.Ready for `wait_until_ready`; Sandbox.Rpc for `send_request`,
--   `get_block_height` and `fast_forward`; and Sandbox.Startup for the functions that start a node
--   on top of all these, and for `Drop`; and Sandbox.Entry for the methods that begin a patch, an
--   import or an account.
-- * src/sandbox/patch.rs, which collects records, fetches them from another node and posts them to
--   the sandbox: Sandbox.Patch.FetchData, StateRecord, Builder, Fetch and Send.
-- * src/sandbox/account.rs, creating and importing accounts on top of that:
--   Sandbox.Account.Creation and Sandbox.Account.Import.
-- * src/runner/mod.rs, which finds or installs the binary of the node and runs it: Runner.Paths
--   (names, URLs, variables), Runner.Install and Runner.Launch. They and Sandbox.Startup act on the
--   Machine of Runner.Host: the world outside, the environment variables, the PIDs to clean up, and a
--   record of what has happened to child processes.
--   Runner.Install.Race has the installation once more, as a step relation of processes that install
--   one version at once.
-- * src/runner/cleanup.rs, which kills the nodes that are left when the program ends:
--   Runner.Cleanup, with what a program can do as a step relation, and the ways for it to end.
-- * examples/singleton_sandbox.rs, one sandbox that many tests share: Examples.Shared, and
--   Examples.Shared.Tasks for tasks that run at once; `near_api` is Examples.Api.
-- Each definition has the name of the function that it models; in a module, `new`, `send` and the
-- like are the methods of the type that the module is about.
--
-- Base has what the parts share. `Outcome` is a result that may also be a panic, and `Exec` a
-- function on a state, whose effects stay when it fails. Base.Binds has the rules for reasoning
-- about a sequence of them that succeeds, and Base.Endings those for all the ways to end.
--
-- What the program calls and this repository does not contain is a parameter: Json (`serde_json`,
-- `json_patch`, `near_token`) with the documented behaviour as `IsLawful`, Net (`ureq`, the
-- interval timer, the clock) with `IsClock`, Sandbox.Ports.Os (sockets and lock files),
-- Sandbox.Ready.Status (a timer and a GET) and Runner.Host (`std::fs`, `tempfile`, `ureq`, `flate2`,
-- `tar`, `tokio::process`, with the other two in it) with `IsFiles`, `IsAtomic` and
-- `Acts` on its files, `IsBound` and `IsExact` on its sockets, and `IsCooperative` where nothing
-- fails. Json.Tree is a value of the first that meets the laws, and Tests has one of each of the
-- others. An async function is the sequence of its steps. `Wire` keeps every request that was
-- posted, the oldest first.
--
-- Bounds and fuel: `u64` and `u128` sums check or wrap as the build does (`overflow_checks`). The
-- loop of `fast_forward` runs on fuel, 302 rounds: a round comes every 100 milliseconds, and the
-- loop gives up when more than 30 seconds have passed. `decimal` has more fuel than digits. The
-- loop that looks for a free port has no bound in the source; here its fuel is an argument, and a
-- result says when it is used up; on a host as in Sandbox.Startup.Cooperative fuel for one port is
-- enough. The attempts to start a node are a recursion on how many are left.
--
-- Not modelled: log output, what other programs do between two steps of this one except where a
-- call changes the world, the kill by which `tokio` ends a child whose handle is dropped, what is
-- closed on the way out with an error, paths that are not UTF-8, and the other examples and scripts,
-- which call the library once each, or are no Rust.
pub mod Base
pub mod Json
pub mod ErrorKind
pub mod Net
pub mod Sandbox
pub mod Disk
pub mod Config
pub mod Runner
pub mod Examples
mod Tests
