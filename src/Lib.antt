-- ===== src/Lib.antt =====
-- Verification library of mcp_socket_server, a server that offers a language model tools on remote
-- machines (targets). A tool call names targets; for each of them the server takes a lock, borrows a
-- connection to the agent that runs there, sends a request, reads the reply, and gives both back.
--
-- The parts of src/mcp_socket_server and the files that model them:
--   commands.py       Commands: `LockClass`, `Danger`, `CommandSpec` and the table. `LockClass.NONE` is
--                     `unlocked`.
--   locks.py          Locks (`TargetLock`), Locks/Manager (`LockManager`). Every method runs under a mutex
--                     and returns or raises at once, so it is one step on the state. Locks/Claims says what
--                     a state stands for: the claims that are held. Locks/Release and Locks/Manager/Held
--                     relate the methods to them, Locks/Manager/Exclusion any sequence of calls.
--   pool.py           Pool (`TargetPool`), Pool/Waiting (the loop on `_cond`), Pool/Sessions (calls of many
--                     threads as steps, one for each stay under `_cond`), Pool/Scheduler (`Scheduler`,
--                     `TargetResult`).
--   registry.py       Registry: the rows of the table and what each statement does to them.
--   socket_client.py  Wire (bytes on a socket), Agent (the receiving methods), Agent/Calls (one function
--                     for each request), Agent/Replies (what is made of a reply), Agent/Listen.
--   server.py         Server (shared state, reports), Server/Batch (`_run_batch`), Server/Audits (its
--                     audit record), Server/Captures (the capture lock, `capture_stop`), Server/Targets
--                     (`list_targets`, `add_target`, `remove_target`), Server/Reads (`version`, `isfile`,
--                     `isdir`, `pcap_flow_extract`), Server/Writes (`cmd_exec`, `capture_start`,
--                     `boce_run`, `replay_run`, the arguments of `socket_listen`), Server/Transfers
--                     (`file_transfer`), Server/Listening (`socket_listen`: its run on one target, and in
--                     Server/Listening/Tool the runs on all), Server/Starting (`init_server`, and the
--                     accessors of the other files, such as `get_registry`). `upgrade_run` is
--                     Server/Upgrade/Run; its run on one target is Server/Upgrade/Sending, its polling
--                     and summary Server/Upgrade.
--   upgrades.py       Upgrades (versions, the query for the latest one, the daily check), Upgrades/Files
--                     (`_sha256_file`, `ensure_release_binary`), Upgrades/Push (`push_binary`).
--   audit.py          Audit: the rows of the table, `write`, `_cleanup` and `_truncate_params`.
--   config.py         Config: `_deep_merge` and `load_config`.
-- Prelude, Errors, Text and Value hold what these share: lists, dicts, results, exceptions, the methods
-- of `str` that the code calls, and the objects that travel as JSON. Tests applies the theorems at
-- concrete inputs.
--
-- What the world answers is an argument: the pieces that arrive on a socket (`Arrival`), the answer of
-- `connect`, clock readings, what the function does on a target (`Visit`), downloads, and what the disk
-- refuses (`Upgrades.Files.World`). So are the libraries: `json` and `gzip` (`Codec`), `hashlib` with the
-- law that two updates are one with the bytes joined (`Sha256`, `IsIncremental`), and `str` of what is no
-- text. A batch is given as its runs in the order in which their futures complete, each as if the others
-- stood still meanwhile. The pool is also modelled with the steps of its threads interleaved in any order,
-- and the lock manager with the calls of all threads in any order. The read-only tools and those of
-- Server/Writes run the calls of Agent/Calls on the socket of each run.
--
-- Loops: `_recv_n` runs on fuel, one turn more than the bytes that it wants, since each turn brings a
-- byte or is the last; `_recv_until_timeout` on the length of what arrives; the digits of a number on the
-- number; the reading of a file in chunks on fuel, one turn more than its bytes. All else is structural;
-- the daily check is given the answers of as many days as one likes. The sizes are those of the source:
-- five places in a pool, 600 seconds of idleness, 64K characters of output, chunks of 65536 bytes, an
-- `int` of four bytes, lowest first, 1000 flows, 200 characters of a parameter.
--
-- Not modelled: texts of messages (a reason or an exception is kept as a value, or rendered by a
-- parameter), the log but for that of the version query, floating-point numbers, character classes beyond
-- ASCII, errors of SQLite, the bound on the digits that `int` reads, the start of threads, the HTTP
-- transport, the YAML parser, `main`, and `set_audit`, by which tests replace the audit log.
pub mod Agent
pub mod Audit
pub mod Commands
pub mod Config
pub mod Errors
pub mod Locks
pub mod Pool
pub mod Prelude
pub mod Registry
pub mod Server
pub mod Tests
pub mod Text
pub mod Upgrades
pub mod Value
pub mod Wire
