-- ===== src/Lib.antt =====
-- urpm-ng is a package manager for Mageia. Its core (urpm/core) reads the synthesis files of the
-- media into a database, resolves transactions with libsolv, fetches packages from a pool of
-- mirrors into a cache and installs them with rpm; it remembers which packages were installed as
-- dependencies, and finds those that nothing needs any more. A daemon (urpm/daemon), a command
-- line (urpm/cli) and a D-Bus service (urpm/dbus) call that core. This library models the parts
-- of the core that decide: orphan detection, the synthesis parser, the mirror list with the
-- server pool, the cache, the lock of a synchronisation, the downloads and the recovery
-- from bad ones, and the scheduler of the daemon.
--
-- Base: what all parts share. `Texts` are lists of code points, `str.lower` acts on ASCII
--   letters and white space is what `str.isspace` accepts below 256. `Sets` are Python's sets, as
--   lists in some order, and `Dicts` its dictionaries in the order of insertion. `Splits`, `Ints`
--   and `Sorted` are the string and list operations that the sources call.
--
-- Orphans (urpm/core/resolution/orphans.py). `Rpmdb` has the headers that rpm's iterator yields
--   and the actions of urpm/core/resolver.py. `Headers` reads the headers without
--   the tables of the code. `Graph` is the construction of `reverse_deps` in `find_all_orphans`,
--   `Edges` its edges in terms of the headers, `Ancestors` its cached search `has_explicit_ancestor` (`Kept` states what
--   it searches for as an inductive relation, `Failure` and `Correct` relate them), `All` the last
--   loop and `is_orphan`. `BuildDeps` is `find_all_builddep_orphans`, `Sweep`
--   `_find_orphans_iterative` with `Unneeded` and `Invariant` for its proof, `Tracking` the files
--   of unrequested packages and build dependencies with the operations that mark packages, and
--   `Versions` `_provider_satisfies`, `_evr_tuple` and `_parse_synthesis_cap`. `Erase` is
--   `find_erase_orphans`: `Tables` are its maps, `Closure` the worklist of `dep_tree`, `Settled`
--   the loop that takes needed packages out, `Names`, `Useless` and `Result` its proof,
--   `Offers`, `Pulled` and `Correct` what it means for the headers. `Upgrade`
--   is `find_upgrade_orphans`: `States` the packages before and after the transaction
--   (`Pinned` says which), `Reverse`
--   `_build_reverse_deps`, `Search` `_is_orphan`, `Plan` the candidates and removals, `Cancel` the
--   new versions that are cancelled, `Correct` the theorems. rpm's bindings are
--   present; its `labelCompare` is an argument, as is whether a file can be read and written.
--
-- Synthesis (urpm/core/synthesis.py). `Names` is `parse_nevra` and `parse_evr` (the latter reads
--   the versions that the orphan search prints), `Lines` is `_split_synthesis_line` and `Blocks`
--   `parse_synthesis` on the decompressed text. `parse_dependency` is not modelled.
--
-- Mirrors (urpm/core/mirrorlist.py, urpm/core/server_pool.py, urpm/core/db/server.py). `Urls` is
--   what they use of urlparse, `Entries` the lines of the list, `Geo` the filter and
--   `fetch_mirrors`, `Dedup` `dedup_mirrors`, `Servers` the table, `Backfill`
--   `backfill_server_countries` (`Rows` is one step of it on one row), and `Pool` has
--   `_fetch_and_filter` (`Candidates`), `dedup_mirror_urls` (`Locations`), `_unique_name`
--   (`Names`), `minimum_servers_for` (`Ratio`) and `ensure_minimum_servers` (`Ensure`). What the
--   network answers, the latencies and the bandwidth probe are arguments. Links of servers to
--   media are not modelled.
--
-- Cache (urpm/core/cache.py, urpm/core/db/cache.py). `Files` is the table, `Manager` the phases
--   of `enforce_quotas`, `evict_for_space` and `_delete_file` over the table and the disk, where a
--   path may refuse deletion; `Eviction`, `DryRun`, `Cleanup` and `Marks` are about them. The
--   clock is an argument. `reconcile` and the statistics other than totals are not modelled.
--
-- SyncLock (urpm/core/sync_lock.py). `States` has the steps of `try_acquire`, `_force_acquire`
--   and `release`, between which other processes run or crash, as functions on a state and a
--   relation of the states that can be reached; `Exclusion` and `Recovery` are about them.
--   `fcntl.flock` gives the lock to one open file. A process has one lock object, does not acquire
--   what it holds, and its PID is not given to another one. The blocking context manager is not
--   modelled.
--
-- Resilient (urpm/core/resilient_install.py). `Verify` is `preflight_check`,
--   `pre_verify_signatures` and `_extract_name_from_path`, `Dependents` `find_dependents` (`Rpms` reads
--   the headers without its tables), and
--   `Retry` `retry_failed_downloads`, for which the transfer, which may raise, and the check of a
--   file are arguments; what the table of servers is told is a list of events.
--
-- Download (urpm/core/download.py). `Items` are items, servers and errors, `Failover` the attempts
--   of `download_one` at the servers of an item with the slots, speeds and statistics it keeps,
--   `One` the whole of it; `Served`, `Correct` and `Slots` are about them. `Plan` is
--   `_plan_server_assignments`, on whole numbers in place of quotients, with `Shares`, `Planned`
--   and `Budget`; `Interleave` `_interleave_by_server`, with `Stable` and `Interleaved`; `Peers`
--   `_download_item` with the peers that fail, and `Trusted` about it. Transfers, the time they
--   take, which may raise, and the answers of peers are arguments. One worker takes the whole
--   queue: other workers do not run between its steps. `_maybe_replan`
--   and the display of progress are not modelled.
--
-- Daemon (urpm/daemon/scheduler.py, urpm/daemon/wakeup.py). `Schedule` is `_should_run_task`,
--   `_schedule_next`, `_check_tasks` and the loop that calls it, on a clock and draws that are
--   arguments; a task is a run that may raise. `Spacing` is about it. `Wakeup` is
--   `WakeupDetector.check` and what the loop does with it, `Awake` about them. Times are whole
--   seconds. The one-shot VACUUM of an idle system is not modelled.
--
-- Fuel. The searches for an ancestor take one unit for each nested call; a path has no
-- repetition and holds keys of the graph only, so one unit more than there are keys is given.
-- The iterations of `_find_orphans_iterative` are bounded by the program itself
-- (`max_iterations`). The worklist of `dep_tree` has one unit for each package that can join
-- it, the loop of `find_erase_orphans` one more than there are candidates, the stack of
-- `_is_orphan` two more than there are edges, the rounds of cancellations one more than there
-- are installs, and `find_dependents` one more than there are names in the queue and edges.
-- `_unique_name` has one unit more than there are names, and the rounds of
-- `_interleave_by_server` one for each item. Everything else recurses on the lists
-- that the program loops over.
--
-- The solver, the transfers, rpm transactions, the rest of the daemon, the command line and
-- the graphical client are not modelled: they are calls of libraries, processes and user
-- interfaces around the parts above.
pub mod Base
pub mod Cache
pub mod Daemon
pub mod Download
pub mod Mirrors
pub mod Orphans
pub mod Resilient
pub mod SyncLock
pub mod Synthesis
