-- ===== src/Lib.antt =====
-- A model of the linux_patch_api agent, a service that manages packages and patches of a Linux host
-- over HTTP, and theorems about it.
--
-- The program. Handlers (src/api) admit jobs to the scheduler (src/jobs/scheduler.rs), which keeps the
-- job map, the single slot for package mutations, the reservations of a self-update and of a reboot,
-- and the admission mode, all behind one lock. A handler then asks `dispatch_mutation` to run a
-- package command; a watchdog task ends each mutation, also when the caller has gone. Jobs are kept in
-- a history file (src/jobs/persistence.rs), from which src/main.rs restores them at start-up.
--
-- The files.
-- - Prelude: shared names; Prelude/Table is `HashMap<Uuid, V>` as an association list with its laws.
-- - Jobs/Status, Jobs/Job: src/jobs/manager.rs. `Job` has the fields of the struct; a method of
--   `&mut self` returns the new job.
-- - Jobs/Order: the sort by age. Jobs/History: src/jobs/persistence.rs; Jobs/History/Survival: what survives.
-- - Scheduler/State: `SchedulerState`, with the events sent and the calls of `notify_one` recorded.
-- - Scheduler/Admission, SelfUpdate, Reboot, Dispatch, Lifecycle, Recovery: one function for each
--   method of `Scheduler` and for each guard's drop; it yields the state that it leaves and its result.
--   `dispatch_mutation` is `try_dispatch`, one pass of its wait loop, and `watchdog_finish`.
-- - Scheduler/System: the interleavings. A step is one call under the lock, one pass of a wait loop, or
--   the end of one mutation in flight; `Reach` is any number of steps. A waiting caller has no state of
--   its own, since a pass may be made at any time. Children: Frame, Slot, Counts, Capacity, Closed,
--   Barriers.
-- - Scheduler/Reservations, Scheduler/Dispatch/Entry, Scheduler/Dispatch/Finish, Scheduler/Reboot/Cancel:
--   what single operations do.
-- - Scheduler/Restart: the start-up of src/main.rs over the loaded jobs.
-- - Auth/Crl, Auth/Refresh, Auth/Mtls: src/auth/crl.rs, the list in the start-up of src/main.rs, and
--   `verify_client_cert` of src/auth/mtls.rs. Auth/Trust and Auth/Enforcement: what the list in memory
--   is worth and what the verifier decides, in any interleaving of the tasks; Auth/Schedule: when the
--   list is fetched; Auth/Expiry: the status in the health report.
-- - Whitelist/Address, Whitelist/Entry, Whitelist/Manager: src/auth/whitelist.rs, with the standard
--   library's parsers of IPv4 addresses and of `u8` written out. Whitelist/Subnet: subnets;
--   Whitelist/Rules, Whitelist/Append, Whitelist/Admission: whom a file lets in, also behind an
--   appended entry; Whitelist/Trimming: a lemma on `trim`.
-- - Packages/Runner: src/packages/coordinator.rs: commands on a machine, recorded as they are run.
--   Packages/Error: src/packages/error_utils.rs, with what a shell reads from a logged command line.
-- - Packages/Request, Packages/Apt, Packages/Backends, Packages/Listing: src/packages/mod.rs. Requests and
--   their validation; `AptBackend`, with Trace, Guard and Outcome for what it runs; the command lines of
--   the five back ends; the parsers of lists, with Packages/Splitting for their helpers;
--   Packages/Details: single packages; Packages/Services: services and the reboot. What `YumBackend`
--   repeats of `DnfBackend` is one definition, with the program as an argument.
-- - Packages/Cache: src/packages/cache.rs. Api/Patches: src/api/handlers/patches.rs; its patch transaction
--   is composed with `AptBackend` in Api/Patches/Upgrade. Api/Patches/Conclusion: what the handler does
--   with the transaction's result; an argument, `others`, is what other tasks do to the scheduler between
--   the reservation and the command of the reboot. Api/Patches/Ending: how the patch job ends.
-- - Api/Jobs: src/api/handlers/jobs.rs; Answers: what it answers.
-- - Api/Packages: src/api/handlers/packages.rs; Query, Sorting, Listed: the list of packages; Ending:
--   what the requests that change packages are answered with, and how their jobs end.
-- - Enroll/Answers, Enroll/Client, Enroll/Release: src/enroll/client.rs; Enroll/Polling: how polling ends.
-- - Enroll/Disk: what provisioning uses of `std::fs`, on a disk whose operations are counted; an argument,
--   `fault`, says of each by its number whether it is done, refused, or cut short halfway through a
--   write. Enroll/Disk/Outcomes: what a sequence of operations leaves, behind a success and behind a
--   failure. A process that is stopped between two operations leaves what a refused next one leaves.
-- - Enroll/Provision: src/enroll/provision.rs. Pem, Success: one file; Leftover: a temporary file that was
--   left behind; Stages, Bundle: the four files; Repo: the package repository.
-- - Enroll/Health: src/enroll/repo_health.rs, with `fetch_repo_config` of src/enroll/client.rs; Converges: a
--   check behind a repair, and the background task; Health/Gpg: the state of the keyring.
-- - Enroll/Identity: src/enroll/identity.rs; Selection: the addresses; Host: the names.
-- - Enroll/Run: src/enroll/mod.rs, which composes all of these with the whitelist; Token: the saved token;
--   Steps: what a success has gone through; Admission: the whitelist file behind it; Completion: what
--   a success leaves; Startup: what src/main.rs does before the server starts.
-- - Config, Config/Certs: src/config/loader.rs. Api/RateLimit: src/api/rate_limit.rs.
--
-- What is taken from outside. The clock, fresh ids and the boot id are arguments; the clock reads of
-- one locked section are one instant. An id is a number, and its freshness a hypothesis where it is
-- needed. The iteration order of a map is the order of the list, about which nothing is assumed. The
-- generation counters are kept modulo 2 ^ 64. Whether the caller of a mutation still listens, and
-- how the task ended, are arguments of `watchdog_finish`. Writing the history file after a locked
-- section is no part of the scheduler's state. X.509 and base64 parsing are a record of functions,
-- `X509`, YAML and JSON are records of two functions each, and name look-up is a function; what a
-- machine answers to a command, its lock files and its processes are a record of functions,
-- `Machine`; PEM files, X.509 and `rustls` are another, `Files`; the limiter of a tier is a record,
-- `Limiter`; the outputs of `gpg`, `hostname`, `ip` and `uname` are arguments; how anyhow prints a
-- chain of errors is a function; what the manager of the fleet and the file system answer are
-- arguments, and so is whether the listeners of the signals can be set up. New files have the mode
-- that is asked for, or 0644, as under the usual mask; the whitelist file is a part of `Agent` of
-- its own, not on the disk of the certificates. There is no fuel: every loop runs over a list, and
-- polling over the number of attempts that it is given.
--
-- Not modelled: the web server, the TLS library, the processes that run a package manager, the wait of
-- `PacmanBackend` for a lock of its database, the defaults that serde fills in, the warnings of
-- src/config/validator.rs, the watcher of the configuration, the web sockets, the handlers of
-- src/api/handlers/system.rs, the details that the handler of one job prints, and the methods of the
-- scheduler that only tests can call.
pub mod Prelude
pub mod Api
pub mod Auth
pub mod Config
pub mod Enroll
pub mod Jobs
pub mod Packages
pub mod Scheduler
pub mod Whitelist
