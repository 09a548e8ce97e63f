-- ===== src/Lib.antt =====
-- Polyseat runs several gaming seats on one machine: polyseatd is a daemon that keeps a
-- container per seat, supervises a helper process for each, serves a web interface behind one
-- password, and updates itself from published releases. This library models the parts of the
-- daemon that decide something, function by function, with the state passed along, and states
-- theorems about them.
--
-- Which file is about which code:
--
-- * Auth.Store (internal/auth/auth.go, Store): `claim`, `set_password`, `write`, `check`,
--   `issue` and `valid` are Claim, SetPassword, write, Check, Issue and Valid. The state is the
--   credentials in memory, those in credentials.json, and the number of temporary files. A call
--   that holds writeMu is one step. Open gets what reading credentials.json gave: nothing, an
--   error, a file that does not parse, or credentials. Argon2id and HMAC are the fields of the
--   record Hashes. Auth.Base64 is the encoding of tags and nonces.
-- * Auth.Limiter (the same file, limiter): `allow`, `attempt`, `failed`, `make_room` and
--   `succeeded`. The state is the map of sources; every call brings its time. The key of a
--   source comes with the call: bucket and Source are not modelled.
-- * Supervise.Process (internal/supervise/supervise.go, Process): Start, Stop and the
--   supervising goroutines as a partial step function on events, so that a list of events is an
--   interleaving; Supervise.Backoff is the wait between restarts, and Supervise.Lines the writer
--   that cuts output into lines.
-- * Update.Version, Update.Check (internal/update/update.go): parseTag and newer, and the
--   Checker with check, CheckNow and the ticks of Run. An answer of the network is a value.
--   Update.Apply (internal/update/apply.go): Apply, allowed, download and verify, with the host,
--   url.Parse, SHA-256 and what each address answers as the record Host.
-- * Seat.Manager.Lanes (internal/seat/manager.go): enter with its end, claim, quiesce and the
--   frame of operate, as a partial step function on events; a list of events is an interleaving
--   of the goroutines that read a seat and operate it. A step is what is done under Manager.mu,
--   or a call on the lock of a lane; a lock that is held makes the step impossible. The empty
--   label of busy is none, and claim is called with no other.
-- * Seat.Ring (internal/seat/log.go): the ring of recent lines.
-- * Seat.Setups (internal/seat/foldersetup.go): the memory of which setup scripts are allowed
--   and which wait; Seat.Setups.Runs has due and unapproved.
-- * Library.Manifest (internal/library/steam.go): parseManifest, parsePair, Installed and Newer;
--   safeName is that of internal/library/clone.go. Library.Manifest.Rewrite is Rewrite, the copy
--   of a manifest that is handed on. The scanner of package bufio is its documented behaviour:
--   lines of less than 1 MiB, counted in bytes of UTF-8, with no carriage return at the end, and
--   an error at the first that is longer.
-- * Library.Pool (internal/library/pool.go, and the scan of internal/library/folder.go): Pool,
--   its state and its members. Library.Pool.Harvest has harvest, harvestFrom and harvestFolders,
--   Library.Pool.Distribute distribute and distributeFolders, and Library.Pool.Sync the pass
--   over all libraries. A directory of games is a table from names to trees.
--   Library.Pool.Sources has AddSource, RemoveSource, Readmit, Offer and Forget, where the path
--   comes with its links followed. Library.Pool.Uninstall is Uninstall of a Steam title, with
--   dropApp and removeLocked. Which system calls fail are the records Env and Faults; a clone
--   and a manifest are written as a whole or not at all, as the code swaps them in by a rename;
--   that the rename which puts an old tree back can fail as well is left out. Opening and
--   reading a directory does not fail but where a table is absent or broken. A copied manifest
--   is taken to keep its fields.
-- * Seat.Record, Seat.Store (internal/seat/seat.go): the validation of a definition, and the
--   store with one file per seat. Package net/netip is the record Netip.
--
-- A pass of Library.Pool.Sync reads manifests with Library.Manifest, compares builds and folders
-- with its Newer and that of Library.Folder, and writes what Library.Manifest.Rewrite returns;
-- Seat.Setups shares the folders. The update check hands a Release to Update.Apply; the store of
-- seats asks Seat.Record for the shape of a name before it builds a path. Prelude has what they
-- share: lists, integers and text over the native numbers, maps as association lists, sorting,
-- decimal numbers, and the results of calls that may fail.
--
-- Bounds and fuel: the loop of Supervise.Lines.write runs on the length of the written bytes,
-- and each turn takes at least one of them; format_int of Prelude.Decimal has 20 digits, which
-- are enough for 64 bits. Times and sizes are natural numbers. A float64 of Seat.Record is a
-- multiple of 2^-1074.
--
-- Not modelled: the rest of the manager of seats and the recipes that build a container
-- (internal/seat/manager.go, provision.go and others), the rest of the shared library
-- (internal/library: uninstalling a shared folder, the inventory, and the copying of trees), the
-- HTTP interface (internal/api, internal/web), the clients of Incus and of the host
-- (internal/incusx, internal/hostcg, internal/lanbridge, internal/hostpkg), configuration and
-- reports, and the scripts under host and packaging. They are input and output for the most
-- part.
pub mod Prelude
pub mod Auth
pub mod Library
pub mod Seat
pub mod Supervise
pub mod Update
