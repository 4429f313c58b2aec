-- ===== src/Lib.antt =====
-- tx9 runs agent boxes on a Docker daemon: a box is two containers (the agent and the executor), a
-- network and two volumes, with a token in an env file of the host. The verification library models
-- the core of the Go program; paths below start at the repository's root.
--
-- The parts and their files:
-- - `Archive` and its children: internal/archive/validator.go. `validate_data_tar` is
--   ValidateDataTar, with `add_member` for the first pass, `check_nesting` for the second,
--   `check_required` and `check_members` for the rest; `Resolve` is memberIndex.resolve. An archive
--   is what the readers of compress/gzip and archive/tar return (`Stream`). The limit on members is
--   an argument; the loop of resolve runs on the steps that are left, as in the program.
-- - `Archive.Format` and `Archive.Gpg`: internal/archive/format.go and gpg.go, with encoding/json and
--   the program gpg as the records `Json` and `Gpg`, and the outer container as its members.
-- - `Box`: internal/box. `Box.Objects` is objects.go, `Box.Destroy` is Destroy, `Box.Create` and
--   `Box.Specs` are Create, Start, Stop, ensureNetwork and ensureVolume, `Box.Listing` is List, Get
--   and Exists and Token, `Box.Recreate` is RecreateAgent, `Box.Runtime` is HB, AgentQuiesced and
--   PrepareRuntime, `Box.Saving` loads and saves the settings in the env file, `Box.Config` is
--   executor_config.go. All but the last run in `Docker.Exec`: an engine,
--   given by a record of functions without laws, replies to each call, and the world keeps the list
--   of all calls, newest first. Contexts and the wording of errors are left out.
-- - `Docker`: internal/docker/labels.go and the ContainerSpec of client.go. The client itself only
--   calls the Engine API.
-- - `Mounts`: internal/box/agent_mounts.go. `Mounts.Prepare` is prepareAgentMounts, `Mounts.Access`
--   the permission rules, `Mounts.Clean` what path.Clean and filepath.Clean document. The host's
--   files are the record `Host`.
-- - `Resources` and `State`: internal/box/resources.go and the text of the env files that
--   internal/state/state.go reads and writes, with the parsers of sizes in `Resources.Sizes`, where
--   floating point and units.RAMInBytes are the record `Units`; `State.Store` is WriteBoxEnv's
--   temporary file and rename. Resources are int64, as `Decimal.IsInt64` says.
-- - `Names`: internal/names/names.go; the random numbers are the record `Rand`.
-- - `Selfupdate`: internal/selfupdate. `Selfupdate.Site` is site.go and asset.go with the requests,
--   `Selfupdate.Update` is Update; the HTTP client, SHA-256 and the file calls are the record
--   `Machine`, the executable and the staged file the record `Disk`.
-- - `Cli`: internal/cli. `Cli.Prune` is cmd_prune.go, `Cli.Backup` and `Cli.BackupFile` are
--   cmd_backup.go, `Cli.Import` and `Cli.Restored` cmd_import.go, `Cli.Mount` cmd_mount.go,
--   `Cli.Limits` and `Cli.Transact` the changes of cmd_resources.go, `Cli.Common` is
--   withBoxLock, ensureBoxImage and generateFreshBoxName.
-- - `Base`, `Text`, `Decimal` and `Dict` hold shared names: results, Go strings as lists of code
--   points, the contents of files as bytes, numbers in decimal, and maps as association lists.
--
-- The pieces meet as in the program: creating a box validates its resources and prepares its mounts;
-- the preflights validate its name; resources are loaded from the env file; a backup captures the
-- data from the box, validates them, encrypts them, verifies that, and places the container; an
-- import reads it the other way; a mount command recreates the agent, saves the mounts, and prepares
-- the box unless it is quiesced; new limits are set for both containers and stored, or set back.
--
-- Generate's first loop has 10 attempts for each pair of words, generateFreshBoxName 100 rounds and
-- PrepareRuntime six attempts, the program's own bounds; nothing else runs on fuel.
--
-- Not modelled: the other commands with their flags and what they print, the printing of sizes, the
-- client of the Docker Engine API, and what runs inside the box.
pub mod Base
pub mod Text
pub mod Dict
pub mod Decimal
pub mod Archive
pub mod Names
pub mod State
pub mod Mounts
pub mod Resources
pub mod Docker
pub mod Box
pub mod Cli
pub mod Selfupdate
