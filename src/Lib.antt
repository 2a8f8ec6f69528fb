-- ===== src/Lib.antt =====
-- The secret rotator rotates credentials that live in .env files: it asks a backing service to
-- accept a new value, writes that value into the files, restarts the containers that read them,
-- and undoes what it did when a step fails. This library models its decisions and state, file by
-- file of the repository, and states what makes them correct.
--
-- Parts:
--   Domain        internal/domain: kinds (kind.go), names, keys and lengths (values.go), command
--                 blocks (command.go), targets (target.go), the secret aggregate (secret.go), max-age
--                 policies and compliance (policy.go), the journal of a rotation and its compensation
--                 plan (rotation.go), the strength audit (strength.go, patterns.go) and the scan of
--                 documents (inspection.go). `Domain.Errors` has a constructor per error message.
--   Application   internal/application/rotate.go: `execute` is RotateSecret.Execute. Its stages are
--                 functions from the journal and the world to the error that ends the pipeline, the
--                 journal and the world; `compensate` runs the plan. `Application.Ports` is
--                 internal/domain/ports.go as a record of calls on one world.
--                 `Application.Files` states what the use case relies on of its ports.
--                 `CheckCompliance`, `ScanSecrets` and `PlanRotation` are the use cases of
--                 compliance.go, scan.go and plan.go.
--   Envstore      internal/infrastructure/envstore: lines (`Line`, with parseLine and Set), files
--                 (`File`, with Parse, Get and render), the calls of package os on a disk (`Disk`),
--                 and writeAtomic with the Store's Open, Write and Restore (`Store`).
--   Containers    internal/infrastructure/container: the order of compose.go (`Compose`, with the
--                 topological sort in `Compose.Topo`), resolve.go over what the manager lists
--                 (`Resolve`; sort.Slice is an argument), the SDK client of client.go (`Client`), the
--                 fleet of fleet.go with RestartInOrder and the wait of health.go (`Fleet`) and the
--                 schedules of labels.go (`Labels`).
--   Credentials   internal/infrastructure/credential: generator.go, whose random bytes are an argument,
--                 and the rotators as values of the port: mysql.go (`MySql`), postgres.go (`Postgres`),
--                 redis.go (`Redis`), command.go (`Programs`), generic.go and registry.go
--                 (`Registry`). The drivers are records of calls; `Postgres.Server` and
--                 `Redis.Server` say how a server behaves. A host that runs programs is given the
--                 directory for temporary files and the PATH of the rotator.
--   Crypto        internal/infrastructure/crypto/crypto.go: the framing; the key derivation, the cipher
--                 and the random source are arguments.
--   Audit         internal/infrastructure/audit/history.go and trail.go, over a store of entries that
--                 is an argument; `Audit.Encrypted` is the store of store.go on a disk.
--   Notifier      internal/infrastructure/notifier: payloads, the posting of one, the fan-out.
--   Scheduling    internal/infrastructure/scheduling: the calls of Execute as a step relation, what
--                 registers cron entries, and the policy runner.
--   Config        internal/infrastructure/configfile: discovery, load, normalisation (`Normalize`) and
--                 the translation into secrets (`Translate`, `Provider`), from the decoded file on.
--   Cli           internal/interfaces/cli: from rotate.go runRotate and the order of the containers
--                 (`Order`), from daemon.go what the daemon loads (`Commands`).
--   System        internal/interfaces/cli/wiring.go: the env store as the port of the rotation, with
--                 any other adapters, which may act on the same disk. Theorems ask that the other
--                 adapters leave alone the contents of followed files, a choice that includes the
--                 secret's; the file of the rotation history is one that need not be followed.
--                 `System.Beside` builds such adapters. `Application.Rotate.Confined` is the rotation
--                 over a store that refuses paths.
--   Tests         runs at concrete inputs, and the theorems at them.
--
-- How values are modelled:
--   A Go string is the list of its characters; `byte_len` is its length in UTF-8. What package
--   unicode knows beyond ASCII is the argument `Tables`. Times and durations are integers of
--   nanoseconds, with `wrap64` where Go adds or multiplies in 64 bits; time.ParseDuration and
--   Duration.String are the arguments `parse_duration` and `print_duration`. The order in which Go
--   ranges over the map of argv lists is the argument `MapOrder`. The entropy of a password is kept
--   as its number of combinations, which is compared with a power of two where Go compares the
--   logarithm in floating point. The texts of messages are not modelled.
--   A disk is a function from paths to contents and permissions; a list says which of the coming
--   calls fail, and another which path CreateTemp picks next. The removal of the store's own
--   temporary file is taken to succeed. Links and concurrent writers are not modelled.
--   A snapshot in the journal is never nil, since it comes from a read of the file.
--   Calls of an adapter are functions from a world to a result and a world; `Application.Calls` has
--   the chains of them, with `defer` and the fallback behind an error. A call of Execute is a thread
--   with a program counter; a step of any thread may come next, and a lock is a Boolean.
--   Loops are structural recursions, except for `Prelude.Decimal.print`, whose fuel is one more than
--   the number, which has fewer digits, and for the loop of the topological sort, whose fuel is the
--   number of services: each round takes one service off the queue, and no service comes twice. The
--   wait for a container runs for as many ticks as come before its end.
--
-- Not modelled: flags, prompts and printing, and the commands but rotate and daemon; the choice of
-- adapters by options; the signals that end the process group of a command; StopContainer,
-- StartContainer and the making of a Docker client; the database drivers, the Docker SDK, cron,
-- YAML, JSON and HTTP, which are arguments; the cancellation of a context, except where a loop
-- looks at it.
mod Prelude
pub mod Crypto
pub mod Domain
pub mod Application
pub mod Envstore
pub mod Audit
pub mod Containers
pub mod Credentials
pub mod Notifier
pub mod Scheduling
pub mod Config
pub mod Cli
pub mod System
mod Tests
