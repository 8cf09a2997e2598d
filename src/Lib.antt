-- ===== src/Lib.antt =====
-- The provider of CloudNativePG for OpenEverest, verified: its checks, the resources that it builds, its
-- synchronisations over the Kubernetes API, and the statuses that it reports.
--
-- The program is a controller. For each Instance the runtime calls `Validate`, `Sync`, `Status` and, for
-- backups, `SyncBackup`, `SyncRestore`, `CleanupBackup` and `Mirror` of internal/provider. These call
-- internal/cnpg for the Cluster (extensions, checks, managed roles, TLS) and internal/cnpg/barman for
-- backups (schedules, object stores, recovery), whose settings stand in definition/ and internal/common.
--
-- Which file models which part:
--   Common           what the modules share: tests, lists, dictionaries, results, integers, and what the
--                    code uses of the Go library: texts, strconv, sha256, net/url. Common.Urls.Read,
--                    Delimiters and RoundTrip are the other side: how a client reads a URL.
--   Cnpg.Types, Cnpg.Status, Cnpg.Quantities
--                    the fields of CloudNativePG's resources, of the runtime's status and component types
--                    that the program uses; quantities and the checks of names are interfaces.
--   Cnpg.Components  definition/components/types.go and the constants of internal/common.
--   Cnpg.Extensions  internal/cnpg/extensions.go: Table the table of extensions, Versions the comparison
--                    of versions, Rules the three checks, Images ResolveExtensionImages and
--                    ApplyExtensions, Database the Database resource and ExtensionsStatus.
--   Cnpg.Validate    internal/cnpg/validate.go. Accepts, Engine, Parts and Sound are the conditions that
--                    its checks come to.
--   Cnpg.Roles       internal/cnpg/roles.go.
--   Cnpg.Tls         internal/cnpg/tls.go.
--   Barman.Schedule  internal/cnpg/barman/schedule.go; Sync is SyncScheduledBackups over an API state,
--                    Refines the map from names to ScheduledBackups that it implements,
--                    Kept what its writes keep.
--   Barman.ObjectStore
--                    internal/cnpg/barman/backup.go; Stable has the runs of several Instances over one
--                    shared ObjectStore. Barman.Plugin is plugin.go and constants.go.
--   Barman.Restore   internal/cnpg/barman/restore.go.
--   Provider.Validation
--                    Validate of internal/provider/provider.go, validatePrometheus of podmonitor.go.
--   Provider.Desired the Cluster that Sync applies, with buildClusterSpec and applyScheduling.
--   Provider.Sync    Sync of internal/provider/provider.go: its calls in their order. Chains has the
--                    lemmas on the sequence, Ends and Applied what a run without an error has done,
--                    Errors what one with an error has, Guarded what waits for a restore,
--                    Kept what its last steps keep, Backups, Poolers, Monitors and Safe what it has
--                    to do with SyncBackup, the Pooler, the PodMonitor and Validate.
--   Provider.Readiness
--                    Status of internal/provider/provider.go.
--   Provider.Connection, Provider.Pooler, Provider.Mirror
--                    connection.go, pooler.go and backup_mirror.go of internal/provider.
--                    Connection.Uri and Readiness.Uri are what a client reads from the URI.
--   Provider.PodMonitor
--                    syncPodMonitor and buildPodMonitor of internal/provider/podmonitor.go.
--   Provider.Backup  SyncBackup and SyncRestore of internal/provider/backup.go; Laws is about the first,
--                    Restored about the second.
--   Provider.Deletion
--                    CleanupBackup of backup.go, and backup_delete.go with its Job. Lifecycle has the
--                    runs of it between the steps of others, Fair and Completes those with others that
--                    do their work.
--   Provider.Registration
--                    New of provider.go, the watches, Cleanup and CleanupRestore.
--   Tests            concrete inputs, and the theorems applied to them.
--
-- How the code is modelled. A Go function that returns an error returns a Result; a nil pointer is an
-- Option; a dereference of nil is the value none, or the error `panics`. A call of the Kubernetes API is a
-- field of a record `Client`, over a state that each write passes on; what the documentation of the API
-- promises is a record of laws, where a theorem needs it. A Go map is an association list, and the order
-- of its iteration the order of the list. Errors are constructors that carry the values of the message in
-- place of its text; messages of a status are texts. A dictionary that is nil and one that is empty are
-- the same. The types of CloudNativePG, of the plugin, of OpenEverest and of Kubernetes are no code of this
-- repository: their fields are records, their methods and the decoding of JSON are parameters.
--
-- Bounds. All recursion is on the structure of a list or a text, so there is no fuel but in the writing of
-- decimal numbers, whose fuel is the number itself plus one. Integers are compared, and added only for the
-- number of standbys, far from the ends of int64; the arithmetic of sha256 wraps at 2^32. A name that is
-- cut at a byte inside a character loses that character; names in Kubernetes are ASCII.
--
-- Not modelled: that ApplyExtensions writes into a map it shares with the decoded parameters; the scheme
-- functions of New and main, which only name types and start the runtime; the Helm chart, the manifests
-- and the tests.
pub mod Common
pub mod Cnpg
pub mod Barman
pub mod Provider
pub mod Tests
