-- ===== src/Lib.antt =====
-- A model of PassFS, the encrypted file system of this repository: the storage engine in
-- internal/passfs, from the file handles that the kernel's calls reach to the vault's metadata and the
-- authorization that releases its private identity.
--
-- The parts, and the files that model them:
-- - Error: Go's error trees and errnoFromError (volume.go). Result is Go's pair of a value and an error.
-- - Path: filepath.Clean and Join over bytes, metadataKey, validateRelativePath, validateName,
--   directoryPath, encryptedPath (volume.go), PathWithin (path.go).
-- - FileMeta: FileMeta, stableInode, fileAttributes (volume.go, filesystem.go, internal/fsapi).
-- - Handle: OpenFile and its Read, Write, Flush, Close, Attributes, SetAttributes (file_handle.go). The
--   volume that a handle calls is a parameter, persistFile among its fields.
-- - Opening: openFile, createFile, loadExistingFile, finishFileOpen (file_handle.go), virtualType and the
--   size limit of decryptFileWithIdentity (volume.go), over a volume given by its operations.
-- - Storage: the transactions persistFile and removeProtectedFileLocked (volume.go), with a fault of the
--   file system at each step; the encryption is a parameter.
-- - Locks: the table of path locks, acquirePathLock and tryPathLock (volume.go), one step for each critical
--   section of the table and for each operation of a lock.
-- - Registry: the registry of open handles (volume.go).
-- - Process: processAlive and processIsOrDescendsFrom (volume.go, process_name.go); the operating
--   system's answers are a parameter.
-- - Token: session tokens and the control attribute's value (edit_session.go).
-- - Auth: the state under unlockMu (volume.go): unlockIdentityForRequest, the cache of grants and its
--   timers, edit and encrypt sessions, Lock, ConfigureAuthorization, ConfigurePrompter. Auth/State has
--   the cache, Auth/Sessions the sessions. The prompter and the parsing of identities are parameters.
-- - Meta: the state under metadataMu (volume.go, metadata_lock.go): the metadata on disk and in memory,
--   the pending access times, and every function that changes them. Meta/Disk has the record and its
--   saving, Meta/Updates the changes. How the file system answers one locked action, faults included, is
--   a value of Io; migrateLegacyMetadata is one of its fields.
--   Meta/Reading has fileMeta, of which FileSystem and Opening know the value and the state after it.
--   Meta/Reconcile has the repair of the metadata when a volume is loaded (reconcileMetadata in
--   metadata_migration.go, loadMetadata).
-- - Objects: identifiers, storage paths and mounted targets (objects.go), storagePath and virtualObjectID
--   (filesystem.go).
-- - FileSystem: the operations that the adapters call (filesystem.go), over a volume given by its
--   operations (Backend), among them those of Opening. FileSystem/Reserved has the names of the host's
--   bookkeeping, FileSystem/Changes opening, creating and removing, FileSystem/Settings attributes and the
--   marks of sessions.
-- - Links: what a pass of the link synchronizer decides for a record (links.go:
--   synchronizeOpaqueLinksOnce). What it looks at and calls is a parameter (World, in Links/Calls); the
--   calls that change something are listed. Links/Targets has the recognition of a link's target.
-- - Versions: semantic versions, parsed and compared (internal/updater/client.go). Versions/Newer prints them
--   and asks which is newer; Versions/Comparison has orders in general, Versions/Numbers strconv.ParseUint,
--   whose inverse Versions/Printed and Versions/RoundTrip are about.
-- - Table: Go's maps as association lists; a range visits them in the order of the list. Prelude: the
--   numbers, lists and texts that the parts share. Examples: concrete inputs.
--
-- A function that holds a mutex throughout is one step; where others can run in between, each critical
-- section is a step of its own: begin_write and end_write of a Write, ask_session and add_edit_session of a
-- session's opening, the operations of a path lock and of its table. Clock readings, random numbers and process numbers are
-- arguments. Times are natural numbers of nanoseconds, and int64 limits are hypotheses where a result
-- rests on them. The search for an ancestor process takes the 64 rounds of the source.
--
-- Not modelled: the namespace lock (Backend asks for its answer),
-- the migration of format 1, the search for a moved link, the moves of whole directories at the end of a pass
-- (rebaseLinkSources) and the exchange of symbolic links, imports, the
-- scan, the updater's downloads and its state, the command line, adapters and native code, which are I/O for the most part, and the
-- cryptography, which is a third party's.
pub mod Auth
pub mod Error
pub mod Examples
pub mod FileMeta
pub mod FileSystem
pub mod Handle
pub mod Links
pub mod Locks
pub mod Meta
pub mod Objects
pub mod Opening
pub mod Path
pub mod Prelude
pub mod Process
pub mod Registry
pub mod Result
pub mod Storage
pub mod Table
pub mod Token
pub mod Versions
