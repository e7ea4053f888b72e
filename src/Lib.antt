-- ===== src/Lib.antt =====
-- git-vws: sessions of Git working trees, and the publication of their commits to an authority.
--
-- An authority is a Git repository, known by its path and its node in the file system. A session is a
-- private copy made from a template; its record file, `session-<sid>.record`, is the source of truth
-- for the stage of its life and for the journal of a publication. The program never trusts a name or a
-- file that it has read before: it reads again, compares and then acts. The model follows this: the
-- Git program, the record files, the directories and the digest are a host, a record of functions over
-- a state of which nothing is assumed, and a run leaves a log of its commands and writes. A theorem on
-- the log therefore holds for every answer of Git, every failure of the disk and every interference of
-- other processes between two calls. A crash is a run that ends early: the journal that it leaves is
-- the start of the next run.
--
-- Base            shared names; byte strings and their searches, decimal numbers, UTF-8, results
-- Effect          computations over the world (the host's state and the log), and their logic
-- Authority       src/authority.rs: Identity (nodes and permission tests), Hex (hexadecimal texts, also
--                 those of src/session.rs), Record (an authority's record as text), TxnName (the names
--                 of transaction files), Scan (`scan_records`), Paths (how two paths are compared)
-- Framing         `lp` of src/session.rs, src/template.rs and src/storage.rs, the text that identifiers
--                 digest
-- Storage         src/storage.rs: Receipts, Modes (which nodes are accepted) and Links (`OwnedRegularLinks`)
-- Template        src/template.rs: Record (`TemplateRecord`, its gate and reading), Transition (which record
--                 may stand beside which), Store (the container with its records as capabilities),
--                 Census (`template_census`, `doctor`) and Collect (`gc`); Keeps, Completing and Spares
--                 follow the log through them, Flags the report
-- Session.Journal, Types   src/session.rs: `PublishJournal`, `SessionRecord`, `SessionPayload`
-- Session.Names, Validate, Records   the texts that name sessions; `validate_record`, `encode_record` and
--                 `parse_record`, and what they let through
-- Session.Host    what the operations ask of their surroundings, with the events of the log
-- Session.Git, Commands   the Git commands of a publication and the parsers of their outputs
-- Session.Store   record files as capabilities, READY sessions and their leases
-- Session.Publish `publish`: publish_from is its matches on the journal, publish_idle, prepare and
--                 publish_same the arm of the idle journal, import the end of `publish_prepared`, and
--                 attempt and settle that of `publish_objects_imported`; Stays, Walk and Schema follow
--                 the log through it
-- Session.Preimages   the digested texts of session and transaction identifiers
-- Session.Lifecycle   `remove`, `exec`, the tombstones and the order of the stages
-- Session.Files   calls on directories and files that the creation shares, with their checks
-- Session.Create  `create`: Outputs and Commands (its Git commands), Transaction (`CreateTxn`), Materialize
--                 (`create` and `materialize_session`, whose parts enter, build_common, build_worktree,
--                 settle_trees and leave each stand inside the transaction); Changes says what may be
--                 left in the log, and Keeps, Advance and Stages follow the log
-- Session.Discard `ensure_discard_safe`: Outputs (the texts that it reads) and Checks; Disposable and
--                 SafeName say what it lets through
-- Maintenance     src/session.rs: Report and Output (the report and its lines), Sessions
--                 (`session_census`), Collect (`gc_sessions`), Listing (`list`) and Run (`maintain`, that
--                 is `doctor` and `gc`); Reachable and Flags are about the census, Accounted about the
--                 listing, Order, Words and Printing about the lines; Careful, Quiet, Survey and Maintain
--                 follow the log
-- Tests           a host that answers like a quiet disk, runs on it and instances of the theorems
--
-- A path, a file's content and a command's output are lists of bytes; numbers keep the bounds of their
-- machine types where the program parses or counts. Errors keep their code and detail, where the detail
-- is one of the program's own texts. There is no fuel: every loop is a recursion on its data. `geteuid`,
-- SHA-256, `serde_json`, `from_utf8_lossy` and the system calls are parameters. What a component asks of
-- another one is a single call of the host, named in the interfaces Host, Files, Services, Sweep, Store and
-- State: leases, open READY sessions, the transaction on a record file (with one detail for its failures),
-- `template::acquire`, `cow_clone`, the removal of a tree, the classification and the collection of private
-- loose objects. What a platform decides is modelled as on Linux, but for the template's tombstones, where it
-- is a field of the store. Not modelled: the checkpoints of the crash tests (src/m4_checkpoint.rs), the child
-- processes (src/git.rs), the making of templates, the registration of an authority, the classification and
-- collection of private loose objects, the walks over trees and the command line (src/main.rs).
pub mod Base
pub mod Authority
pub mod Framing
pub mod Storage
pub mod Template
pub mod Effect
pub mod Maintenance
pub mod Session
pub mod Tests
