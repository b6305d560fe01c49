-- ===== src/Lib.antt =====
-- Verification of pve-meta: structured metadata for Proxmox VE guests. The Rust crate
-- crates/pve-meta-core holds the logic; the Perl API module, the CLI and the browser editor call it.
--
-- A guest's document is a YAML map. A request names a view (a path into the document) and reads,
-- replaces, merges or removes the subtree there. The write is planned on a copy, linted, and
-- stored.
--
-- Which file models which part (sources are relative to crates/pve-meta-core/src):
--   DocPath            path.rs: segments, paths, their prefix order; DocPath.Parse is `Path::parse`.
--   Json               `serde_json::Value` with insertion-ordered maps, as model.rs uses it.
--   Model              model.rs: comment keys, the lint, `get_path`.
--   Error, DocId       error.rs, and the document ids of store.rs.
--   Format             the two text formats of format.rs; Format.Scan is its scan for unsafe YAML,
--                      Format.Texts `parse_raw`, `parse` and `dump` over the parsers and printers.
--   Disk               the calls of `std::fs` that the store makes.
--   Store              store.rs: paths, reads and the compare-and-swap check; Store.Ops the
--                      operations that change the disk, Store.Calls the script of file system
--                      calls that `write_atomic` makes, Store.Listings the operations that list,
--                      Store.Prefixes the loading of prefix files (registry.rs). Store.Spec is what
--                      the store promises: documents and snapshots by number and name.
--   Patch              patch.rs: `apply_patch` and `diff`.
--   View               view.rs: `extract`, `replace`, `merge`, `remove`; View.Notes is
--                      `strip_comments`, `names_comment` and `keep_comments`.
--   Schema             the check of one value against one schema node (shape.rs, with the flags of
--                      registry.rs).
--   Registry           registry.rs: the prefixes, what a node changes of them; Registry.Files is
--                      the choice of a file, Registry.Listing and Rows the rows that reach a
--                      guest,
--                      Registry.Dialect the check of a schema, Registry.Parse `parse_prefix`.
--   Shape              shape.rs: the prefix that governs a path, the findings of a document, and
--                      those that an edit introduces.
--   Api                api.rs: the status of an error, ids, the reading of a stored document, the
--                      gates of a write; Api.Plan is `put_document` up to the write, Api.Handlers,
--                      Api.Removals and Api.Views are `put_document`, `delete_document` and
--                      `get_document` over Store, Api.Listings the handlers that list.
--   Tags               tags.rs, and the short digests of digest.rs.
--
-- How the code corresponds. A function that gets `&mut Value` returns the document as it leaves it,
-- beside its result, also where the result is an error. A `&mut Vec<Touched>` that a function pushes
-- to is the list of what its call pushes. A walk that returns a `&mut` into a document takes what
-- its caller does with the place as a function (`with_created`, `with_existing` in View). Rust's
-- `Map` is the list of its entries in insertion order; that no key stands twice is an invariant,
-- proved in Json.WellFormed and where patches and views are. The numbers of `serde_json` are a
-- parameter, a type with a lawful `==`, so that numbers are taken up to that `==`; where the code
-- asks more of them (`as_i64`, `as_f64`, `<`) it is a record of operations, Json.Numbers.
--
-- The store works on a world: the disk as a list of paths, the time, the counter of writes, and
-- whether the cluster's marker is a link. An operation gives the world as it leaves it beside its
-- answer; calls of one operation are not interleaved with another's. `write_atomic` is a script of
-- calls (Store.Calls): an operation runs it to its end, and what an interruption can leave is read off
-- the same script. The disk answers by what it holds, so that a directory is always made and a write
-- under way fails only by being interrupted. A directory is there once a
-- file is put into it, and nothing among the documents is a symbolic link. The hash, the YAML and
-- JSON libraries, UTF-8 and the decoding that serde derives for prefix files are parameters (the
-- record Libraries, and `decode`). A guest's number has 32 bits in the code and any size here.
--
-- Bounds and fuel. All recursion is on the values, the entries or the segments. The one fuel is
-- that of `to_string` of a number (Shared.Decimal): one more than the number, and so at least as much
-- as it has digits. A text that names an array index is read below 2^64, one that names a guest
-- below 2^32.
--
-- Not modelled: the parsers and printers of YAML and JSON (libraries; the events of the one and the
-- values of both are parameters); log and audit lines; the environment variables and the host's
-- name; the backup blocks in notes; the guest-files daemon; the Perl, JavaScript and WebAssembly
-- bindings.
mod Shared
pub mod Format
pub mod DocId
pub mod DocPath
pub mod Json
pub mod Model
pub mod Error
pub mod Schema
pub mod Registry
pub mod Shape
pub mod Disk
pub mod Store
pub mod Api
pub mod Patch
pub mod Tags
pub mod View
pub mod Tests
