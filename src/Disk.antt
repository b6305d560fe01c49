-- ===== src/Disk.antt =====
-- The calls of `std::fs` that crates/pve-meta-core/src/store.rs makes, on a disk that is a list of
-- paths. A path is a directory and a name in it. A `failing` path answers every call with an error
-- that is not "not found"; a directory whose path with the empty name is `failing` cannot be listed.
-- There are no symbolic links among the documents.
pub mod Laws
use pve_meta.Shared.{
  ℕ, String, Bool, true, false, not, ◌&&◌, Option, none, some, List, [], ◌∷◌, str_eq, if◌then◌else◌,
}
use pve_meta.Error.{Error, Result, ok, err}

pub record FilePath : Type 0 where
  pub dir : String
  pub name : String

pub data Node (B : Type 0) : Type 0 where
  regular : B → ℕ → Node B
  directory : Node B
  failing : String → Node B

-- a call's answer: its value, "not found", or another error
pub data Io (A : Type 0) : Type 0 where
  done : A → Io A
  gone : Io A
  failed : String → Io A

unfoldable pub gone_is_none : {A : Type 0} → Io A → Result (Option A)
gone_is_none (done a) = ok (some a)
gone_is_none gone = ok none
gone_is_none (failed msg) = err (Error.io msg)

pub record Meta : Type 0 where
  pub is_file : Bool
  pub len : ℕ
  pub modified : ℕ

unfoldable pub same_path : FilePath → FilePath → Bool
same_path p q = str_eq p.dir q.dir && str_eq p.name q.name

abbrev pub Disk : Type 0 → Type 0
Disk B = List (FilePath × Node B)

module _ {B : Type 0} where
  unfoldable pub lookup : FilePath → Disk B → Option (Node B)
  lookup p [] = none
  lookup p ((q, n) ∷ disk) = if same_path q p then some n else lookup p disk

  unfoldable pub put : FilePath → Node B → Disk B → Disk B
  put p n [] = (p, n) ∷ []
  put p n ((q, m) ∷ disk) = if same_path q p then (q, n) ∷ disk else (q, m) ∷ put p n disk

  unfoldable pub erase : FilePath → Disk B → Disk B
  erase p [] = []
  erase p ((q, n) ∷ disk) = let rest = erase p disk in if same_path q p then rest else (q, n) ∷ rest

  -- `fs::read`
  unfoldable pub read_node : Option (Node B) → Io B
  read_node none = gone
  read_node (some (regular bytes time)) = done bytes
  read_node (some directory) = failed "Is a directory"
  read_node (some (failing msg)) = failed msg

  -- `fs::metadata`, `size` being the length of a file's bytes
  unfoldable pub meta_node : (B → ℕ) → Option (Node B) → Io Meta
  meta_node size none = gone
  meta_node size (some (regular bytes time)) =
      done (record { is_file = true; len = size bytes; modified = time })
  meta_node size (some directory) = done (record { is_file = false; len = 0; modified = 0 })
  meta_node size (some (failing msg)) = failed msg

  -- why a file cannot be written to a path, or renamed to it
  unfoldable pub blocked_node : Option (Node B) → Option String
  blocked_node (some directory) = some "Is a directory"
  blocked_node (some (failing msg)) = some msg
  blocked_node _ = none

  -- `fs::remove_file`, for its answer; what is removed is the entry
  unfoldable pub remove_node : Option (Node B) → Io (Unit {0})
  remove_node none = gone
  remove_node (some (regular bytes time)) = done tt
  remove_node (some directory) = failed "Is a directory"
  remove_node (some (failing msg)) = failed msg

  names_in : String → Disk B → List String
  names_in dir [] = []
  names_in dir ((p, n) ∷ disk) =
      let rest = names_in dir disk in
      if str_eq p.dir dir && not (str_eq p.name "") then p.name ∷ rest else rest

  listing : Option (Node B) → List String → Io (List String)
  listing (some (failing msg)) names = failed msg
  listing _ [] = gone
  listing _ (name ∷ names) = done (name ∷ names)

  -- `fs::read_dir`, for the names. A directory with nothing in it is like one that is not there.
  unfoldable pub read_dir : String → Disk B → Io (List String)
  unfolding listing names_in
  read_dir dir disk = listing (lookup (record { dir = dir; name = "" }) disk) (names_in dir disk)
