-- ===== src/Api/Listings.antt =====
-- The handlers of the API that list (crates/pve-meta-core/src/api.rs).
use pve_meta.Shared.{
  ℕ, String, Bool, true, not, Option, none, some, List, [], ◌∷◌, ◌++◌, map, if◌then◌else◌, Eq, ◌≡◌,
  ◌⊎◌, inl, inr, refl, Bool-cases, All,
}
use pve_meta.Json.{Value}
use Prim.Native.String.{◌++◌ as concat}
use mathlib.Core.List.{Memᴰ}
use mathlib.Core.List.Memᴰ.{head, tail}
use pve_meta.DocPath.{DocPath}
use pve_meta.DocPath
use pve_meta.DocPath.Parse
use pve_meta.DocId.{guest}
use pve_meta.Error.{Result, ok, err}
use pve_meta.Format.Texts.{Libraries}
use pve_meta.Json.Numbers.{Numbers}
use pve_meta.Model.{get_path}
use pve_meta.View.Notes.{strip_comments}
use pve_meta.Registry.{NodeName, node_name, PrefixDef, Origin}
use pve_meta.Registry.Parse.{RawPrefixDef}
use pve_meta.Store.{MetaStore, World, check_available, digest_of, or_no_digest}
use pve_meta.Store.Listings
use pve_meta.Store.Prefixes.{RegistryFailure, prefixes_with_failures, prefixes_for_guest}
use pve_meta.Api.{ApiResult, done, refused, from_core, bad_request, Stored, ◌>>=◌, ◌>>◌}
use pve_meta.Api.Wire.{CallerAcl}
use pve_meta.Api.Plan.{stored_at}
use pve_meta.Api.Checked.{bind_done, done_inj}

pub record GuestInput : Type 0 where
  pub vmid : ℕ
  pub at_node : Option String
  pub kind : Option String
  pub name : Option String
  pub tags : List String
  pub read : Bool

pub record GuestListEntry : Type 0 where
  pub vmid : ℕ
  pub at_node : Option String
  pub kind : Option String
  pub name : Option String
  pub tags : List String
  pub digest : String

pub record ApiAccess : Type 0 where
  pub read : Bool
  pub write : Bool

pub record FailedPrefix : Type 0 where
  pub prefix : String
  pub origin : Origin
  pub error : String

failed_prefix : RegistryFailure → FailedPrefix
failed_prefix f = record { prefix = f.name; origin = f.origin; error = f.error }

pub data PrefixEntry (N : Type 0) : Type 0 where
  loaded_entry : PrefixDef N → PrefixEntry N
  failed_entry : FailedPrefix → PrefixEntry N

unfoldable pub prefixes_list :
    {N : Type 0} → List (PrefixDef N) → List RegistryFailure → List (PrefixEntry N)
unfolding failed_prefix
prefixes_list prefixes failures =
    map loaded_entry prefixes ++ map (λ f. failed_entry (failed_prefix f)) failures

-- `node_name` of api.rs
node_or_400 : String → Result NodeName → ApiResult NodeName
node_or_400 text (ok n) = done n
node_or_400 text (err e) = refused (bad_request (concat "invalid node name '" (concat text "'")))

optional_node : Option String → ApiResult (Option NodeName)
unfolding node_or_400
optional_node none = done none
optional_node (some text) = node_or_400 text (node_name text) >>= λ n. done (some n)

has_path : Option String → ApiResult (Option DocPath)
has_path none = done none
has_path (some text) = from_core (DocPath.Parse.parse text) >>= λ path. done (some path)

module _ {N F B : Type 0} (numbers : Numbers N F) (libs : Libraries N B)
    (decode : Value N → String ⊎ RawPrefixDef N) (store : MetaStore) where
  -- `version` of api.rs, for its token
  unfoldable pub api_version : World B → ApiResult String
  api_version w = from_core (Listings.version libs store w)

  unfoldable pub access : World B → CallerAcl → ApiResult ApiAccess
  access w acl =
      from_core (check_available libs store w)
      >> done (record { read = acl.read; write = acl.write })

  rows_for :
      World B
      → Option NodeName
      → Option (List String)
      → Result (List (PrefixDef N) × List RegistryFailure)
  rows_for w at_node none = prefixes_with_failures numbers libs decode store w
  rows_for w at_node (some tags) = prefixes_for_guest numbers libs decode store w at_node tags

  unfoldable pub prefixes :
      World B → Option String → Option (List String) → ApiResult (List (PrefixEntry N))
  unfolding rows_for optional_node
  prefixes w text tags = do
    at_node ← optional_node text
    rows ← from_core (rows_for w at_node tags)
    done (prefixes_list rows.0 rows.1)

  found_digest : Option (Value N) → Stored N → Option String
  found_digest none stored = none
  found_digest (some v) stored = some stored.digest

  -- the digest that a guest's row carries, or nothing for a guest that the filter leaves out
  row_digest : ⦃e : Eq N⦄ → World B → Option DocPath → ℕ → ApiResult (Option String)
  unfolding found_digest
  row_digest w none vmid =
      from_core (digest_of libs store w (guest vmid)) >>= λ d. done (some (or_no_digest d))
  row_digest w (some path) vmid = stored_at numbers libs decode store w (guest vmid) >>= λ stored.
      done (found_digest (get_path (strip_comments stored.value) path) stored)

  row_of : GuestInput → Option String → List GuestListEntry → List GuestListEntry
  row_of g none rows = rows
  row_of g (some digest) rows =
      record {
        vmid = g.vmid;
        at_node = g.at_node;
        kind = g.kind;
        name = g.name;
        tags = g.tags;
        digest = digest;
      }
      ∷ rows

  unfoldable pub guest_rows :
      ⦃e : Eq N⦄ → World B → Option DocPath → List GuestInput → ApiResult (List GuestListEntry)
  unfolding row_digest row_of found_digest
  guest_rows w path [] = done []
  guest_rows w path (g ∷ guests) =
      let others = guest_rows w path guests in
      if not g.read
      then others
      else do digest ← row_digest w path g.vmid; rows ← others; done (row_of g digest rows)

  unfoldable pub list_guests :
      ⦃e : Eq N⦄ → World B → List GuestInput → Option String → ApiResult (List GuestListEntry)
  unfolding has_path
  list_guests w guests has = do path ← has_path has; guest_rows w path guests

  -- The row is of a guest of the list that the caller can read.
  abbrev pub IsReadableRow : List GuestInput → GuestListEntry → Type 0
  IsReadableRow guests row =
      (g : GuestInput) × Memᴰ g guests × (g.read ≡ true) × (row.vmid ≡ g.vmid)

  rows_later :
      (g : GuestInput) (guests : List GuestInput) (rows : List GuestListEntry)
      → All (IsReadableRow guests) rows
      → All (IsReadableRow (g ∷ guests)) rows
  rows_later g guests [] h = tt
  rows_later g guests (row ∷ rows) ((there, at, readable, same), hs) =
      ((there, tail at, readable, same), rows_later g guests rows hs)

  row_of_readable :
      (g : GuestInput) (guests : List GuestInput) (digest : Option String)
      (rows : List GuestListEntry)
      → g.read ≡ true
      → All (IsReadableRow guests) rows
      → All (IsReadableRow (g ∷ guests)) (row_of g digest rows)
  unfolding row_of
  row_of_readable g guests none rows readable h = rows_later g guests rows h
  row_of_readable g guests (some digest) rows readable h =
      ((g, head refl, readable, refl), rows_later g guests rows h)

  guest_rows_readable :
      ⦃e : Eq N⦄ (w : World B) (path : Option DocPath) (guests : List GuestInput)
      (rows : List GuestListEntry)
      → guest_rows w path guests ≡ done rows
      → All (IsReadableRow guests) rows
  unfolding guest_rows
  guest_rows_readable w path [] rows h = rw (← done_inj _ _ h) tt
  guest_rows_readable w path (g ∷ guests) rows h = elim (Bool-cases g.read) [
    | inl readable ↦
        let (digest, _, h₁) = bind_done (row_digest w path g.vmid) _ rows (rw readable at h) in
        let (others, others_eq, h₂) = bind_done (guest_rows w path guests) _ rows h₁ in
        rw (← done_inj _ _ h₂) (
          row_of_readable g guests digest others readable
            (guest_rows_readable w path guests others others_eq))
    | inr hidden ↦
        rows_later g guests rows (guest_rows_readable w path guests rows (rw hidden at h))
  ]

  -- Every row of the list of guests is of a guest given that the caller can read.
  pub list_guests_readable :
      ⦃e : Eq N⦄ (w : World B) (guests : List GuestInput) (has : Option String)
      (rows : List GuestListEntry)
      → list_guests w guests has ≡ done rows
      → All (IsReadableRow guests) rows
  unfolding list_guests
  list_guests_readable w guests has rows h =
      let (path, _, h₁) = bind_done (has_path has) _ rows h in
      guest_rows_readable w path guests rows h₁
