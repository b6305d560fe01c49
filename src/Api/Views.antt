-- ===== src/Api/Views.antt =====
-- `get_document` (crates/pve-meta-core/src/api.rs), over the store.
use pve_meta.Shared.{
  String, Bool, true, false, ◌&&◌, Option, none, some, str_eq, if◌then◌else◌, Eq, ◌⊎◌,
}
use pve_meta.Json.{Value, object, end}
use Prim.Native.String.{◌++◌ as concat}
use pve_meta.DocPath.{DocPath}
use pve_meta.DocId
use pve_meta.DocId.{DocId, guest, registry, noun}
use pve_meta.Format.{Format, yaml, json}
use pve_meta.Format.Texts.{Libraries, dump}
use pve_meta.Json.Numbers.{Numbers}
use pve_meta.View.{extract}
use pve_meta.View.Notes.{strip_comments}
use pve_meta.Registry.Parse.{RawPrefixDef}
use pve_meta.Store.{MetaStore, World}
use pve_meta.Api.{
  ApiError, ApiResult, done, refused, from_core, forbidden, parse_id, Stored, ◌>>=◌, ◌>>◌,
}
use pve_meta.Api.Wire.{CallerAcl, ApiViewDocument, view_out, parse_view, parse_view_format}
use pve_meta.Api.Plan.{stored_at}

module _ {N F B : Type 0} (numbers : Numbers N F) (libs : Libraries N B)
    (decode : Value N → String ⊎ RawPrefixDef N) (store : MetaStore) ⦃e : Eq N⦄ where
  -- The subtree that a read answers; one that is not there is the empty map.
  subtree : Value N → Option String → DocPath → ApiResult (Value N)
  subtree base none view_path = done base
  subtree base (some view) view_path = from_core (extract base view_path) >>= λ found.
      done (elim found [ none ↦ object end | some v ↦ v ])

  own_text : Option String → Option String → Bool → Option String
  own_text none (some raw) true = if str_eq raw "" then none else some raw
  own_text view raw comments = none

  rendered : Option String → Option String → Bool → Value N → String
  unfolding own_text
  rendered view raw comments value = elim (own_text view raw comments) [
    | none ↦ dump libs yaml value
    | some raw ↦ raw
  ]

  view_document :
      DocId → Option String → String → Format → Option String → Bool → Value N → ApiViewDocument N
  unfolding rendered
  view_document id view digest json raw comments value = record {
    id = DocId.display id;
    view = view_out view;
    digest = digest;
    data_out = some value;
    text = none;
    parse_error = none;
  }
  view_document id view digest yaml raw comments value = record {
    id = DocId.display id;
    view = view_out view;
    digest = digest;
    data_out = none;
    text = some (rendered view raw comments value);
    parse_error = none;
  }

  is_yaml : Format → Bool
  is_yaml yaml = true
  is_yaml json = false

  unrecoverable_document :
      DocId
      → Option String
      → Format
      → Bool
      → Stored N
      → String
      → Option String
      → ApiResult (ApiViewDocument N)
  unfolding is_yaml
  unrecoverable_document id view format comments stored reason raw =
      let cannot : ApiError = record {
        status = 422;
        msg = concat "the stored document cannot be rendered: " (
            concat reason
              " (read it raw with format=yaml&comments=1 (CLI: --comments); replace it with a full document (no 'view', mode=replace) or delete it)");
      } in
      if is_yaml format && comments
      then elim raw [
        | none ↦ refused cannot
        | some text ↦ done (record {
          id = DocId.display id;
          view = view_out view;
          digest = stored.digest;
          data_out = none;
          text = some text;
          parse_error = some reason;
        })
      ]
      else refused cannot

  shown_document :
      DocId → Option String → DocPath → Format → Bool → Stored N → ApiResult (ApiViewDocument N)
  unfolding unrecoverable_document subtree view_document
  shown_document id view view_path format comments stored = elim stored.unrecoverable [
    | some reason ↦ unrecoverable_document id view format comments stored reason stored.raw
    | none ↦
        let base = if comments then stored.value else strip_comments stored.value in
        subtree base view view_path >>= λ value.
        done (view_document id view stored.digest format stored.raw comments value)
  ]

  check_read : Bool → DocPath → ApiResult Unit
  check_read allowed view_path = if allowed then done tt else refused (forbidden view_path)

  unfoldable pub get_document :
      World B → String → Option String → String → Bool → CallerAcl → ApiResult (ApiViewDocument N)
  unfolding shown_document check_read
  get_document w id view format_name comments acl = do
    doc_id ← parse_id id
    format ← parse_view_format format_name
    view_path ← parse_view view
    check_read acl.read view_path
    stored ← stored_at numbers libs decode store w doc_id
    shown_document doc_id view view_path format comments stored
