-- ===== src/Assets/Service.antt =====
-- src/service/asset_service.rs: assets with their checks, their cascades and their audit entries.
pub mod Cascade
pub mod Born
use pdt.Base.{
  ℕ, String, Bool, true, false, not, Option, none, some, List, [], ◌∷◌, map, length, is_blank, trim,
  if◌then◌else◌, ◌==◌,
}
use pdt.Model.Error.{ApiError}
use pdt.Model.Asset.{
  Asset, AuthContext, Tag, AddTagRequest, CreateAssetRequest, UpdateAssetRequest, AdoptAssetRequest,
  UpdateAuthContextRequest,
}
use pdt.Model.Relation.{Relation}
use pdt.Model.Audit.{AuditAction, Changes, RelationSummary}
use pdt.Model.World.{Exec, pure, ensure, for_each, try, ◌>>=◌, ◌>>◌}
use pdt.Audit.Repository as Trail
use pdt.Assets.Birth.{guard_birth_auth_context, requested_or_default}
use pdt.Assets.Rows
use pdt.Assets.Tags.{validate}
use pdt.Assets.Repository
use pdt.Relations.Repository as Links
use pdt.Collections.Repository as Shelf

unfoldable pub log : AuditAction → String → Changes → String → Exec (Unit {0})
log action id changes user = do Trail.create "asset" id action changes user; pure tt

-- The request with its context guarded.
unfoldable pub guarded : CreateAssetRequest → List String → CreateAssetRequest
guarded request caller_groups = record request {
  auth_context = some (guard_birth_auth_context request.auth_context caller_groups);
}

-- `AssetService::create`
unfoldable pub create : CreateAssetRequest → String → List String → Exec Asset
unfolding guarded log
create request user caller_groups = do
  ensure (not (is_blank request.title)) ApiError.validation
  asset ← Repository.create (guarded request caller_groups) user
  log AuditAction.create asset.id (Changes.created_asset asset.title (length asset.tags)) user
  pure asset

-- `AssetService::adopt`: a provenance is required.
unfoldable pub adopt : String → AdoptAssetRequest → String → Exec Asset
adopt id request user = do
  ensure (not (is_blank request.title)) ApiError.validation
  ensure (not (is_blank request.provenance)) ApiError.validation
  let inner : CreateAssetRequest = record {
    title = request.title;
    content = request.content;
    tags = request.tags;
    metadata = request.metadata;
    auth_context = request.auth_context;
  }
  Repository.adopt id inner user request.provenance

-- Whether a text, where there is one, is not blank.
unfoldable pub has_text : Option String → Bool
has_text none = true
has_text (some text) = not (is_blank text)

-- `AssetService::update`
unfoldable pub update : String → UpdateAssetRequest → String → Exec Asset
unfolding has_text log
update id request user = do
  ensure (has_text request.title) ApiError.validation
  old ← Rows.get_by_id id
  asset ← Repository.update id request user
  log AuditAction.update id (Changes.updated old.title old.content request.title request.content)
      user
  pure asset

unfoldable pub summary : Relation → RelationSummary
summary r = record {
  id = r.id;
  from_asset_id = r.from_asset_id;
  to_asset_id = r.to_asset_id;
  relation_type = r.relation_type;
}

-- `AssetService::delete`: the relations are listed before they are removed, and the entry of the
-- deletion carries them.
unfoldable pub delete : String → String → Exec (Unit {0})
unfolding summary log
delete id user = do
  Rows.get_by_id id
  cascaded ← Links.get_asset_relations id
  Repository.soft_delete id
  Links.delete_by_asset id
  Shelf.remove_asset_from_all id
  log AuditAction.delete id (Changes.cascade (map summary cascaded)) user

-- `AssetService::add_tag`
unfoldable pub add_tag : String → AddTagRequest → String → Exec Tag
unfolding log
add_tag id request user = do
  ensure (validate request) ApiError.validation
  tag ← Repository.add_tag id request user
  log AuditAction.add_tag id (Changes.tagged tag.id tag.category tag.value) user
  pure tag

-- `AssetService::remove_tag`
unfoldable pub remove_tag : String → String → String → Exec (Unit {0})
unfolding log
remove_tag id tag_id user = do
  Repository.remove_tag id tag_id
  log AuditAction.remove_tag id (Changes.text tag_id) user

-- `Option::unwrap_or`
unfoldable pub unwrap_or : {A : Type 0} → Option A → A → A
unwrap_or none old = old
unwrap_or (some new) old = new

-- The context with the fields that the request names.
unfoldable pub merge_context : UpdateAuthContextRequest → AuthContext → AuthContext
unfolding unwrap_or
merge_context request ctx = record {
  visibility = unwrap_or request.visibility ctx.visibility;
  owner_groups = unwrap_or request.owner_groups ctx.owner_groups;
  confidentiality = unwrap_or request.confidentiality ctx.confidentiality;
}

-- One child of the cascade: a child that cannot be read or written is passed over.
unfoldable pub cascade_child : UpdateAuthContextRequest → String → Exec (Unit {0})
unfolding merge_context try
cascade_child request child_id = try (do
  child ← Rows.get_by_id child_id
  Repository.update_auth_context child_id
      (merge_context request (requested_or_default child.auth_context)))

-- The cascade over the descendants, with their number.
unfoldable pub cascade : Bool → String → UpdateAuthContextRequest → Exec ℕ
unfolding cascade_child
cascade false id request = pure 0
cascade true id request = do
  descendants ← Links.get_descendants id
  for_each (cascade_child request) descendants
  pure (length descendants)

-- `AssetService::update_auth_context`. The fields that a child takes from the merged context are
-- those that the request names, so they are the request's.
unfoldable pub update_auth_context : String → UpdateAuthContextRequest → String → Exec Asset
unfolding merge_context cascade log
update_auth_context id request user = do
  asset ← Rows.get_by_id id
  let ctx = merge_context request (requested_or_default asset.auth_context)
  updated ← Repository.update_auth_context id ctx
  count ← cascade request.cascade id request
  log AuditAction.update id (Changes.auth_context ctx request.cascade count) user
  pure updated
