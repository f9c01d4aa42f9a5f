-- ===== src/Collections/Service.antt =====
-- src/service/collection_service.rs: collections with their checks and their audit entries.
use pdt.Base.{String, not, is_blank}
use pdt.Model.Error.{ApiError}
use pdt.Model.Relation.{Collection, CreateCollectionRequest, UpdateCollectionRequest}
use pdt.Model.Audit.{AuditAction, Changes}
use pdt.Model.World.{Exec, pure, ensure, ◌>>=◌, ◌>>◌}
use pdt.Audit.Repository as Trail
use pdt.Assets.Rows
use pdt.Assets.Service.{has_text}
use pdt.Collections.Repository

unfoldable pub log : AuditAction → String → Changes → String → Exec (Unit {0})
log action id changes user = do Trail.create "collection" id action changes user; pure tt

-- `CollectionService::create`
unfoldable pub create : CreateCollectionRequest → String → Exec Collection
unfolding log
create request user = do
  ensure (not (is_blank request.name)) ApiError.validation
  collection ← Repository.create request user
  log AuditAction.create collection.id (Changes.text collection.name) user
  pure collection

-- `CollectionService::update`
unfoldable pub update : String → UpdateCollectionRequest → String → Exec Collection
unfolding has_text log
update id request user = do
  ensure (has_text request.name) ApiError.validation
  old ← Repository.get_by_id id
  collection ← Repository.update id request user
  log AuditAction.update id
      (Changes.updated old.name old.description request.name request.description) user
  pure collection

-- `CollectionService::delete`
unfoldable pub delete : String → String → Exec (Unit {0})
unfolding log
delete id user = do
  Repository.get_by_id id
  Repository.delete id
  log AuditAction.delete id Changes.empty user

-- `CollectionService::add_asset`
unfoldable pub add_asset : String → String → String → Exec (Unit {0})
unfolding log
add_asset id asset_id user = do
  Rows.get_by_id asset_id
  Repository.add_asset id asset_id
  log AuditAction.add_to_collection id (Changes.text asset_id) user

-- `CollectionService::remove_asset`
unfoldable pub remove_asset : String → String → String → Exec (Unit {0})
unfolding log
remove_asset id asset_id user = do
  Repository.remove_asset id asset_id
  log AuditAction.remove_from_collection id (Changes.text asset_id) user
