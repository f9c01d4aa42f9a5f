-- ===== src/Relations/Service.antt =====
-- src/service/relation_service.rs: relations with their checks and their audit entries.
use pdt.Base.{String, not, List, ◌==◌}
use pdt.Model.Error.{ApiError}
use pdt.Model.Relation.{Relation, CreateRelationRequest}
use pdt.Model.Audit.{AuditAction, Changes}
use pdt.Model.World.{Exec, pure, ensure, ◌>>=◌, ◌>>◌}
use pdt.Audit.Repository as Trail
use pdt.Assets.Rows
use pdt.Relations.Repository

-- The entry that goes with a relation: its ends and its type.
unfoldable pub log_relation : AuditAction → Relation → String → Exec Unit
log_relation action r user = do
  Trail.create "relation" r.id action
      (Changes.relation r.from_asset_id r.to_asset_id r.relation_type) user
  pure tt

-- `RelationService::create`
unfoldable pub create : CreateRelationRequest → String → Exec Relation
unfolding log_relation
create request user = do
  source ← Rows.exists request.from_asset_id
  ensure source ApiError.not_found
  target ← Rows.exists request.to_asset_id
  ensure target ApiError.not_found
  ensure (not (request.from_asset_id == request.to_asset_id)) ApiError.validation
  cycle ← Repository.would_create_cycle request.from_asset_id request.to_asset_id
  ensure (not cycle) ApiError.validation
  r ← Repository.create request user
  log_relation AuditAction.create r user
  pure r

-- `RelationService::delete`
unfoldable pub delete : String → String → Exec Unit
unfolding log_relation
delete id user = do
  r ← Repository.get_by_id id
  Repository.delete id
  log_relation AuditAction.remove_relation r user

-- `RelationService::get_asset_relations`
unfoldable pub get_asset_relations : String → Exec (List Relation)
get_asset_relations id = do Rows.get_by_id id; Repository.get_asset_relations id
