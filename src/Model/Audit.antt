-- ===== src/Model/Audit.antt =====
-- src/models/audit.rs: the audit trail.
use pdt.Base.{ℕ, String, Bool, Option, List}
use pdt.Model.Asset.{AuthContext}
use pdt.Model.Relation.{RelationType}

pub data AuditAction : Type 0 where
  create update delete add_tag remove_tag add_relation remove_relation : AuditAction
  add_to_collection remove_from_collection add_member remove_member : AuditAction
  admin_bypass adopt : AuditAction

-- What the entry of a cascade says of a removed relation.
pub record RelationSummary : Type 0 where
  pub id : String
  pub from_asset_id : String
  pub to_asset_id : String
  pub relation_type : RelationType

-- An archive file under its name `{dir}/audit-archive-{second}.jsonl`: the stamp in the name is
-- the time to the second.
pub record ArchivePath : Type 0 where
  pub dir : String
  pub second : ℕ

-- The JSON bodies that the services write, one constructor for each shape.
pub data Changes : Type 0 where
  -- {"name"}, {"title"} and the like: the text that the entry quotes
  text : String → Changes
  -- {"member_id", "seed": true}
  seeded : String → Changes
  -- {"cascade": true, "relations_removed", "relations"}
  cascade : List RelationSummary → Changes
  -- {"from_asset_id", "to_asset_id", "relation_type"}
  relation : String → String → RelationType → Changes
  -- {"operation": "audit-prune", "older_than_days", "cutoff", "archived", "deleted",
  -- "archive_path"}
  audit_prune : ℕ → ℕ → ℕ → ℕ → ArchivePath → Changes
  -- {"action", "detail"} of an admin bypass, with the number of assets or the asset's id
  bypass_list : String → ℕ → Changes
  bypass_asset : String → String → Changes
  -- {"title", "tags"} of a new asset: its title and the number of its tags
  created_asset : String → ℕ → Changes
  -- {"title", "provenance", "tags"}
  adopted : String → String → ℕ → Changes
  -- {"old", "new"}, each with a text and another that may be absent
  updated : String → Option String → Option String → Option String → Changes
  -- {"tag_id", "category", "value"}
  tagged : String → String → String → Changes
  -- {"action": "update_auth_context", "auth_context", "cascade", "cascaded_count"}
  auth_context : AuthContext → Bool → ℕ → Changes
  empty : Changes

pub record AuditEntry : Type 0 where
  pub id : String
  pub entity_type : String
  pub entity_id : String
  pub action : AuditAction
  pub changes : Changes
  pub user_id : String
  pub timestamp : ℕ
