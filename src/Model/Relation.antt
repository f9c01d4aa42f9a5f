-- ===== src/Model/Relation.antt =====
-- src/models/relation.rs and src/models/collection.rs: relations between assets, and collections
-- of them.
use pdt.Base.{ℕ, String, Option, List}
use pdt.Model.Asset.{Metadata, Tag, AddTagRequest}

pub data RelationType : Type 0 where
  contains references related_to depends_on supersedes complements : RelationType
  has_instance has_agent has_access : RelationType

pub RelationType-discrete : Discrete RelationType
RelationType-discrete = hlevel

pub record Relation : Type 0 where
  pub id : String
  pub from_asset_id : String
  pub to_asset_id : String
  pub relation_type : RelationType
  pub metadata : Metadata
  pub created_at : ℕ
  pub created_by : String

pub record CreateRelationRequest : Type 0 where
  pub from_asset_id : String
  pub to_asset_id : String
  pub relation_type : RelationType
  pub metadata : Metadata

-- `asset_ids` are the rows of `collection_assets` for the collection.
pub record Collection : Type 0 where
  pub id : String
  pub name : String
  pub description : Option String
  pub tags : List Tag
  pub asset_ids : List String
  pub created_at : ℕ
  pub updated_at : ℕ
  pub created_by : String
  pub updated_by : String

pub record CreateCollectionRequest : Type 0 where
  pub name : String
  pub description : Option String
  pub tags : List AddTagRequest

pub record UpdateCollectionRequest : Type 0 where
  pub name : Option String
  pub description : Option String
