-- ===== src/Model/Asset.antt =====
-- src/models/asset.rs, src/models/auth_context.rs and src/models/tag.rs: assets and what is asked
-- of them.
use pdt.Base.{ℕ, String, Bool, Option, List, []}

-- A JSON value, as `serde_json::Value`; the numbers are those without sign and fraction.
mutual
  pub data Value : Type 0 where
    null : Value
    bool : Bool → Value
    number : ℕ → Value
    string : String → Value
    array : Items → Value
    object : Fields → Value

  pub data Items : Type 0 where
    nil : Items
    cons : Value → Items → Items

  pub data Fields : Type 0 where
    end : Fields
    field : String → Value → Fields → Fields

-- A metadata map, by its entries.
abbrev pub Metadata : Type 0
Metadata = List (String × Value)

-- The authorization context on an asset.
pub record AuthContext : Type 0 where
  pub visibility : String
  pub owner_groups : List String
  pub confidentiality : String

-- `AuthContext::default`
abbrev pub default_context : AuthContext
default_context = record { visibility = ""; owner_groups = []; confidentiality = "" }

pub record Tag : Type 0 where
  pub id : String
  pub category : String
  pub value : String
  pub added_by : String
  pub added_at : ℕ

pub record AddTagRequest : Type 0 where
  pub category : String
  pub value : String

pub record Asset : Type 0 where
  pub id : String
  pub title : String
  pub content : Option String
  pub tags : List Tag
  pub metadata : Metadata
  pub created_at : ℕ
  pub updated_at : ℕ
  pub created_by : String
  pub updated_by : String
  pub deleted_at : Option ℕ
  pub auth_context : Option AuthContext

pub record CreateAssetRequest : Type 0 where
  pub title : String
  pub content : Option String
  pub tags : List AddTagRequest
  pub metadata : Metadata
  pub auth_context : Option AuthContext

pub record UpdateAuthContextRequest : Type 0 where
  pub visibility : Option String
  pub owner_groups : Option (List String)
  pub confidentiality : Option String
  pub cascade : Bool

pub record UpdateAssetRequest : Type 0 where
  pub title : Option String
  pub content : Option String
  pub metadata : Option Metadata

pub record AdoptAssetRequest : Type 0 where
  pub title : String
  pub content : Option String
  pub tags : List AddTagRequest
  pub metadata : Metadata
  pub auth_context : Option AuthContext
  pub provenance : String
