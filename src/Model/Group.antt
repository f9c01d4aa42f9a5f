-- ===== src/Model/Group.antt =====
-- src/models/group.rs: groups of one instance and their members.
use pdt.Base.{ℕ, String}

-- `INSTANCE_ADMINS_GROUP` and `INSTANCE_ADMINS_GROUP_ID`
abbrev pub instance_admins_group : String
instance_admins_group = "instance-admins"

abbrev pub instance_admins_group_id : String
instance_admins_group_id = "00000000-0000-0000-0000-0000000000a1"

pub record Group : Type 0 where
  pub id : String
  pub name : String
  pub description : String
  pub created_at : ℕ
  pub created_by : String

pub record GroupMember : Type 0 where
  pub group_id : String
  pub member_id : String
  pub added_by : String
  pub added_at : ℕ
