-- ===== src/Groups/Service.antt =====
-- src/service/group_service.rs: groups with their checks and their audit entries.
pub mod Distinguished
pub mod Members
pub mod Seeding
use pdt.Base.{
  String, Bool, true, false, not, Option, none, some, List, [], ◌∷◌, ◌==◌, ◌||◌, any, map, trim,
  is_blank, is_empty, if◌then◌else◌,
}
use pdt.Model.Error.{ApiError, Result, ok, err, panic}
use pdt.Model.Group.{Group, GroupMember, instance_admins_group}
use pdt.Model.Audit.{AuditAction, Changes}
use pdt.Model.World.{Store, World, Exec, pure, raise, query, ensure, for_each, try, ◌>>=◌, ◌>>◌}
use pdt.Audit.Repository as Trail
use pdt.Groups.Repository

unfoldable pub log : AuditAction → String → String → String → Exec (Unit {0})
log action group_id said user = do
  Trail.create "group" group_id action (Changes.text said) user
  pure tt

-- `GroupService::ensure_instance_admins_group`
unfoldable pub ensure_instance_admins_group : String → Exec (Unit {0})
ensure_instance_admins_group description = do
  found ← Repository.get_group_by_name instance_admins_group
  elim found [
    | some group ↦ pure tt
    | none ↦ do Repository.create_group instance_admins_group description "system"; pure tt
  ]

unfoldable pub or_internal : Option Group → Exec Group
or_internal none = raise ApiError.internal
or_internal (some group) = pure group

-- One sub that is not blank and no member yet: a failure is passed over, also that of the entry.
unfoldable pub seed_one : String → List String → String → String → Exec (Unit {0})
unfolding try
seed_one group_id existing actor sub =
    if trim sub == "" || any (λ m. m == trim sub) existing
    then pure tt
    else try (do
      Repository.add_member group_id (trim sub) actor
      try (Trail.create "group" group_id AuditAction.add_member (Changes.seeded (trim sub)) actor))

-- `GroupService::seed_instance_admins`
unfoldable pub seed_instance_admins : List String → String → Exec (Unit {0})
unfolding or_internal seed_one for_each
seed_instance_admins [] actor = pure tt
seed_instance_admins (sub ∷ subs) actor = do
  found ← Repository.get_group_by_name instance_admins_group
  group ← or_internal found
  members ← Repository.list_members group.id
  for_each (seed_one group.id (map (λ m. m.member_id) members) actor) (sub ∷ subs)

-- `GroupService::create`
unfoldable pub create : String → String → String → Exec Group
unfolding log
create name description user = do
  ensure (not (trim name == "")) ApiError.bad_request
  ensure (not (trim name == instance_admins_group)) ApiError.conflict
  group ← Repository.create_group (trim name) description user
  log AuditAction.create group.id group.name user
  pure group

-- `GroupService::delete`
unfoldable pub delete : String → String → Exec (Unit {0})
unfolding log
delete id user = do
  group ← Repository.get_group id
  Repository.delete_group id
  log AuditAction.delete id group.name user

-- `GroupService::add_member`
unfoldable pub add_member : String → String → String → Exec GroupMember
unfolding log
add_member group_id member_id user = do
  ensure (not (trim member_id == "")) ApiError.bad_request
  member ← Repository.add_member group_id (trim member_id) user
  log AuditAction.add_member group_id (trim member_id) user
  pure member

-- `GroupService::remove_member`
unfoldable pub remove_member : String → String → String → Exec (Unit {0})
unfolding log
remove_member group_id member_id user = do
  Repository.remove_member group_id member_id
  log AuditAction.remove_member group_id member_id user
