-- ===== src/Groups/Repository.antt =====
-- src/repository/sqlite_group_repository.rs: the statements on `groups` and `group_members`.
use pdt.Base.{
  ℕ, String, Bool, true, false, not, Option, none, some, List, [], ◌∷◌, ◌++◌, ◌==◌, ◌&&◌, ◌||◌, any,
  filter, find?, map, length, eqb, ltb, if◌then◌else◌,
}
use pdt.Base.Sort as Sort
use pdt.Base.Order.{sort}
use pdt.Model.Error.{ApiError}
use pdt.Model.Group.{Group, GroupMember, instance_admins_group, instance_admins_group_id}
use pdt.Model.World.{Store, Exec, pure, query, execute, ensure, mint, now, ◌>>=◌, ◌>>◌}
use pdt.Assets.Rows.{or_not_found}

-- `SELECT … FROM groups WHERE name = ?`
unfoldable pub get_group_by_name : String → Exec (Option Group)
get_group_by_name name = query λ s. find? (λ g. g.name == name) s.groups

-- `INSERT OR IGNORE INTO groups`, with `rows_affected`: the id and the name are unique.
unfoldable pub insert_group : Group → Store → Option (ℕ × Store)
insert_group g s =
    if any (λ q. q.id == g.id || q.name == g.name) s.groups
    then some (0, s)
    else some (1, record s { groups = s.groups ++ g ∷ [] })

unfoldable pub is_none : {A : Type 0} → Option A → Bool
is_none none = true
is_none (some a) = false

unfoldable pub create_group : String → String → String → Exec Group
unfolding insert_group get_group_by_name is_none
create_group name description user_id = do
  found ← get_group_by_name name
  ensure (is_none found) ApiError.conflict
  id ← mint
  at ← now
  let group : Group = record {
    id = id;
    name = name;
    description = description;
    created_at = at;
    created_by = user_id;
  }
  affected ← execute (insert_group group)
  ensure (not (eqb affected 0)) ApiError.conflict
  pure group

unfoldable pub get_group : String → Exec Group
get_group id = do found ← query λ s. find? (λ g. g.id == id) s.groups; or_not_found found

-- `ORDER BY name`
unfoldable pub list_groups : Exec (List Group)
list_groups = query λ s. sort (λ g. g.name) s.groups

-- `DELETE FROM groups WHERE id = ?`, with `rows_affected`; its members go with the group.
unfoldable pub delete_row : String → Store → Option (ℕ × Store)
delete_row id s = some (
  length (filter (λ g. g.id == id) s.groups),
  record s {
    groups = filter (λ g. not (g.id == id)) s.groups;
    group_members = filter (λ m. not (m.group_id == id)) s.group_members;
  },
)

unfoldable pub delete_group : String → Exec (Unit {0})
unfolding delete_row
delete_group id = do
  ensure (not (id == instance_admins_group_id)) ApiError.bad_request
  affected ← execute (delete_row id)
  ensure (not (eqb affected 0)) ApiError.not_found

-- `INSERT OR IGNORE INTO group_members`: the pair is unique, and the group exists.
unfoldable pub insert_member : GroupMember → Store → Option (Unit {0} × Store)
insert_member m s =
    if not (any (λ g. g.id == m.group_id) s.groups)
    then none
    else if any (λ q. q.group_id == m.group_id && q.member_id == m.member_id) s.group_members
    then some (tt, s)
    else some (tt, record s { group_members = s.group_members ++ m ∷ [] })

unfoldable pub add_member : String → String → String → Exec GroupMember
unfolding get_group insert_member
add_member group_id member_id user_id = do
  get_group group_id
  at ← now
  let member : GroupMember = record {
    group_id = group_id;
    member_id = member_id;
    added_by = user_id;
    added_at = at;
  }
  execute (insert_member member)
  pure member

unfoldable pub is_membership : String → String → GroupMember → Bool
is_membership group_id member_id m = m.group_id == group_id && m.member_id == member_id

unfoldable pub delete_member : String → String → Store → Option (Unit {0} × Store)
unfolding is_membership
delete_member group_id member_id s = some (
  tt,
  record s {
    group_members = filter (λ m. not (is_membership group_id member_id m)) s.group_members;
  },
)

unfoldable pub remove_member : String → String → Exec (Unit {0})
unfolding delete_member
remove_member group_id member_id = execute (delete_member group_id member_id)

-- `list_members`: `ORDER BY added_at`
unfoldable pub list_members : String → Exec (List GroupMember)
unfolding get_group
list_members group_id = do
  get_group group_id
  query λ s. Sort.sort ltb (λ m. m.added_at) (filter (λ m. m.group_id == group_id) s.group_members)

-- The names of the groups that the principal is a member of, `ORDER BY g.name`
unfoldable pub memberships_for : String → Exec (List String)
memberships_for member_id = query λ s.
    map (λ g. g.name)
      (sort (λ g. g.name)
        (filter (λ g. any (λ m. m.group_id == g.id && m.member_id == member_id) s.group_members)
          s.groups))

unfoldable pub member_row : Option Group → String → Exec Bool
unfolding is_membership
member_row none member_id = pure false
member_row (some group) member_id =
    query λ s. any (is_membership group.id member_id) s.group_members

unfoldable pub is_instance_admin : String → Exec Bool
unfolding get_group_by_name member_row
is_instance_admin member_id = do
  group ← get_group_by_name instance_admins_group
  member_row group member_id
