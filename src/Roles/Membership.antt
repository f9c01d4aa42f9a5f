-- ===== src/Roles/Membership.antt =====
-- The roles of a principal, by the relations of its asset.
pub mod Agree
use pdt.Base.{
  String, Bool, true, false, not, Option, none, some, List, [], ◌∷◌, ◌++◌, ◌==◌, ◌&&◌, any, find?,
  if◌then◌else◌,
}
use mathlib.Core.Option
use pdt.Model.Asset.{Metadata, Value}
use pdt.Model.Relation.{Relation, RelationType}
use pdt.Relations.Graph.{contains}

pub record MembershipRoleRow : Type 0 where
  pub workspace_id : String
  pub role : String

-- `normalize_membership_role`
unfoldable pub normalize_membership_role : Option String → String
normalize_membership_role none = "member"
normalize_membership_role (some raw) =
    if raw == "owner"
    then "owner"
    else if raw == "ws_admin"
    then "ws_admin"
    else if raw == "admin"
    then "ws_admin"
    else "member"

-- `v.as_str()` of a value that may be absent
unfoldable pub as_str : Option Value → Option String
as_str (some (Value.string s)) = some s
as_str other = none

-- The role that a relation carries.
unfoldable pub relation_role : Metadata → String
unfolding normalize_membership_role as_str
relation_role metadata =
    normalize_membership_role (as_str (Option.map (λ e. e.1) (find? (λ e. e.0 == "role") metadata)))

unfoldable pub is_has_instance : RelationType → Bool
is_has_instance RelationType.has_instance = true
is_has_instance other = false

unfoldable pub is_has_access : RelationType → Bool
is_has_access RelationType.has_access = true
is_has_access other = false

-- `r.from_asset_id == id && r.relation_type == …`
unfoldable pub owns : String → Relation → Bool
unfolding is_has_instance
owns id r = r.from_asset_id == id && is_has_instance r.relation_type

unfoldable pub accesses : String → Relation → Bool
unfolding is_has_access
accesses id r = r.from_asset_id == id && is_has_access r.relation_type

-- The variables of the two loops.
pub record Claims : Type 0 where
  pub claimed : List String
  pub membership : List MembershipRoleRow

-- `claimed.insert(…); membership.push(…)`, where the test holds
unfoldable pub grant_if : Bool → String → String → Claims → Claims
grant_if false workspace role c = c
grant_if true workspace role c = record {
  claimed = workspace ∷ c.claimed;
  membership = c.membership ++ record { workspace_id = workspace; role = role } ∷ [];
}

-- The loop over the ownership relations.
unfoldable pub own_rows : String → List Relation → Claims → Claims
own_rows id [] c = c
own_rows id (r ∷ rs) c = own_rows id rs (grant_if (owns id r) r.to_asset_id "owner" c)

-- The loop over the access relations: a workspace that is claimed is passed over.
unfoldable pub access_rows : String → List Relation → Claims → Claims
access_rows id [] c = c
access_rows id (r ∷ rs) c = access_rows id rs (
    grant_if (accesses id r && not (contains c.claimed r.to_asset_id)) r.to_asset_id
      (relation_role r.metadata) c)

-- The membership rows that `RolesService::resolve` answers for the asset of a principal.
unfoldable pub membership_rows : String → List Relation → List MembershipRoleRow
membership_rows id relations =
    let owned = own_rows id relations (record { claimed = []; membership = [] }) in
    let all = access_rows id relations owned in all.membership

unfoldable pub or_none : Option String → String
or_none none = "none"
or_none (some role) = role

-- `caller_role` of `check_membership_permission`
unfoldable pub caller_role : List MembershipRoleRow → String → String
caller_role membership workspace =
    or_none (Option.map (λ m. m.role) (find? (λ m. m.workspace_id == workspace) membership))

-- `resolve_seat_role_by_asset`, on the relations that it reads
unfoldable pub seat_role : List Relation → String → String → String
seat_role relations id workspace =
    if any (λ r. owns id r && r.to_asset_id == workspace) relations
    then "owner"
    else or_none (
        Option.map (λ r. relation_role r.metadata)
          (find? (λ r. accesses id r && r.to_asset_id == workspace) relations))
