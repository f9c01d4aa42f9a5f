-- ===== src/Roles/Service.antt =====
-- `RolesService::resolve` of src/service/roles_service.rs, and the check of the writes of seats,
-- `check_membership_permission` of src/cedar/enforcement.rs.
pub mod Resolved
pub mod Granted
use mathlib.Core.Option
use pdt.Base.{
  ℕ, String, Bool, true, false, not, Option, none, some, List, [], ◌∷◌, ◌==◌, ◌&&◌, if◌then◌else◌,
}
use pdt.Model.Error.{ApiError, Result, ok, err, panic}
use pdt.Model.Asset.{Asset, Tag}
use pdt.Model.World.{Exec, pure, ensure, ◌>>=◌, ◌>>◌}
use pdt.Assets.Rows
use pdt.Assets.Search.{search}
use pdt.Relations.Repository as Links
use pdt.Cedar.Entity.{JwtClaims, tag_value}
use pdt.Cedar.Resolved.{recover}
use pdt.Roles.Membership.{MembershipRoleRow, membership_rows, caller_role, seat_role}

pub record RoleAnswer : Type 0 where
  pub sub : String
  pub global_role : String
  pub membership : List MembershipRoleRow

-- `ApiError::NotFound` means that there is none; the other errors go on.
unfoldable pub absent : Result Asset → Result (Option Asset)
absent (ok a) = ok (some a)
absent (err ApiError.not_found) = ok none
absent (err ApiError.bad_request) = err ApiError.bad_request
absent (err ApiError.unauthorized) = err ApiError.unauthorized
absent (err ApiError.forbidden) = err ApiError.forbidden
absent (err ApiError.conflict) = err ApiError.conflict
absent (err ApiError.internal) = err ApiError.internal
absent (err ApiError.database) = err ApiError.database
absent (err ApiError.bson_oid) = err ApiError.bson_oid
absent (err ApiError.validation) = err ApiError.validation
absent (err ApiError.auth_degraded) = err ApiError.auth_degraded
absent panic = panic

unfoldable pub or_absent : Exec Asset → Exec (Option Asset)
unfolding absent
or_absent m w = let (r, w') = m w in (absent r, w')

-- The asset with the tag, or else the one whose id is the sub.
unfoldable pub found_or_by_id : String → List Asset → Exec (Option Asset)
unfolding or_absent
found_or_by_id sub [] = or_absent (Rows.get_by_id sub)
found_or_by_id sub (a ∷ page) = pure (some a)

unfoldable pub or_user : Option String → String
or_user none = "user"
or_user (some role) = role

-- The role that the tags of a principal give, by default the least.
unfoldable pub global_role : List Tag → String
unfolding or_user tag_value
global_role tags = or_user (tag_value "global_role" tags)

-- The answer for a principal, or for a sub without one.
unfoldable pub answer_for : String → Option Asset → Exec RoleAnswer
unfolding global_role
answer_for sub none = pure (record { sub = sub; global_role = "user"; membership = [] })
answer_for sub (some asset) = do
  relations ← Links.get_asset_relations asset.id
  pure (record {
    sub = sub;
    global_role = global_role asset.tags;
    membership = membership_rows asset.id relations;
  })

-- What the decision on a write of a seat reads besides the principal, the action and the workspace.
pub record SeatContext : Type 0 where
  pub caller_role : String
  pub target_seat_role : String
  pub requested_role : Option String

-- `resolve_seat_role_by_asset`, before a failure makes it "none"
unfoldable pub seat_of : String → String → Exec String
seat_of asset workspace = do
  relations ← Links.get_asset_relations asset
  pure (seat_role relations asset workspace)

module _ (is_alphanumeric : ℕ → Bool) (fts_match : String → Asset → Bool) where
  -- `find_principal`
  unfoldable pub find_principal : String → Exec (Option Asset)
  unfolding found_or_by_id
  find_principal sub = do
    (page, next) ← search is_alphanumeric fts_match none (("sub", sub) ∷ []) 1 none
    found_or_by_id sub page

  -- `RolesService::resolve`
  unfoldable pub resolve : String → Exec RoleAnswer
  unfolding find_principal answer_for
  resolve sub = do
    ensure (not (sub == "")) ApiError.bad_request
    principal ← find_principal sub
    answer_for sub principal

  -- The seat of the caller on the workspace, before a failure makes it "none".
  unfoldable pub seat_on : String → String → Exec String
  unfolding resolve
  seat_on sub workspace = do answer ← resolve sub; pure (caller_role answer.membership workspace)

  -- `check_membership_permission`: whether the uids, the context and the request are built, and
  -- the decision on them, are pep's and Cedar's to say.
  unfoldable pub check_membership_permission :
      (JwtClaims → String → String → SeatContext → Bool)
      → (JwtClaims → String → String → SeatContext → Bool)
      → JwtClaims
      → String
      → String
      → String
      → Option String
      → Exec (Unit {0})
  unfolding seat_on seat_of recover
  check_membership_permission builds is_allowed claims action workspace target requested = do
    caller ← recover (seat_on claims.sub workspace) "none"
    seat ← recover (seat_of target workspace) "none"
    let ctx : SeatContext = record {
      caller_role = caller;
      target_seat_role = seat;
      requested_role = requested;
    }
    ensure (builds claims action workspace ctx && is_allowed claims action workspace ctx)
        ApiError.forbidden
