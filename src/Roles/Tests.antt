-- ===== src/Roles/Tests.antt =====
-- A principal that owns one workspace and has access to it and to another.
use pdt.Base.{ℕ, String, ◌≡◌, Bool, true, false, none, some, List, [], ◌∷◌, ◌==◌}
use pdt.Model.Asset.{Asset, Metadata, Value}
use pdt.Model.World.{World}
use pdt.Model.Sample.{no_rows, world_of, asset_of}
use pdt.Cedar.Entity.{JwtClaims}
use pdt.Roles.Service.{SeatContext, check_membership_permission}
use pdt.Roles.Service.Granted.{Granted, check_membership_permission-Granted}
use pdt.Model.Relation.{Relation, RelationType}
use pdt.Roles.Membership.{membership_rows, caller_role, seat_role}
use pdt.Roles.Membership.Agree.{caller_role-seat_role}

abbrev link : RelationType → String → Metadata → Relation
link type workspace metadata = record {
  id = workspace;
  from_asset_id = "u";
  to_asset_id = workspace;
  relation_type = type;
  metadata = metadata;
  created_at = 0;
  created_by = "u";
}

abbrev relations : List Relation
relations =
    link RelationType.has_access "v" (("role", Value.string "admin") ∷ [])
    ∷ link RelationType.has_access "w" []
    ∷ link RelationType.has_instance "w" []
    ∷ []

caller_role-seat_role_example :
    caller_role (membership_rows "u" relations) "w" ≡ seat_role relations "u" "w"
caller_role-seat_role_example = caller_role-seat_role "u" "w" relations

abbrev world : World
world = world_of (record no_rows { assets = asset_of "u" none ∷ []; relations = relations }) 0 []

abbrev no_char : ℕ → Bool
no_char c = false

abbrev no_match : String → Asset → Bool
no_match expression a = false

abbrev claims : JwtClaims
claims = record { sub = "u"; iss = "i"; preferred_username = none; extra = [] }

abbrev builds : JwtClaims → String → String → SeatContext → Bool
builds c action workspace ctx = true

abbrev is_owner : JwtClaims → String → String → SeatContext → Bool
is_owner c action workspace ctx = ctx.caller_role == "owner"

check_membership_permission-Granted_example :
    Granted no_char no_match builds is_owner claims "ManageMembers" "w" "x" (some "member") world (
      check_membership_permission no_char no_match builds is_owner claims "ManageMembers" "w" "x"
        (some "member")
        world)
check_membership_permission-Granted_example =
    check_membership_permission-Granted no_char no_match builds is_owner claims "ManageMembers" "w"
      "x" (some "member") world
