-- ===== src/Cedar/Entity.antt =====
-- src/cedar/entity.rs: the Cedar entities of an asset and of a caller.
use pdt.Base.{
  ℕ, zero, suc, String, Bool, Option, none, some, List, [], ◌∷◌, ◌++◌, ◌==◌, find?, length,
  if◌then◌else◌, codes, concat, strip_prefix?, before_char,
}
use pdt.Base.Order.{sort}
use mathlib.Core.Option
use pdt.Model.Asset.{Asset, AuthContext, Tag, Metadata, Value, Items}

-- The claims of a token, of those that the program reads.
pub record JwtClaims : Type 0 where
  pub sub : String
  pub iss : String
  pub preferred_username : Option String
  pub extra : Metadata

-- The attributes of a resource. `created_by` is the set of one creator; an attribute that is not
-- there is `none`.
pub record AssetEntity : Type 0 where
  pub uid : String
  pub created_by : String
  pub visibility : Option String
  pub confidentiality : Option String
  pub owner_groups : Option (List String)
  pub status : Option String
  pub asset_type : Option String

-- The attributes of a principal. `sub` is `none` where pep builds no base entity.
pub record PrincipalEntity : Type 0 where
  pub role : Option String
  pub groups : Option (List String)
  pub sub : Option String
  pub spn : Option String

-- The value of the first tag of a category.
unfoldable pub tag_value : String → List Tag → Option String
tag_value category tags = Option.map (λ t. t.value) (find? (λ t. t.category == category) tags)

-- A set attribute is left out where it would be empty.
unfoldable pub set_attribute : List String → Option (List String)
set_attribute [] = none
set_attribute (g ∷ groups) = some (g ∷ groups)

unfoldable pub owner_groups_attribute : Option AuthContext → Option (List String)
unfolding set_attribute
owner_groups_attribute none = none
owner_groups_attribute (some ctx) = set_attribute ctx.owner_groups

-- `asset_to_cedar_entity`, where the creator makes a uid
unfoldable pub asset_to_cedar_entity : Asset → AssetEntity
unfolding tag_value owner_groups_attribute
asset_to_cedar_entity asset = record {
  uid = asset.id;
  created_by = asset.created_by;
  visibility = Option.map (λ ctx. ctx.visibility) asset.auth_context;
  confidentiality = Option.map (λ ctx. ctx.confidentiality) asset.auth_context;
  owner_groups = owner_groups_attribute asset.auth_context;
  status = tag_value "status" asset.tags;
  asset_type = tag_value "asset_type" asset.tags;
}

-- A claim of the token by its name.
unfoldable pub claim : String → Metadata → Option Value
claim name extra = Option.map (λ e. e.1) (find? (λ e. e.0 == name) extra)

-- The texts among the items of an array.
unfoldable pub texts : Items → List String
texts Items.nil = []
texts (Items.cons (Value.string s) rest) = s ∷ texts rest
texts (Items.cons Value.null rest) = texts rest
texts (Items.cons (Value.bool b) rest) = texts rest
texts (Items.cons (Value.number n) rest) = texts rest
texts (Items.cons (Value.array items) rest) = texts rest
texts (Items.cons (Value.object fields) rest) = texts rest

-- The groups claim: the texts of an array, and nothing else.
unfoldable pub claim_groups : Option Value → List String
unfolding texts
claim_groups (some (Value.array items)) = texts items
claim_groups other = []

unfoldable pub head? : List String → Option String
head? [] = none
head? (x ∷ xs) = some x

-- The role claim: a text, or the first text of an array.
unfoldable pub claim_role : Option Value → Option String
unfolding texts head?
claim_role (some (Value.string s)) = some s
claim_role (some (Value.array items)) = head? (texts items)
claim_role other = none

-- `Vec::dedup`, which keeps one of each run of equal elements
unfoldable pub dedup : List String → List String
dedup [] = []
dedup (x ∷ []) = x ∷ []
dedup (x ∷ y ∷ xs) = let rest = dedup (y ∷ xs) in if x == y then rest else x ∷ rest

-- The union of the groups of the token and of the store, sorted, each once.
unfoldable pub merge_groups : Metadata → List String → List String
unfolding claim claim_groups dedup
merge_groups extra pdt_groups =
    dedup (sort (λ g. g) (claim_groups (claim "groups" extra) ++ pdt_groups))

-- `trim_start_matches`, on fuel: each round takes the prefix off.
unfoldable pub trim_start_matches : ℕ → String → String → String
trim_start_matches zero prefix s = s
trim_start_matches (suc fuel) prefix s = elim (strip_prefix? prefix s) [
  | none ↦ s
  | some rest ↦ trim_start_matches fuel prefix rest
]

-- The domain of the issuer: without its scheme, up to the first slash.
unfoldable pub issuer_domain : String → String
unfolding trim_start_matches
issuer_domain iss =
    let secure = trim_start_matches (length (codes iss)) "https://" iss in
    before_char 47 (trim_start_matches (length (codes secure)) "http://" secure)

unfoldable pub spn : Option String → String → Option String
unfolding issuer_domain
spn none iss = none
spn (some username) iss =
    let domain = issuer_domain iss in
    if domain == "" then none else some (concat username (concat "@" domain))

-- pep's own builder of a principal is not code of this repository: it builds or fails.
module _ (build_principal_entity : JwtClaims → Bool) where
  -- `user_to_cedar_principal_with_groups`
  unfoldable pub user_to_cedar_principal_with_groups : JwtClaims → List String → PrincipalEntity
  unfolding claim claim_role merge_groups set_attribute spn
  user_to_cedar_principal_with_groups claims pdt_groups =
      if build_principal_entity claims
      then record {
        role = claim_role (claim "role" claims.extra);
        groups = set_attribute (merge_groups claims.extra pdt_groups);
        sub = some claims.sub;
        spn = spn claims.preferred_username claims.iss;
      }
      else record { role = none; groups = none; sub = none; spn = none }
