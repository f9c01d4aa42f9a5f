-- ===== src/Cedar/Tests.antt =====
-- Requests of two callers for two assets, under a policy that opens public assets.
use mathlib.Core.List.Memᴰ
use pdt.Base.{
  String, ◌≡◌, refl, sym, subst, inl, inr, Bool, true, false, ◌&&◌, none, some, List, [], ◌∷◌, ◌==◌,
  Memᴰ, Memᴰ-cons, lacks, arith,
}
use pdt.Base.Sort.{sort, insert}
use pdt.Base.Join.{IsPart}
use pdt.Model.Asset.{Asset, AuthContext}
use pdt.Model.World.{Store, World, mint, now, execute, pure, attempt}
use pdt.Audit.Repository.{create, insert_entry}
use pdt.Model.Sample.{no_rows, world_of, asset_of}
use pdt.Cedar.Entity.{JwtClaims, AssetEntity, PrincipalEntity, tag_value}
use pdt.Cedar.Filter.{
  should_enforce_cedar, filter_by_permission, filter_by_permission_batched, context_key,
  tag_or_empty,
}
use pdt.Cedar.Filter.Bands.{IsPlain}
use pdt.Cedar.Filter.Equivalent.{ReadsBands, BuildsAlike, filter_by_permission_batched-eq}
use pdt.Cedar.Resolved.{
  ResolvedAuthz, check_branch, audit_admin_bypass, resolve_instance_authz,
  check_permission_resolved,
}
use pdt.Cedar.Resolved.Bypass.{IsResolved, resolve_instance_authz-IsResolved}
use pdt.Cedar.Resolved.Audited.{Grant, check_permission_resolved-Grant}

abbrev is_public : PrincipalEntity → String → AssetEntity → Bool
is_public p action e = elim e.visibility [ none ↦ false | some v ↦ v == "public" ]

abbrev builds : JwtClaims → Bool
builds c = true

abbrev builds_all : JwtClaims → String → String → Bool
builds_all c action id = true

abbrev parses : String → Bool
parses s = true

abbrev caller : JwtClaims
caller = record { sub = "u"; iss = "i"; preferred_username = none; extra = [] }

abbrev public_context : AuthContext
public_context = record { visibility = "public"; owner_groups = "g" ∷ []; confidentiality = "low" }

abbrev public_asset : Asset
public_asset = asset_of "p" (some public_context)

abbrev assets : List Asset
assets = public_asset ∷ public_asset ∷ []

public-ReadsBands : ReadsBands builds builds_all builds_all parses is_public
public-ReadsBands = record { reads_bands = λ p action e. refl }

all-BuildsAlike : BuildsAlike builds builds_all builds_all parses is_public caller "View" assets
all-BuildsAlike = record { alike = λ a b ma mb on on' e. (refl, refl) }

abbrev all : {A : Type 0} → (A → Bool) → List A → Bool
all p [] = true
all p (x ∷ xs) = p x && all p xs

Memᴰ-all :
    {A : Type 0} (p : A → Bool) (xs : List A) → all p xs ≡ true → (x : A) → Memᴰ x xs → p x ≡ true
Memᴰ-all p [] h x m = absurd (Memᴰ.not-nil m)
Memᴰ-all p (y ∷ xs) h x m = elim ((Memᴰ-cons x y xs).0 m) [
  | inl e ↦ subst (λ z. p z ≡ true) (sym e) (ground arith)
  | inr there ↦ Memᴰ-all p xs (ground arith) x there
]

one_group : (g : String) → Memᴰ g ("g" ∷ []) → IsPart 44 g
one_group g m = subst (IsPart 44) (sym (Memᴰ.eq_of_singleton m)) (refl, λ e. cc e)

some_injective : {A : Type 0} {a b : A} → some a ≡ some b → a ≡ b
some_injective e = cc e

public-IsPlain : IsPlain public_asset
unfolding context_key tag_or_empty tag_value sort insert
public-IsPlain = record {
  parts_plain = Memᴰ-all (lacks 1) _ refl;
  groups_plain =
      λ ctx e g m. one_group g (subst (λ c. Memᴰ g c.owner_groups) (sym (some_injective e)) m);
  tags_plain = λ t m. absurd (Memᴰ.not-nil m);
}

assets-IsPlain : (a : Asset) → Memᴰ a assets → IsPlain a
assets-IsPlain a m = elim ((Memᴰ-cons a public_asset (public_asset ∷ [])).0 m) [
  | inl e ↦ subst IsPlain (sym e) public-IsPlain
  | inr last ↦ subst IsPlain (sym (Memᴰ.eq_of_singleton last)) public-IsPlain
]

filter_by_permission_batched-eq_example :
    filter_by_permission_batched builds builds_all builds_all parses is_public caller [] "View"
      assets
    ≡ filter_by_permission builds builds_all builds_all parses is_public caller [] "View" assets
filter_by_permission_batched-eq_example =
    filter_by_permission_batched-eq builds builds_all builds_all parses is_public public-ReadsBands
      caller [] "View" assets all-BuildsAlike assets-IsPlain

abbrev store : Store
store = record no_rows { assets = assets }

abbrev world : World
world = world_of store 7 []

abbrev as_admin : ResolvedAuthz
as_admin = record { effective_groups = []; admin_bypass = true }

resolve_instance_authz-IsResolved_example :
    IsResolved caller world (resolve_instance_authz caller world)
resolve_instance_authz-IsResolved_example = resolve_instance_authz-IsResolved caller world

check_permission_resolved-Grant_example :
    Grant builds builds_all builds_all parses is_public caller as_admin
      (some "i")
      "View"
      world
      public_asset
      (check_permission_resolved builds builds_all builds_all parses is_public caller as_admin
        (some "i")
        "View"
        public_asset
        world).1.state
unfolding should_enforce_cedar check_permission_resolved check_branch audit_admin_bypass create mint
    now execute insert_entry pure attempt
check_permission_resolved-Grant_example =
    check_permission_resolved-Grant builds builds_all builds_all parses is_public caller as_admin
      (some "i") "View" world public_asset refl refl
