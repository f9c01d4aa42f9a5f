-- ===== src/Cedar/Filter/Bands.antt =====
-- Assets of one band key make one decision, where the key tells their parts apart.
use mathlib.Core.Option
use pdt.Base.{
  ℕ, zero, suc, String, ◌≡◌, refl, sym, ap, ◌∙◌, ◌⊎◌, inl, inr, true, false, none, some, List, [],
  ◌∷◌, Memᴰ, ◌==◌, arith, Bool-cases, lacks,
}
use pdt.Base.Sort
use pdt.Base.Order.{text_lt, sort, Memᴰ-sort}
use pdt.Base.Join.{IsPart, join-injective, join-injective_of_length}
use pdt.Model.Asset.{Asset, AuthContext, Tag}
use pdt.Cedar.Entity.{
  AssetEntity, tag_value, set_attribute, owner_groups_attribute, asset_to_cedar_entity,
}
use pdt.Cedar.Filter.{context_key, or_empty, tag_or_empty, cedar_band_key}

-- The parts of the key.
abbrev parts : Asset → List String
parts a =
    a.created_by
    ∷ (context_key a.auth_context).0
    ∷ (context_key a.auth_context).1
    ∷ (context_key a.auth_context).2
    ∷ tag_or_empty "status" a.tags
    ∷ tag_or_empty "asset_type" a.tags
    ∷ []

-- No part of the key has the separator, no owner group is empty or has a comma, and no tag has an
-- empty value.
pub record IsPlain (a : Asset) : Type 0 where
  pub parts_plain : (x : String) → Memᴰ x (parts a) → lacks 1 x ≡ true
  pub groups_plain :
      (ctx : AuthContext)
      → a.auth_context ≡ some ctx
      → (g : String) → Memᴰ g ctx.owner_groups
      → IsPart 44 g
  pub tags_plain : (t : Tag) → Memᴰ t a.tags → (t.value == "") ≡ false

-- What a decision may read of an entity: no uid, and the groups as a set.
abbrev pub band : AssetEntity → AssetEntity
band e = record e { uid = ""; owner_groups = Option.map (sort (λ g. g)) e.owner_groups }

abbrev nth : ℕ → List String → String
nth n [] = ""
nth zero (x ∷ xs) = x
nth (suc n) (x ∷ xs) = nth n xs

pub key-parts :
    (a b : Asset) → IsPlain a → IsPlain b → cedar_band_key a ≡ cedar_band_key b → parts a ≡ parts b
unfolding cedar_band_key
key-parts a b pa pb e =
    join-injective_of_length 1 _ refl (parts a) (parts b) refl pa.parts_plain pb.parts_plain e

-- A set of groups, sorted, is left out where the set is.
set_attribute-insert :
    (x : String) (ys : List String)
    → set_attribute (Sort.insert text_lt (λ g. g) x ys) ≡ some (Sort.insert text_lt (λ g. g) x ys)
unfolding Sort.insert set_attribute
set_attribute-insert x [] = refl
set_attribute-insert x (y ∷ ys) = ground arith

set_attribute-sort :
    (groups : List String)
    → Option.map (sort (λ g. g)) (set_attribute groups) ≡ set_attribute (sort (λ g. g) groups)
unfolding set_attribute Sort.sort
set_attribute-sort [] = refl
set_attribute-sort (x ∷ groups) = sym (set_attribute-insert x (sort (λ g. g) groups))

-- The first tag of a category has a value that is not empty.
tag_value-cases :
    (category : String) (tags : List Tag)
    → ((t : Tag) → Memᴰ t tags → (t.value == "") ≡ false)
    → (tag_value category tags ≡ none)
      ⊎ ((v : String) × (tag_value category tags ≡ some v) × ((v == "") ≡ false))
unfolding tag_value
tag_value-cases category [] plain = inl refl
tag_value-cases category (t ∷ tags) plain = elim (Bool-cases (t.category == category)) [
  | inl here ↦ inr (t.value, rw here refl, plain t (Memᴰ.head refl))
  | inr there ↦ elim (tag_value-cases category tags (λ q m. plain q (Memᴰ.tail m))) [
    | inl absent ↦ inl (rw there absent)
    | inr (v, found, filled) ↦ inr (v, rw there found, filled)
  ]
]

tag_value-eq :
    (category : String) (a b : Asset)
    → IsPlain a
    → IsPlain b
    → tag_or_empty category a.tags ≡ tag_or_empty category b.tags
    → tag_value category a.tags ≡ tag_value category b.tags
unfolding tag_or_empty
tag_value-eq category a b pa pb e = elim (tag_value-cases category a.tags pa.tags_plain) [
  | inl absent ↦ elim (tag_value-cases category b.tags pb.tags_plain) [
    | inl absent' ↦ absent ∙ sym absent'
    | inr (v, found, filled) ↦
        let same : "" ≡ v = sym (ap or_empty absent) ∙ e ∙ ap or_empty found in
        absurd (cc (ap (λ x. x == "") same, filled))
  ]
  | inr (v, found, filled) ↦ elim (tag_value-cases category b.tags pb.tags_plain) [
    | inl absent' ↦
        let same : v ≡ "" = sym (ap or_empty found) ∙ e ∙ ap or_empty absent' in
        absurd (cc (ap (λ x. x == "") same, filled))
    | inr (v', found', filled') ↦
        let same : v ≡ v' = sym (ap or_empty found) ∙ e ∙ ap or_empty found' in
        found ∙ ap some same ∙ sym found'
  ]
]

module _ (a b : Asset) (pa : IsPlain a) (pb : IsPlain b) (e : parts a ≡ parts b) where
  pub part_at : (n : ℕ) → nth n (parts a) ≡ nth n (parts b)
  part_at n = ap (nth n) e

  groups-eq :
      (ctx ctx' : AuthContext)
      → a.auth_context ≡ some ctx
      → b.auth_context ≡ some ctx'
      → sort (λ g. g) ctx.owner_groups ≡ sort (λ g. g) ctx'.owner_groups
  unfolding context_key
  groups-eq ctx ctx' h h' =
      join-injective 44 _ refl _ _
        (λ g m. pa.groups_plain ctx h g ((Memᴰ-sort (λ x. x) g ctx.owner_groups).0 m))
        (λ g m. pb.groups_plain ctx' h' g ((Memᴰ-sort (λ x. x) g ctx'.owner_groups).0 m))
        (sym (ap (λ c. (context_key c).2) h) ∙ part_at 3 ∙ ap (λ c. (context_key c).2) h')

  -- The entities differ at most in their uids and in the order of their groups.
  pub band-eq :
      (ctx ctx' : AuthContext)
      → a.auth_context ≡ some ctx
      → b.auth_context ≡ some ctx'
      → band (asset_to_cedar_entity a) ≡ band (asset_to_cedar_entity b)
  unfolding asset_to_cedar_entity owner_groups_attribute context_key
  band-eq ctx ctx' h h' =
      let creator : a.created_by ≡ b.created_by = part_at 0 in
      let vis : ctx.visibility ≡ ctx'.visibility =
        sym (ap (λ c. (context_key c).0) h) ∙ part_at 1 ∙ ap (λ c. (context_key c).0) h' in
      let conf : ctx.confidentiality ≡ ctx'.confidentiality =
        sym (ap (λ c. (context_key c).1) h) ∙ part_at 2 ∙ ap (λ c. (context_key c).1) h' in
      let groups : Option.map (sort (λ g. g)) (set_attribute ctx.owner_groups)
          ≡ Option.map (sort (λ g. g)) (set_attribute ctx'.owner_groups) =
        set_attribute-sort ctx.owner_groups
        ∙ ap set_attribute (groups-eq ctx ctx' h h')
        ∙ sym (set_attribute-sort ctx'.owner_groups) in
      let status = tag_value-eq "status" a b pa pb (part_at 4) in
      let type = tag_value-eq "asset_type" a b pa pb (part_at 5) in
      rw (h, h', creator, vis, conf, groups, status, type) refl
