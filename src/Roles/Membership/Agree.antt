-- ===== src/Roles/Membership/Agree.antt =====
-- The two ways to a seat agree.
use mathlib.Core.Option
use pdt.Base.{
  String, ◌≡◌, refl, sym, ap, ◌∙◌, inl, inr, Bool, true, false, not, Option, none, some, List, [],
  ◌∷◌, ◌++◌, ◌==◌, ◌&&◌, ◌||◌, any, find?, Bool-cases, if◌then◌else◌, eq_iff,
}
use pdt.Model.Relation.{Relation}
use pdt.Relations.Graph.{contains}
use pdt.Roles.Membership.{
  MembershipRoleRow, Claims, owns, accesses, relation_role, grant_if, own_rows, access_rows,
  membership_rows, or_none, caller_role, seat_role,
}

module _ (id workspace : String) where
  -- The role that the rows give for the workspace.
  abbrev role_in : List MembershipRoleRow → Option String
  role_in rows = Option.map (λ m. m.role) (find? (λ m. m.workspace_id == workspace) rows)

  abbrev or_else : Option String → Option String → Option String
  or_else none o = o
  or_else (some role) o = some role

  role_in-append :
      (rows : List MembershipRoleRow) (m : MembershipRoleRow)
      → role_in (rows ++ m ∷ [])
        ≡ or_else (role_in rows) (if m.workspace_id == workspace then some m.role else none)
  role_in-append [] m = elim (Bool-cases (m.workspace_id == workspace)) [
    | inl here ↦ rw here refl
    | inr other ↦ rw other refl
  ]
  role_in-append (x ∷ rows) m = elim (Bool-cases (x.workspace_id == workspace)) [
    | inl here ↦ rw here refl
    | inr other ↦ rw other (role_in-append rows m)
  ]

  or_else_assoc : (a b c : Option String) → or_else (or_else a b) c ≡ or_else a (or_else b c)
  or_else_assoc none b c = refl
  or_else_assoc (some role) b c = refl

  or_else-none : (a : Option String) → or_else a none ≡ a
  or_else-none none = refl
  or_else-none (some role) = refl

  abbrev is_some : Option String → Bool
  is_some none = false
  is_some (some role) = true

  is_some-or_else : (a b : Option String) → is_some (or_else a b) ≡ is_some a || is_some b
  is_some-or_else none b = refl
  is_some-or_else (some role) b = refl

  is_some-given :
      (b : Bool) (role : String) (o : Option String)
      → (b || is_some o) ≡ is_some (or_else o (if b then some role else none))
  is_some-given true role none = refl
  is_some-given true role (some x) = refl
  is_some-given false role none = refl
  is_some-given false role (some x) = refl

  by_owner :
      (b : Bool) (o : Option String)
      → or_none (or_else (if b then some "owner" else none) o) ≡ (if b then "owner" else or_none o)
  unfolding or_none
  by_owner true o = refl
  by_owner false o = refl

  -- The workspace is claimed exactly where the rows give a role for it.
  abbrev Claimed : Claims → Type 0
  Claimed c = contains c.claimed workspace ≡ is_some (role_in c.membership)

  abbrev given : Bool → String → Option String
  given b role = if b then some role else none

  grant_if-Claimed :
      (b : Bool) (to role : String) (c : Claims)
      → Claimed c
      → Claimed (grant_if b to role c)
        × (role_in (grant_if b to role c).membership
            ≡ or_else (role_in c.membership) (given (b && to == workspace) role))
  unfolding grant_if contains
  grant_if-Claimed false to role c h = (h, sym (or_else-none (role_in c.membership)))
  grant_if-Claimed true to role c h =
      let e = role_in-append c.membership (record { workspace_id = to; role = role }) in
      (
        ap (λ b. to == workspace || b) h
            ∙ is_some-given (to == workspace) role (role_in c.membership)
            ∙ sym (ap is_some e),
        e,
      )

  owned : Relation → Bool
  owned r = owns id r && r.to_asset_id == workspace

  owner_choice : (a b : Bool) → or_else (given a "owner") (given b "owner") ≡ given (a || b) "owner"
  owner_choice true b = refl
  owner_choice false b = refl

  own_rows-role :
      (rs : List Relation) (c : Claims)
      → Claimed c
      → Claimed (own_rows id rs c)
        × (role_in (own_rows id rs c).membership
            ≡ or_else (role_in c.membership) (given (any owned rs) "owner"))
  unfolding own_rows owned
  own_rows-role [] c h = (h, sym (or_else-none (role_in c.membership)))
  own_rows-role (r ∷ rs) c h =
      let (h1, e1) = grant_if-Claimed (owns id r) r.to_asset_id "owner" c h in
      let (h2, e2) = own_rows-role rs (grant_if (owns id r) r.to_asset_id "owner" c) h1 in
      (
        h2,
        e2
            ∙ ap (λ o. or_else o (given (any owned rs) "owner")) e1
            ∙ or_else_assoc (role_in c.membership) _ _
            ∙ ap (or_else (role_in c.membership)) (owner_choice (owned r) (any owned rs)),
      )

  seated : Relation → Bool
  seated r = accesses id r && r.to_asset_id == workspace

  abbrev seat_in : List Relation → Option String
  seat_in rs = Option.map (λ r. relation_role r.metadata) (find? seated rs)

  seat_in-cons :
      (r : Relation) (rs : List Relation)
      → seat_in (r ∷ rs) ≡ (if seated r then some (relation_role r.metadata) else seat_in rs)
  seat_in-cons r rs = elim (Bool-cases (seated r)) [
    | inl here ↦ rw here refl
    | inr other ↦ rw other refl
  ]

  access_choice :
      (a s k : Bool) (o rest : Option String) (role : String)
      → (s ≡ true → k ≡ is_some o)
      → or_else (or_else o (given ((a && not k) && s) role)) rest
        ≡ or_else o (if a && s then some role else rest)
  access_choice a s k (some x) rest role h = refl
  access_choice false s k none rest role h = refl
  access_choice true false true none rest role h = refl
  access_choice true false false none rest role h = refl
  access_choice true true false none rest role h = refl
  access_choice true true true none rest role h = cc (h refl)

  access_rows-role :
      (rs : List Relation) (c : Claims)
      → Claimed c
      → role_in (access_rows id rs c).membership ≡ or_else (role_in c.membership) (seat_in rs)
  unfolding access_rows seated
  access_rows-role [] c h = sym (or_else-none (role_in c.membership))
  access_rows-role (r ∷ rs) c h =
      let role = relation_role r.metadata in
      let b = accesses id r && not (contains c.claimed r.to_asset_id) in
      let (h1, e1) = grant_if-Claimed b r.to_asset_id role c h in
      access_rows-role rs (grant_if b r.to_asset_id role c) h1
      ∙ ap (λ o. or_else o (seat_in rs)) e1
      ∙ access_choice (accesses id r) (r.to_asset_id == workspace)
          (contains c.claimed r.to_asset_id) (role_in c.membership) (seat_in rs) role
          (λ same. ap (contains c.claimed) ((eq_iff r.to_asset_id workspace).0 same) ∙ h)
      ∙ ap (or_else (role_in c.membership)) (sym (seat_in-cons r rs))

  -- The seat of a principal on a workspace is the same by the membership rows that the roles
  -- service answers and by the look-up in the relations of its asset.
  pub caller_role-seat_role :
      (relations : List Relation)
      → caller_role (membership_rows id relations) workspace ≡ seat_role relations id workspace
  unfolding caller_role membership_rows seat_role contains owned seated
  caller_role-seat_role relations =
      let start : Claims = record { claimed = []; membership = [] } in
      let (h, e) = own_rows-role relations start refl in
      ap or_none (
        access_rows-role relations (own_rows id relations start) h
        ∙ ap (λ o. or_else o (seat_in relations)) e)
      ∙ by_owner (any owned relations) (seat_in relations)
