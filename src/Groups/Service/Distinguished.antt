-- ===== src/Groups/Service/Distinguished.antt =====
-- The distinguished group survives every operation of the service, and only the operations on
-- members change who is in it.
use pdt.Base.{
  ℕ, ◌||◌, String, ◌≡◌, refl, sym, ap, subst, ◌∙◌, inl, inr, Bool, true, not, Option, none, some,
  List, [], ◌∷◌, ◌++◌, ◌==◌, eq_iff, any, filter, find?, arith, Bool-cases,
}
use pdt.Model.Error.{ApiError}
use pdt.Model.Group.{Group, instance_admins_group, instance_admins_group_id}
use pdt.Model.Audit.{AuditAction}
use pdt.Model.World.{Store, World}
use pdt.Model.World.Outcome.{Runs-any}
use pdt.Model.World.Keeps.{
  Keeps, Keeps-bind, Keeps-then, Keeps-ensure, Keeps-test, Keeps-pure, Keeps-raise, Keeps-query,
  Keeps-mint, Keeps-now, Keeps-execute,
}
use pdt.Audit.Repository.Frame as Trail
use pdt.Assets.Rows.{or_not_found}
use pdt.Groups.Repository
use pdt.Groups.Service

-- The name of the distinguished group leads to the row with its stable id.
abbrev pub IsSeeded : Store → Type 0
IsSeeded s =
    (g : Group) × (find? (λ q. q.name == instance_admins_group) s.groups ≡ some g)
    × (g.id ≡ instance_admins_group_id)

-- Whether a principal is a member of the distinguished group.
abbrev pub is_admin : String → Store → Bool
is_admin who s = any (Repository.is_membership instance_admins_group_id who) s.group_members

find?-append {ℓ} :
    {A : Type ℓ} (p : A → Bool) (xs ys : List A) (a : A)
    → find? p xs ≡ some a
    → find? p (xs ++ ys) ≡ some a
find?-append p [] ys a h = cc
find?-append p (x ∷ xs) ys a h = ground (arith, find?-append p xs ys a)

find?-filter {ℓ} :
    {A : Type ℓ} (p q : A → Bool) (xs : List A) (a : A)
    → find? p xs ≡ some a
    → q a ≡ true
    → find? p (filter q xs) ≡ some a
find?-filter p q [] a h k = cc
find?-filter p q (x ∷ xs) a h k = elim (Bool-cases (p x)) [
  | inl here ↦
      let e : x ≡ a = ground (arith, here) in
      let kx : q x ≡ true = subst (λ y. q y ≡ true) (sym e) k in rw (kx, here) (ap some e)
  | inr there ↦ elim (Bool-cases (q x)) [
    | inl kept ↦ rw (kept, there) (find?-filter p q xs a (rw there at h) k)
    | inr dropped ↦ rw dropped (find?-filter p q xs a (rw there at h) k)
  ]
]

-- A filter that keeps every match keeps whether there is one.
pub any-filter-kept {ℓ} :
    {A : Type ℓ} (p q : A → Bool) (xs : List A)
    → ((x : A) → p x ≡ true → q x ≡ true)
    → any p (filter q xs) ≡ any p xs
any-filter-kept p q [] h = refl
any-filter-kept p q (x ∷ xs) h = elim (Bool-cases (q x)) [
  | inl kept ↦ rw kept (ap (λ b. p x || b) (any-filter-kept p q xs h))
  | inr dropped ↦ elim (Bool-cases (p x)) [
    | inl match ↦ absurd (cc (h x match))
    | inr other ↦ rw (dropped, other) (any-filter-kept p q xs h)
  ]
]

-- An id is not another id that leads to the distinguished group.
not_named :
    (id x : String)
    → not (id == instance_admins_group_id) ≡ true
    → x ≡ instance_admins_group_id
    → not (x == id) ≡ true
not_named id x other is = elim (Bool-cases (x == id)) [
  | inl same ↦
      let e : id ≡ instance_admins_group_id = sym ((eq_iff x id).0 same) ∙ is in
      let named = (eq_iff id instance_admins_group_id).1 e in absurd (cc (other, named))
  | inr differ ↦ rw differ refl
]

module _ (who : String) (b : Bool) where
  -- The group is seeded, and `who` is in it or not.
  abbrev pub Seeded : Store → Type 0
  Seeded s = IsSeeded s × (is_admin who s ≡ b)

  log-Keeps :
      (action : AuditAction) (id said user : String)
      → Keeps Seeded (Service.log action id said user)
  unfolding Service.log
  log-Keeps action id said user =
      Keeps-then Seeded (Trail.create-Runs Seeded (λ s es p. p) _ _ _ _ _) (Keeps-pure Seeded tt)

  insert_group-Seeded :
      (g : Group) (s : Store)
      → Seeded s
      → (n : ℕ) (t : Store) → Repository.insert_group g s ≡ some (n, t)
      → Seeded t
  unfolding Repository.insert_group
  insert_group-Seeded g s ((a, found, is), admin) n t e =
      elim (Bool-cases (any (λ q. q.id == g.id || q.name == g.name) s.groups)) [
        | inl taken ↦
            let same : s ≡ t = ground (arith, taken) in subst Seeded same ((a, found, is), admin)
        | inr free ↦
            let same : record s { groups = s.groups ++ g ∷ [] } ≡ t = ground (arith, free) in
            subst Seeded same ((a, find?-append _ s.groups (g ∷ []) a found, is), admin)
      ]

  delete_row-Seeded :
      (id : String)
      → not (id == instance_admins_group_id) ≡ true
      → (s : Store) → Seeded s
      → (n : ℕ) (t : Store) → Repository.delete_row id s ≡ some (n, t)
      → Seeded t
  unfolding Repository.delete_row Repository.is_membership
  delete_row-Seeded id other s ((a, found, is), admin) n t e =
      let after : Store = record s {
        groups = filter (λ g. not (g.id == id)) s.groups;
        group_members = filter (λ m. not (m.group_id == id)) s.group_members;
      } in
      let same : after ≡ t = ground arith in
      subst Seeded same (
        (a, find?-filter _ _ s.groups a found (not_named id a.id other is), is),
        any-filter-kept (Repository.is_membership instance_admins_group_id who) _ s.group_members
              (λ m h. not_named id m.group_id other ((eq_iff _ _).0 (ground (arith, h))))
            ∙ admin,
      )

  or_not_found-Keeps : {A : Type 0} (o : Option A) → Keeps Seeded (or_not_found o)
  unfolding or_not_found
  or_not_found-Keeps none = Keeps-raise Seeded ApiError.not_found
  or_not_found-Keeps (some a) = Keeps-pure Seeded a

  get_group-Keeps : (id : String) → Keeps Seeded (Repository.get_group id)
  unfolding Repository.get_group
  get_group-Keeps id = Keeps-bind Seeded (Keeps-query Seeded _) or_not_found-Keeps

  create_group-Keeps :
      (name description user : String)
      → Keeps Seeded (Repository.create_group name description user)
  unfolding Repository.create_group Repository.get_group_by_name
  create_group-Keeps name description user = Keeps-bind Seeded (Keeps-query Seeded _) λ found.
      Keeps-then Seeded (Keeps-test Seeded _ _) (
        Keeps-bind Seeded (Keeps-mint Seeded) λ id. Keeps-bind Seeded (Keeps-now Seeded) λ at.
          Keeps-bind Seeded (Keeps-execute Seeded _ (insert_group-Seeded _))
            λ affected. Keeps-then Seeded (Keeps-test Seeded _ _) (Keeps-pure Seeded _))

  -- Creating a group neither replaces the distinguished group nor changes who is in it.
  pub create-Keeps :
      (name description user : String) → Keeps Seeded (Service.create name description user)
  unfolding Service.create
  create-Keeps name description user = Keeps-then Seeded (Keeps-test Seeded _ _) (
      Keeps-then Seeded (Keeps-test Seeded _ _) (
        Keeps-bind Seeded (create_group-Keeps _ _ _)
          λ group. Keeps-then Seeded (log-Keeps _ _ _ _) (Keeps-pure Seeded group)))

  delete_group-Keeps : (id : String) → Keeps Seeded (Repository.delete_group id)
  unfolding Repository.delete_group
  delete_group-Keeps id = Keeps-ensure Seeded _ _ λ other.
      Keeps-bind Seeded (Keeps-execute Seeded _ (delete_row-Seeded id other))
        λ affected. Keeps-test Seeded _ _

  -- Deleting a group neither deletes the distinguished group nor changes who is in it.
  pub delete-Keeps : (id user : String) → Keeps Seeded (Service.delete id user)
  unfolding Service.delete
  delete-Keeps id user =
      Keeps-bind Seeded (get_group-Keeps id)
        λ group. Keeps-then Seeded (delete_group-Keeps id) (log-Keeps _ _ _ _)

-- Whichever statements fail, creating and deleting groups leaves the distinguished group in place,
-- under its stable id, and leaves every principal in it or out of it.
pub create-delete-admins :
    (w : World) (who name description user id : String)
    → IsSeeded w.state.store
    → Seeded who (is_admin who w.state.store) (Service.create name description user w).1.state.store
      × Seeded who (is_admin who w.state.store) (Service.delete id user w).1.state.store
create-delete-admins w who name description user id seeded =
    let b = is_admin who w.state.store in
    (
      Runs-any (λ s. Seeded who b s.store) (create-Keeps who b name description user) w
          (seeded, refl),
      Runs-any (λ s. Seeded who b s.store) (delete-Keeps who b id user) w (seeded, refl),
    )
