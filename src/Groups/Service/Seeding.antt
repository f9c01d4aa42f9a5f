-- ===== src/Groups/Service/Seeding.antt =====
-- The seed of the instance's admins touches the memberships of the listed principals only.
use pdt.Base.{
  String, ◌≡◌, refl, Bool, false, Option, none, some, List, [], ◌∷◌, ◌==◌, ◌||◌, any, trim, arith,
  Bool-cases, inl, inr,
}
use pdt.Model.Error.{ApiError}
use pdt.Model.Group.{Group}
use pdt.Model.World.{World, for_each}
use pdt.Model.World.Outcome.{Runs-any}
use pdt.Model.World.Keeps.{
  Keeps, Keeps-bind, Keeps-then, Keeps-pure, Keeps-raise, Keeps-query, Keeps-now, Keeps-execute,
  Keeps-try,
}
use pdt.Audit.Repository.Frame as Trail
use pdt.Groups.Repository
use pdt.Groups.Service
use pdt.Groups.Service.Members.{is_in, Stays, insert_member-Stays, or_not_found-Stays}

module _ (group who : String) (b : Bool) where
  or_internal-Stays : (o : Option Group) → Keeps (Stays group who b) (Service.or_internal o)
  unfolding Service.or_internal
  or_internal-Stays none = Keeps-raise (Stays group who b) ApiError.internal
  or_internal-Stays (some g) = Keeps-pure (Stays group who b) g

  insert-Stays :
      (g m actor : String)
      → (m == who) ≡ false
      → Keeps (Stays group who b) (Repository.add_member g m actor)
  unfolding Repository.add_member Repository.get_group Repository.is_membership
  insert-Stays g m actor other =
      let P = Stays group who b in
      Keeps-then P (Keeps-bind P (Keeps-query P _) (or_not_found-Stays group who b)) (
        Keeps-bind P (Keeps-now P) λ at.
          Keeps-then P
            (Keeps-execute P _ (insert_member-Stays group who b _ (ground (arith, other))))
            (Keeps-pure P _))

  seed_one-Stays :
      (g : String) (existing : List String) (actor sub : String)
      → (trim sub == who) ≡ false
      → Keeps (Stays group who b) (Service.seed_one g existing actor sub)
  unfolding Service.seed_one
  seed_one-Stays g existing actor sub other =
      let P = Stays group who b in
      elim (Bool-cases (trim sub == "" || any (λ m. m == trim sub) existing)) [
        | inl skip ↦ rw skip (Keeps-pure P tt)
        | inr fresh ↦ rw fresh (
            Keeps-try P (
              Keeps-then P (insert-Stays g (trim sub) actor other)
                (Keeps-try P (Trail.create-Runs P (λ s es p. p) _ _ _ _ _))))
      ]

  seed_all-Stays :
      (g : String) (existing : List String) (actor : String) (subs : List String)
      → any (λ sub. trim sub == who) subs ≡ false
      → Keeps (Stays group who b) (for_each (Service.seed_one g existing actor) subs)
  unfolding for_each
  seed_all-Stays g existing actor [] h = Keeps-pure (Stays group who b) tt
  seed_all-Stays g existing actor (sub ∷ subs) h =
      Keeps-then (Stays group who b) (seed_one-Stays g existing actor sub (ground (arith, h)))
        (seed_all-Stays g existing actor subs (ground (arith, h)))

  seed_instance_admins-Stays :
      (subs : List String) (actor : String)
      → any (λ sub. trim sub == who) subs ≡ false
      → Keeps (Stays group who b) (Service.seed_instance_admins subs actor)
  unfolding Service.seed_instance_admins Repository.get_group_by_name Repository.list_members
      Repository.get_group
  seed_instance_admins-Stays [] actor h = Keeps-pure (Stays group who b) tt
  seed_instance_admins-Stays (sub ∷ subs) actor h =
      let P = Stays group who b in
      Keeps-bind P (Keeps-query P _) λ found. Keeps-bind P (or_internal-Stays found) λ g.
        Keeps-bind P
          (Keeps-then P (Keeps-bind P (Keeps-query P _) (or_not_found-Stays group who b))
            (Keeps-query P _))
          λ members. seed_all-Stays g.id _ actor (sub ∷ subs) h

-- Whichever statements fail, the seed of the instance's admins leaves every principal that is not
-- among the trimmed subs in each group or out of it.
pub seed_instance_admins-is_in :
    (w : World) (group who actor : String) (subs : List String)
    → any (λ sub. trim sub == who) subs ≡ false
    → is_in group who (Service.seed_instance_admins subs actor w).1.state.store
      ≡ is_in group who w.state.store
seed_instance_admins-is_in w group who actor subs h =
    let b = is_in group who w.state.store in
    Runs-any (λ s. Stays group who b s.store) (seed_instance_admins-Stays group who b subs actor h)
      w refl
