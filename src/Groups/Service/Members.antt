-- ===== src/Groups/Service/Members.antt =====
-- Adding and removing a member changes that one membership only.
use pdt.Base.{
  String, ◌≡◌, refl, sym, ap, subst, ◌∙◌, inl, inr, Bool, true, false, not, Option, none, some,
  List, [], ◌∷◌, ◌++◌, ◌==◌, ◌&&◌, ◌||◌, eq_iff, any, filter, trim, arith, Bool-cases,
}
use pdt.Model.Error.{ApiError}
use pdt.Model.Group.{Group, GroupMember}
use pdt.Model.Audit.{AuditAction}
use pdt.Model.World.{Store, World}
use pdt.Model.World.Outcome.{Runs-any}
use pdt.Model.World.Keeps.{
  Keeps, Keeps-bind, Keeps-then, Keeps-test, Keeps-pure, Keeps-raise, Keeps-query, Keeps-now,
  Keeps-execute,
}
use pdt.Audit.Repository.Frame as Trail
use pdt.Assets.Rows.{or_not_found}
use pdt.Groups.Repository
use pdt.Groups.Service
use pdt.Groups.Service.Distinguished.{any-filter-kept}

-- Whether a principal is in a group.
abbrev pub is_in : String → String → Store → Bool
is_in group who s = any (Repository.is_membership group who) s.group_members

any-concat {ℓ} :
    {A : Type ℓ} (p : A → Bool) (xs : List A) (x : A)
    → p x ≡ false
    → any p (xs ++ x ∷ []) ≡ any p xs
any-concat p [] x h = rw h refl
any-concat p (y ∷ xs) x h = ap (λ b. p y || b) (any-concat p xs x h)

module _ (group who : String) (b : Bool) where
  abbrev pub Stays : Store → Type 0
  Stays s = is_in group who s ≡ b

  log-Stays :
      (action : AuditAction) (id said user : String) → Keeps Stays (Service.log action id said user)
  unfolding Service.log
  log-Stays action id said user =
      Keeps-then Stays (Trail.create-Runs Stays (λ s es p. p) _ _ _ _ _) (Keeps-pure Stays tt)

  pub insert_member-Stays :
      (m : GroupMember)
      → Repository.is_membership group who m ≡ false
      → (s : Store) → Stays s
      → (u : Unit {0}) (t : Store) → Repository.insert_member m s ≡ some (u, t)
      → Stays t
  unfolding Repository.insert_member
  insert_member-Stays m other s h u t e =
      elim (Bool-cases (any (λ g. g.id == m.group_id) s.groups)) [
        | inr absent ↦ absurd (ground (arith, absent))
        | inl there ↦
            elim (Bool-cases
              (any (λ q. q.group_id == m.group_id && q.member_id == m.member_id) s.group_members)) [
                | inl taken ↦ let same : s ≡ t = ground (arith, there, taken) in subst Stays same h
                | inr free ↦
                    let same : record s { group_members = s.group_members ++ m ∷ [] } ≡ t =
                      ground (arith, there, free) in
                    subst Stays same (any-concat _ s.group_members m other ∙ h)
              ]
      ]

  -- A membership of another pair is not the one removed.
  not_removed :
      (g m : String) (q : GroupMember)
      → (g == group && m == who) ≡ false
      → Repository.is_membership group who q ≡ true
      → not (Repository.is_membership g m q) ≡ true
  unfolding Repository.is_membership
  not_removed g m q other h = elim (Bool-cases (q.group_id == g && q.member_id == m)) [
    | inr differ ↦ rw differ refl
    | inl same ↦
        let group_is = (eq_iff q.group_id group).0 (ground (arith, h)) in
        let who_is = (eq_iff q.member_id who).0 (ground (arith, h)) in
        let g_is = (eq_iff q.group_id g).0 (ground (arith, same)) in
        let m_is = (eq_iff q.member_id m).0 (ground (arith, same)) in
        let first = (eq_iff g group).1 (sym g_is ∙ group_is) in
        let second = (eq_iff m who).1 (sym m_is ∙ who_is) in absurd (ground (arith, first, second))
  ]

  delete_member-Stays :
      (g m : String)
      → (g == group && m == who) ≡ false
      → (s : Store) → Stays s
      → (u : Unit {0}) (t : Store) → Repository.delete_member g m s ≡ some (u, t)
      → Stays t
  unfolding Repository.delete_member
  delete_member-Stays g m other s h u t e =
      let after : Store = record s {
        group_members = filter (λ q. not (Repository.is_membership g m q)) s.group_members;
      } in
      let same : after ≡ t = ground arith in
      subst Stays same
        (any-filter-kept _ _ s.group_members (λ q is. not_removed g m q other is) ∙ h)

  pub or_not_found-Stays : (o : Option Group) → Keeps Stays (or_not_found o)
  unfolding or_not_found
  or_not_found-Stays none = Keeps-raise Stays ApiError.not_found
  or_not_found-Stays (some a) = Keeps-pure Stays a

  add_member-Stays :
      (g m user : String)
      → (g == group && trim m == who) ≡ false
      → Keeps Stays (Service.add_member g m user)
  unfolding Service.add_member Repository.add_member Repository.get_group Repository.is_membership
  add_member-Stays g m user other = Keeps-then Stays (Keeps-test Stays _ _) (
      Keeps-bind Stays
        (Keeps-then Stays (Keeps-bind Stays (Keeps-query Stays _) or_not_found-Stays) (
          Keeps-bind Stays (Keeps-now Stays) λ at.
            Keeps-then Stays (Keeps-execute Stays _ (insert_member-Stays _ other))
              (Keeps-pure Stays _)))
        λ member. Keeps-then Stays (log-Stays _ _ _ _) (Keeps-pure Stays member))

  remove_member-Stays :
      (g m user : String)
      → (g == group && m == who) ≡ false
      → Keeps Stays (Service.remove_member g m user)
  unfolding Service.remove_member Repository.remove_member
  remove_member-Stays g m user other =
      Keeps-then Stays (Keeps-execute Stays _ (delete_member-Stays g m other)) (log-Stays _ _ _ _)

-- Whichever statements fail, adding a member leaves every other principal in each group or out of
-- it, and the principal itself, whose id is trimmed, in or out of every other group.
pub add_member-is_in :
    (w : World) (group who g m user : String)
    → (g == group && trim m == who) ≡ false
    → is_in group who (Service.add_member g m user w).1.state.store ≡ is_in group who w.state.store
add_member-is_in w group who g m user other =
    let b = is_in group who w.state.store in
    Runs-any (λ s. Stays group who b s.store) (add_member-Stays group who b g m user other) w refl

-- Whichever statements fail, removing a member leaves every other principal in each group or out
-- of it, and the principal itself in or out of every other group.
pub remove_member-is_in :
    (w : World) (group who g m user : String)
    → (g == group && m == who) ≡ false
    → is_in group who (Service.remove_member g m user w).1.state.store
      ≡ is_in group who w.state.store
remove_member-is_in w group who g m user other =
    let b = is_in group who w.state.store in
    Runs-any (λ s. Stays group who b s.store) (remove_member-Stays group who b g m user other) w
      refl
