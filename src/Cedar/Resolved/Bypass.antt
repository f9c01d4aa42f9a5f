-- ===== src/Cedar/Resolved/Bypass.antt =====
-- A bypass is granted to members of the distinguished group only, and leaves an entry in the trail.
use pdt.Base.{
  String, ◌≡◌, refl, sym, ap, subst, Bool-cases, ◌⊎◌, inl, inr, ⊎_elim, Bool, true, false, Option,
  none, some, List, [], ◌==◌, ◌&&◌, any, find?, filter, map,
}
use pdt.Base.Order.{sort}
use pdt.Model.Error.{Result, ok}
use pdt.Model.Group.{Group, instance_admins_group}
use pdt.Model.World.{Store, State, World, Exec, pure, ◌>>=◌, continue}
use pdt.Model.World.Read.{
  Read, Returns, answers, fails, Answered, may_fail, query-Returns, pure-Returns, bind-Returns,
}
use pdt.Groups.Repository
use pdt.Cedar.Entity.{JwtClaims, merge_groups}
use pdt.Cedar.Resolved.{ResolvedAuthz, recover_from, recover, resolve_instance_authz}

-- Whether a principal has a row in the group with the distinguished name.
abbrev pub in_admins : String → Store → Bool
in_admins who s = elim (find? (λ g. g.name == instance_admins_group) s.groups) [
  | none ↦ false
  | some g ↦ any (Repository.is_membership g.id who) s.group_members
]

-- The names of the principal's groups.
abbrev pub group_names : String → Store → List String
group_names who s =
    map (λ g. g.name)
      (sort (λ g. g.name)
        (filter (λ g. any (λ m. m.group_id == g.id && m.member_id == who) s.group_members)
          s.groups))

member_row-Returns :
    (who : String) (σ : State) (o : Option Group)
    → Returns σ
        (elim o [ none ↦ false | some g ↦ any (Repository.is_membership g.id who) σ.group_members ])
        (Repository.member_row o who)
unfolding Repository.member_row
member_row-Returns who σ none = pure-Returns σ false
member_row-Returns who σ (some g) = query-Returns σ _

is_instance_admin-Returns :
    (who : String) (σ : State)
    → Returns σ (in_admins who σ.store) (Repository.is_instance_admin who)
unfolding Repository.is_instance_admin Repository.get_group_by_name
is_instance_admin-Returns who σ =
    bind-Returns σ _ _ (λ o. Repository.member_row o who) (member_row-Returns who σ _)
      (query-Returns σ _)

memberships_for-Returns :
    (who : String) (σ : State)
    → Returns σ (group_names who σ.store) (Repository.memberships_for who)
unfolding Repository.memberships_for
memberships_for-Returns who σ = query-Returns σ _

-- What a recovered read answers: the default only where a failure was ahead.
pub data Recovered {A : Type 0} (faulty : Type 0) (σ : State) (v d : A)
    : Result A × World → Type 0 where
  recovered :
      (a : A) (w : World)
      → (a ≡ v) ⊎ ((a ≡ d) × faulty)
      → w.state ≡ σ
      → (may_fail w.faults ≡ true → faulty)
      → Recovered faulty σ v d (ok a, w)

module _ {A : Type 0} (faulty : Type 0) (σ : State) (v d : A) where
  recover_read :
      (r : Result A × World)
      → faulty
      → Read σ v r
      → Recovered faulty σ v d (recover_from r.0 d, r.1)
  unfolding recover_from
  recover_read r f (answers w e) = recovered v w (inl refl) e (λ h. f)
  recover_read r f (fails x w e) = recovered d w (inr (refl, f)) e (λ h. f)

  recover_answer :
      (r : Result A × World) → Answered σ v r → Recovered faulty σ v d (recover_from r.0 d, r.1)
  unfolding recover_from
  recover_answer r (w, e, same, calm) =
      subst (λ (q : Result A × World). Recovered faulty σ v d (recover_from q.0 d, q.1)) (sym e)
        (recovered v w (inl refl) same (λ h. absurd (cc (h, calm))))

  pub recover-Recovered :
      {m : Exec A}
      → Returns σ v m
      → (w : World) → w.state ≡ σ
      → (may_fail w.faults ≡ true → faulty)
      → Recovered faulty σ v d (recover m d w)
  unfolding recover
  recover-Recovered {m} h w e f = elim (Bool-cases (may_fail w.faults)) [
    | inl ahead ↦ recover_read (m w) (f ahead) (h.reads w e)
    | inr calm ↦ recover_answer (m w) (h.in_calm w e calm)
  ]

-- What a request resolves to.
pub record IsResolved (claims : JwtClaims) (w : World) (r : Result ResolvedAuthz × World)
    : Type 0 where
  pub value : ResolvedAuthz
  pub answer : r.0 ≡ ok value
  pub state_kept : r.1.state ≡ w.state
  pub bypass_read :
      (value.admin_bypass ≡ in_admins claims.sub w.state.store)
      ⊎ ((value.admin_bypass ≡ false) × (may_fail w.faults ≡ true))
  pub groups_merged :
      (value.effective_groups ≡ merge_groups claims.extra (group_names claims.sub w.state.store))
      ⊎ ((value.effective_groups ≡ merge_groups claims.extra []) × (may_fail w.faults ≡ true))

module _ (claims : JwtClaims) (w0 : World) where
  abbrev answer_of : List String → Bool → ResolvedAuthz
  answer_of groups b = record {
    effective_groups = merge_groups claims.extra groups;
    admin_bypass = b;
  }

  abbrev Faulty : Type 0
  Faulty = may_fail w0.faults ≡ true

  abbrev Merged : List String → Type 0
  Merged groups =
      (merge_groups claims.extra groups
        ≡ merge_groups claims.extra (group_names claims.sub w0.state.store))
      ⊎ ((merge_groups claims.extra groups ≡ merge_groups claims.extra []) × Faulty)

  last_step :
      (groups : List String)
      → Merged groups
      → (r : Result Bool × World)
      → Recovered Faulty w0.state (in_admins claims.sub w0.state.store) false r
      → IsResolved claims w0 (continue r.0 (λ b. pure (answer_of groups b)) r.1)
  unfolding pure
  last_step groups merged r (recovered b w from e f) = record {
    value = answer_of groups b;
    answer = refl;
    state_kept = e;
    bypass_read = from;
    groups_merged = merged;
  }

  first_step :
      (r : Result (List String) × World)
      → Recovered Faulty w0.state (group_names claims.sub w0.state.store) [] r
      → IsResolved claims w0 (
          continue r.0
            (λ groups.
              recover (Repository.is_instance_admin claims.sub) false
              >>= (λ b. pure (answer_of groups b)))
            r.1)
  first_step r (recovered groups w from e f) =
      last_step groups
        (⊎_elim (λ h. inl (ap (merge_groups claims.extra) h))
          (λ (h, ahead). inr (ap (merge_groups claims.extra) h, ahead)) from)
        _
        (recover-Recovered Faulty w0.state _ false (is_instance_admin-Returns claims.sub w0.state) w
          e f)

-- Whichever of its reads fail, the resolution of a request answers and changes nothing. Its bypass
-- says whether the caller is a member of the group with the distinguished name, and its groups are
-- those of the token, merged with those of the store; only where a failure is ahead the bypass may
-- be denied, and the groups may be those of the token alone.
pub resolve_instance_authz-IsResolved :
    (claims : JwtClaims) (w : World) → IsResolved claims w (resolve_instance_authz claims w)
unfolding resolve_instance_authz
resolve_instance_authz-IsResolved claims w = first_step claims w _ (
    recover-Recovered (Faulty claims w) w.state _ [] (memberships_for-Returns claims.sub w.state) w
      refl (λ h. h))
