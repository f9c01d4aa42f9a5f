-- ===== src/Assets/Birth/Guarded.antt =====
-- What the birth guard promises of every context that it lets through.
use pdt.Base.{
  String, ◌≡◌, refl, sym, subst, ◌⊎◌, inl, inr, true, false, Option, none, some, List, ◌==◌,
  is_empty, Bool-cases,
}
use pdt.Model.Asset.{AuthContext, default_context}
use pdt.Assets.Birth.{requested_or_default, guard_birth_auth_context}

-- `born` is a context that may be written for the request `ctx` of a caller in `groups`.
pub record IsGuarded (ctx : AuthContext) (groups : List String) (born : AuthContext) : Type 0 where
  not_empty : (born.visibility == "") ≡ false
  team_has_cohort : (born.visibility == "team") ≡ true → is_empty born.owner_groups ≡ false
  explicit_kept : (ctx.visibility == "") ≡ false → (ctx.visibility == "team") ≡ false → born ≡ ctx
  cohort_kept : is_empty ctx.owner_groups ≡ false → born.owner_groups ≡ ctx.owner_groups
  cohort_from : (born.owner_groups ≡ ctx.owner_groups) ⊎ (born.owner_groups ≡ groups)
  confidentiality_kept : born.confidentiality ≡ ctx.confidentiality

module _ (groups : List String) where
  -- Without a visibility.
  empty-IsGuarded :
      (ctx : AuthContext)
      → (ctx.visibility == "") ≡ true
      → IsGuarded ctx groups (guard_birth_auth_context (some ctx) groups)
  unfolding guard_birth_auth_context
  empty-IsGuarded ctx empty = elim (Bool-cases (is_empty ctx.owner_groups)) [
    | inl alone ↦ elim (Bool-cases (is_empty groups)) [
      | inl nobody ↦
          rw (empty, alone, nobody)
            (record {
              not_empty = refl;
              team_has_cohort = λ h. cc h;
              explicit_kept = λ h. cc h;
              cohort_kept = λ h. refl;
              cohort_from = inl refl;
              confidentiality_kept = refl;
            })
      | inr some_group ↦
          rw (empty, alone, some_group)
            (record {
              not_empty = refl;
              team_has_cohort = λ h. some_group;
              explicit_kept = λ h. cc h;
              cohort_kept = λ h. cc h;
              cohort_from = inr refl;
              confidentiality_kept = refl;
            })
    ]
    | inr cohort ↦
        rw (empty, cohort)
          (record {
            not_empty = refl;
            team_has_cohort = λ h. cohort;
            explicit_kept = λ h. cc h;
            cohort_kept = λ h. refl;
            cohort_from = inl refl;
            confidentiality_kept = refl;
          })
  ]

  -- A visibility and, where it is team, a cohort: the context is let through.
  guard-fixed :
      (ctx : AuthContext)
      → (ctx.visibility == "") ≡ false
      → ((ctx.visibility == "team") ≡ true → is_empty ctx.owner_groups ≡ false)
      → guard_birth_auth_context (some ctx) groups ≡ ctx
  unfolding guard_birth_auth_context
  guard-fixed ctx given cohort = elim (Bool-cases (ctx.visibility == "team")) [
    | inl team ↦ rw (given, team, cohort team) refl
    | inr other ↦ rw (given, other) refl
  ]

  -- Team without a cohort.
  team-IsGuarded :
      (ctx : AuthContext)
      → (ctx.visibility == "") ≡ false
      → (ctx.visibility == "team") ≡ true
      → is_empty ctx.owner_groups ≡ true
      → IsGuarded ctx groups (guard_birth_auth_context (some ctx) groups)
  unfolding guard_birth_auth_context
  team-IsGuarded ctx given team alone = elim (Bool-cases (is_empty groups)) [
    | inl nobody ↦
        rw (given, team, alone, nobody)
          (record {
            not_empty = refl;
            team_has_cohort = λ h. cc h;
            explicit_kept = λ h k. cc k;
            cohort_kept = λ h. refl;
            cohort_from = inl refl;
            confidentiality_kept = refl;
          })
    | inr some_group ↦
        rw (given, team, alone, some_group)
          (record {
            not_empty = given;
            team_has_cohort = λ h. some_group;
            explicit_kept = λ h k. cc k;
            cohort_kept = λ h. cc h;
            cohort_from = inr refl;
            confidentiality_kept = refl;
          })
  ]

  through-IsGuarded :
      (ctx : AuthContext)
      → (ctx.visibility == "") ≡ false
      → ((ctx.visibility == "team") ≡ true → is_empty ctx.owner_groups ≡ false)
      → IsGuarded ctx groups (guard_birth_auth_context (some ctx) groups)
  through-IsGuarded ctx given cohort =
      subst (IsGuarded ctx groups) (sym (guard-fixed ctx given cohort)) (record {
        not_empty = given;
        team_has_cohort = cohort;
        explicit_kept = λ h k. refl;
        cohort_kept = λ h. refl;
        cohort_from = inl refl;
        confidentiality_kept = refl;
      })

  some-IsGuarded :
      (ctx : AuthContext) → IsGuarded ctx groups (guard_birth_auth_context (some ctx) groups)
  some-IsGuarded ctx = elim (Bool-cases (ctx.visibility == "")) [
    | inl empty ↦ empty-IsGuarded ctx empty
    | inr given ↦ elim (Bool-cases (ctx.visibility == "team")) [
      | inl team ↦ elim (Bool-cases (is_empty ctx.owner_groups)) [
        | inl alone ↦ team-IsGuarded ctx given team alone
        | inr cohort ↦ through-IsGuarded ctx given (λ h. cohort)
      ]
      | inr other ↦ through-IsGuarded ctx given (λ h. cc h)
    ]
  ]

pub guard_birth_auth_context-IsGuarded :
    (requested : Option AuthContext) (groups : List String)
    → IsGuarded (requested_or_default requested) groups (guard_birth_auth_context requested groups)
unfolding guard_birth_auth_context
guard_birth_auth_context-IsGuarded none groups = some-IsGuarded groups default_context
guard_birth_auth_context-IsGuarded (some ctx) groups = some-IsGuarded groups ctx
