-- ===== src/Maintenance/Gated.antt =====
-- Behind the gates of a prune: the store changes only for an admin, with the flag set, and where the
-- policy clears the class.
use pdt.Base.{
  ℕ, String, ◌≡◌, refl, sym, ap, ◌∙◌, ◌⊎◌, inl, inr, Bool, true, false, some, ◌==◌, ◌||◌, any,
  arith, Bool-cases,
}
use pdt.Model.Error.{ApiError, Result, ok, err, panic}
use pdt.Model.Asset.{Asset}
use pdt.Model.World.{State, World, Exec, ◌>>◌}
use pdt.Model.World.Hoare.{Runs, Post, Runs-bind, Runs-pure, Runs-conseq, Runs-fails, Runs-ensure}
use pdt.Model.World.Read.{Read, Reads, answers, fails}
use pdt.Model.World.Keeps.{Keeps}
use pdt.Retention.Policy.{PruneVerdict}
use pdt.Roles.Service.{RoleAnswer}
use pdt.Roles.Service.Resolved.{answer_in, principal_in, resolve-Reads}
use pdt.Maintenance.{
  AuthenticatedUser, role_strings, admin_allowed, is_allowed, execution_gates, registry_gate,
  admin_gate,
}

-- A read as a triple, at the state that it reads.
read-Post :
    {A : Type 0} (σ : State) (v : A) (r : Result A × World)
    → Read σ v r
    → Post false (λ a s. (s ≡ σ) × (a ≡ v)) (λ s. s ≡ σ) r
read-Post σ v _ (answers w e) = ((λ h. absurd (cc h)), (e, refl))
read-Post σ v _ (fails x w e) = e

Runs-Reads :
    {A : Type 0} (σ : State) (v : A) {m : Exec A}
    → Reads σ v m
    → Runs false (λ s. s ≡ σ) m (λ a s. (s ≡ σ) × (a ≡ v)) (λ s. s ≡ σ)
Runs-Reads σ v {m} h = record { at = λ w c p. read-Post σ v (m w) (h w p) }

-- What holds anyway holds afterwards.
Runs-const :
    {A : Type 0} {P : State → Type 0} (Q : State → Type 0) {m : Exec A}
    → ((s : State) → Q s)
    → Runs false P m (λ _. Q) Q
Runs-const {A} Q {m} h = record { at = λ w c p. post (m w) }
  where
    post : (r : Result A × World) → Post false (λ _. Q) Q r
    post (ok a, w) = ((λ e. absurd (cc e)), h w.state)
    post (err e, w) = h w.state
    post (panic, w) = h w.state

either : {a b : Bool} → (a || b) ≡ true → a ≡ false → b ≡ true
either {a} {b} e h = ground (arith, e, h)

module _ (is_alphanumeric : ℕ → Bool) (fts_match : String → Asset → Bool) (σ : State)
    (user : AuthenticatedUser) where
  -- An admin, by the role claim of the token or by the tags of the asset of the caller.
  abbrev pub IsAdmin : Type 0
  IsAdmin =
      let answer : RoleAnswer =
        answer_in σ.store user.user_id
          (principal_in is_alphanumeric fts_match σ.store user.user_id) in
      admin_allowed (role_strings user.claims_extra) (some answer.global_role) ≡ true

  registry_gate-Runs :
      (admin : Bool)
      → any (λ r. r == "admin") (role_strings user.claims_extra) ≡ admin
      → Runs false
          (λ s. s ≡ σ)
          (registry_gate is_alphanumeric fts_match admin
            (role_strings user.claims_extra)
            user.user_id)
          (λ _ s. (s ≡ σ) × IsAdmin)
          (λ s. s ≡ σ)
  unfolding registry_gate admin_allowed
  registry_gate-Runs true e = Runs-pure _ λ s p. (p, ground (arith, e))
  registry_gate-Runs false e =
      Runs-bind _ (Runs-Reads σ _ (resolve-Reads is_alphanumeric fts_match σ user.user_id))
        λ answer.
          Runs-conseq _
            (λ a s ((p, same), passed). (
              p,
              ap
                    (λ (x : RoleAnswer).
                      admin_allowed (role_strings user.claims_extra) (some x.global_role))
                    (sym same)
                  ∙ passed,
            ))
            (Runs-ensure _ ApiError.forbidden (λ s p h. p.0))

  admin_gate-Runs :
      Runs false
        (λ s. s ≡ σ)
        (admin_gate is_alphanumeric fts_match user)
        (λ _ s. (s ≡ σ) × IsAdmin)
        (λ s. s ≡ σ)
  unfolding admin_gate
  admin_gate-Runs = registry_gate-Runs _ refl

  -- The gates, and then a call that writes nothing in a dry run.
  module _ (X : Type 0) (dry enabled : Bool) (v : PruneVerdict)
      (opens : IsAdmin → dry ≡ false → enabled ≡ true → is_allowed v ≡ true → X) where
    abbrev Outcome : State → Type 0
    Outcome s = (s.store ≡ σ.store) ⊎ X

    run_or_report :
        {A : Type 0} (rest : Exec A)
        → (dry ≡ true → Keeps (λ s. s ≡ σ.store) rest)
        → IsAdmin
        → (dry || enabled) ≡ true
        → (dry || is_allowed v) ≡ true
        → Runs false (λ s. s.store ≡ σ.store) rest (λ _. Outcome) Outcome
    run_or_report rest keeps admin e a = elim (Bool-cases dry) [
      | inl report ↦ Runs-fails _ (λ s p. inl p) (Runs-conseq _ (λ a s p. inl p) (keeps report))
      | inr run ↦ Runs-const Outcome (λ s. inr (opens admin run (either e run) (either a run)))
    ]

    pub gated-Runs :
        {A : Type 0} (rest : Exec A)
        → (dry ≡ true → Keeps (λ s. s ≡ σ.store) rest)
        → Runs false
            (λ s. s ≡ σ)
            (admin_gate is_alphanumeric fts_match user >> (execution_gates dry enabled v >> rest))
            (λ _. Outcome)
            Outcome
    unfolding execution_gates
    gated-Runs rest keeps =
        Runs-bind _ (Runs-fails _ (λ s p. inl (ap (λ (t : State). t.store) p)) admin_gate-Runs) λ u.
          Runs-bind
            (λ _ s.
              (((s ≡ σ) × IsAdmin) × ((dry || enabled) ≡ true)) × ((dry || is_allowed v) ≡ true))
            (Runs-bind _
              (Runs-ensure _ ApiError.forbidden (λ s p h. inl (ap (λ (t : State). t.store) p.0)))
              λ u'.
                Runs-ensure _ ApiError.forbidden (λ s p h. inl (ap (λ (t : State). t.store) p.0.0)))
            λ u'. record {
              at = λ w c (((p, admin), e), a).
                  (run_or_report rest keeps admin e a).at w c (ap (λ (t : State). t.store) p);
            }
