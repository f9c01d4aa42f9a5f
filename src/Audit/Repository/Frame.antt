-- ===== src/Audit/Repository/Frame.antt =====
-- Writing an audit entry adds one row to the trail and touches no other table.
use pdt.Base.{
  String, ◌≡◌, refl, Bool, true, false, List, [], ◌∷◌, ◌++◌, arith, none, some, ◌==◌, any, subst,
  sym, ap, Bool-cases, inl, inr,
}
use pdt.Model.Audit.{AuditEntry, AuditAction, Changes}
use pdt.Model.World.{Store, State}
use pdt.Model.World.Hoare.{Runs, Runs-bind, Runs-mint, Runs-now, Runs-execute}
use pdt.Audit.Repository.{insert_entry, create}

-- The row that an insert adds.
insert_entry-eq :
    (e a : AuditEntry) (s t : Store)
    → insert_entry e s ≡ some (a, t)
    → (a ≡ e) × (t ≡ record s { audit_entries = s.audit_entries ++ e ∷ [] })
unfolding insert_entry
insert_entry-eq e a s t h = (ground arith, ground arith)

insert_entry-eq-none :
    (e : AuditEntry) (s : Store)
    → insert_entry e s ≡ none
    → any (λ q. q.id == e.id) s.audit_entries ≡ true
unfolding insert_entry
insert_entry-eq-none e s h = ground arith

-- What does not depend on the trail holds after an entry is written, and after its failure.
pub create-Runs :
    (P : Store → Type 0)
    → ((s : Store) (es : List AuditEntry) → P s → P (record s { audit_entries = es }))
    → (entity_type entity_id : String) (action : AuditAction) (changes : Changes) (user : String)
    → Runs false
        (λ s. P s.store)
        (create entity_type entity_id action changes user)
        (λ _ s. P s.store)
        (λ s. P s.store)
unfolding create
create-Runs P frame entity_type entity_id action changes user =
    Runs-bind (λ _ s. P s.store) (Runs-mint (λ s p. p))
      λ id.
        Runs-bind (λ _ s. P s.store) (Runs-now (λ s p at h ticks. p))
          λ at.
            Runs-execute _ (λ loose s p. p) (λ s p e. p)
              λ s p a t e. subst P (sym (insert_entry-eq _ a s.store t e).1) (frame s.store _ p)

-- The next uuid is not in the trail; a triple that is not calm need not know it.
abbrev pub HasFresh : Bool → List AuditEntry → State → Type 0
HasFresh calm rows s = calm ≡ true → any (λ q. q.id == s.uuid s.minted) rows ≡ false

module _ (calm : Bool) (R : Store → Type 0)
    (frame : (s : Store) (es : List AuditEntry) → R s → R (record s { audit_entries = es }))
    (rows : List AuditEntry) where
  abbrev Stands : AuditEntry → AuditAction → Changes → Store → Type 0
  Stands e action changes s =
      (s.audit_entries ≡ rows ++ e ∷ []) × (e.action ≡ action) × (e.changes ≡ changes) × R s

  added-Stands :
      (e a : AuditEntry) (s t : Store)
      → s.audit_entries ≡ rows
      → R s
      → (a ≡ e) × (t ≡ record s { audit_entries = s.audit_entries ++ e ∷ [] })
      → Stands a e.action e.changes t
  added-Stands e a s t same_rows r (same, wrote) =
      let after = record s { audit_entries = s.audit_entries ++ e ∷ [] } in
      let new : Stands e e.action e.changes after =
        (ap (λ xs. xs ++ e ∷ []) same_rows, refl, refl, frame s _ r) in
      subst (λ x. Stands x e.action e.changes t) (sym same)
        (subst (Stands e e.action e.changes) (sym wrote) new)

  abbrev Ready : String → Store → Type 0
  Ready id s =
      (s.audit_entries ≡ rows)
      × (calm ≡ true → any (λ (q : AuditEntry). q.id == id) rows ≡ false)
      × R s

  refused : (e : AuditEntry) (s : Store) → Ready e.id s → insert_entry e s ≡ none → calm ≡ false
  refused e s (same_rows, fresh, r) none_left = elim (Bool-cases calm) [
    | inl held ↦
        let taken = insert_entry-eq-none e s none_left in
        let free = fresh held in absurd (cc (ap (any (λ (q : AuditEntry). q.id == e.id)) same_rows))
    | inr loose ↦ loose
  ]

  -- A written entry stands at the end of the trail, with the action and the changes given.
  pub create-adds :
      (entity_type entity_id : String) (action : AuditAction) (changes : Changes) (user : String)
      → Runs calm
          (λ s. (s.audit_entries ≡ rows) × HasFresh calm rows s × R s.store)
          (create entity_type entity_id action changes user)
          (λ e s. Stands e action changes s.store)
          (λ s. (calm ≡ false) × (s.audit_entries ≡ rows) × R s.store)
  unfolding create
  create-adds entity_type entity_id action changes user =
      Runs-bind (λ id s. Ready id s.store) (Runs-mint (λ s p. p))
        λ id.
          Runs-bind (λ _ s. Ready id s.store) (Runs-now (λ s p at h ticks. p))
            λ at.
              let new : AuditEntry = record {
                id = id;
                entity_type = entity_type;
                entity_id = entity_id;
                action = action;
                changes = changes;
                user_id = user;
                timestamp = at;
              } in
              Runs-execute _ (λ loose s p. (loose, p.0, p.2))
                (λ s p e. (refused new s.store p e, p.0, p.2))
                λ s p a t e.
                  added-Stands new a s.store t p.0 p.2 (insert_entry-eq new a s.store t e)
