-- ===== src/Relations/Acyclic.antt =====
-- The relation graph has no cycle, and the operations on relations keep it so, whatever fails.
use pdt.Base.{
  String, ◌≡◌, refl, sym, subst, ◌⊎◌, inl, inr, ⊎_elim, Bool, true, false, not, Option, none, some,
  List, [], ◌∷◌, ◌++◌, Memᴰ-concat, Memᴰ-filter, arith, filter,
}
use pdt.Model.Error.{ApiError}
use pdt.Model.Relation.{Relation, CreateRelationRequest}
use pdt.Model.Audit.{AuditAction}
use pdt.Model.World.{Store, State, Exec, pure, crash, ensure, ◌>>=◌, ◌>>◌}
use pdt.Model.World.Hoare.{
  Runs, Runs-bind, Runs-pure, Runs-crash, Runs-ensure, Runs-conseq, Runs-query, Runs-execute,
  Runs-mint, Runs-now, Runs-weaken,
}
use pdt.Audit.Repository.Frame as Trail
use pdt.Assets.Rows
use pdt.Assets.Rows.{or_not_found}
use pdt.Relations.Cycle
use pdt.Relations.Cycle.Correct.{would_create_cycle_decides}
use pdt.Relations.Repository
use pdt.Relations.Service
use pdt.Relations.Graph.{Edge, Reach, here, step, Reach-trans}

-- No walk leads from the end of an edge back to its start.
abbrev pub IsAcyclic : List Relation → Type 0
IsAcyclic rs = (u v : String) → Edge rs u v → ¬ Reach rs v u

-- With a new relation at the end, a walk is an old one or goes over the new relation.
module _ (rs : List Relation) (r : Relation) where
  Edge-cases :
      (u v : String)
      → Edge (rs ++ r ∷ []) u v
      → Edge rs u v ⊎ ((r.from_asset_id ≡ u) × (r.to_asset_id ≡ v))
  Edge-cases u v (q, m, f, t) = elim ((Memᴰ-concat q r rs).0 m) [
    | inl old ↦ inl (q, old, f, t)
    | inr e ↦ inr (
      subst (λ (x : Relation). x.from_asset_id ≡ u) e f,
      subst (λ (x : Relation). x.to_asset_id ≡ v) e t,
    )
  ]

  walk_cases :
      {a b : String}
      → Reach (rs ++ r ∷ []) a b
      → Reach rs a b ⊎ (Reach rs a r.from_asset_id × Reach rs r.to_asset_id b)
  walk_cases here = inl here
  walk_cases {a} (step {u} {v} p e) = elim (Edge-cases u v e) [
    | inl old ↦ ⊎_elim (λ q. inl (step q old)) (λ (q, q'). inr (q, step q' old)) (walk_cases p)
    | inr (f, t) ↦
        let back = subst (Reach rs a) (sym f) in
        let last = subst (Reach rs r.to_asset_id) t here in
        ⊎_elim (λ q. inr (back q, last)) (λ (q, q'). inr (q, last)) (walk_cases p)
  ]

  pub IsAcyclic-concat :
      IsAcyclic rs → ¬ Reach rs r.to_asset_id r.from_asset_id → IsAcyclic (rs ++ r ∷ [])
  IsAcyclic-concat acyclic open_ends u v e p = elim (Edge-cases u v e) [
    | inl old ↦
        ⊎_elim (acyclic u v old) (λ (q, q'). open_ends (Reach-trans (step q' old) q)) (walk_cases p)
    | inr (f, t) ↦
        let from_v =
          λ (q : Reach rs v r.from_asset_id). subst (λ x. Reach rs x r.from_asset_id) (sym t) q in
        ⊎_elim (λ q. open_ends (from_v (subst (Reach rs v) (sym f) q)))
          (λ (q, q'). open_ends (from_v q)) (walk_cases p)
  ]

-- A graph with fewer relations has fewer walks.
Reach-filter :
    (p : Relation → Bool) (rs : List Relation) {a b : String}
    → Reach (filter p rs) a b
    → Reach rs a b
Reach-filter p rs here = here
Reach-filter p rs (step q (r, m, f, t)) =
    step (Reach-filter p rs q) (r, ((Memᴰ-filter p rs r).0 m).0, f, t)

pub IsAcyclic-filter :
    (p : Relation → Bool) (rs : List Relation) → IsAcyclic rs → IsAcyclic (filter p rs)
IsAcyclic-filter p rs acyclic u v (r, m, f, t) q =
    acyclic u v (r, ((Memᴰ-filter p rs r).0 m).0, f, t) (Reach-filter p rs q)

abbrev pub HasNoCycle : State → Type 0
HasNoCycle s = IsAcyclic s.relations

-- `m` keeps the graph acyclic, whether it answers a value or an error.
abbrev pub KeepsAcyclic : {A : Type 0} → Exec A → Type 0
KeepsAcyclic m = Runs false HasNoCycle m (λ _. HasNoCycle) HasNoCycle

pub log_relation-IsAcyclic :
    (action : AuditAction) (r : Relation) (user : String)
    → KeepsAcyclic (Service.log_relation action r user)
unfolding Service.log_relation
log_relation-IsAcyclic action r user =
    Runs-bind (λ _. HasNoCycle)
      (Trail.create-Runs (λ s. IsAcyclic s.relations) (λ s es p. p) _ _ _ _ _)
      λ e. Runs-pure tt (λ s p. p)

exists-IsAcyclic : (id : String) → KeepsAcyclic (Rows.exists id)
unfolding Rows.exists
exists-IsAcyclic id = Runs-query _ (λ loose s p. p) (λ s p. p)

-- The ends of a relation that the check lets pass.
abbrev IsOpen : String → String → State → Type 0
IsOpen from to s = IsAcyclic s.relations × (¬ Reach s.relations to from)

check_sound :
    (from to : String) (b : Bool) (s : State)
    → Cycle.would_create_cycle s.relations from to ≡ some b
    → b ≡ false
    → ¬ Reach s.relations to from
check_sound from to b s h e p =
    let (b', e', h') = would_create_cycle_decides s.relations from to in
    let m : b' ≡ true = h'.1 ∣ p ∣₁ in cc

answer-Runs :
    (from to : String) (o : Option Bool)
    → Runs false
        (λ s. HasNoCycle s × (Cycle.would_create_cycle s.relations from to ≡ o))
        (elim o [ none ↦ crash | some b ↦ pure b ])
        (λ b s. HasNoCycle s × (b ≡ false → ¬ Reach s.relations to from))
        HasNoCycle
answer-Runs from to none = Runs-crash (λ s p. p.0)
answer-Runs from to (some b) = Runs-pure b (λ s (p, e). (p, check_sound from to b s e))

check-Runs :
    (from to : String)
    → Runs false HasNoCycle
        (Repository.would_create_cycle from to)
        (λ b s. HasNoCycle s × (b ≡ false → ¬ Reach s.relations to from))
        HasNoCycle
unfolding Repository.would_create_cycle
check-Runs from to =
    Runs-bind (λ o s. HasNoCycle s × (Cycle.would_create_cycle s.relations from to ≡ o))
      (Runs-query _ (λ loose s p. p) (λ s p. (p, refl))) (answer-Runs from to)

insert_relation-eq-some :
    (r a : Relation) (s t : Store)
    → Repository.insert_relation r s ≡ some (a, t)
    → t ≡ record s { relations = s.relations ++ r ∷ [] }
unfolding Repository.insert_relation
insert_relation-eq-some r a s t h = ground arith

insert-Runs :
    (request : CreateRelationRequest) (user : String)
    → Runs false
        (IsOpen request.from_asset_id request.to_asset_id)
        (Repository.create request user)
        (λ _. HasNoCycle)
        HasNoCycle
unfolding Repository.create Repository.new_relation
insert-Runs request user =
    let open_ends = IsOpen request.from_asset_id request.to_asset_id in
    Runs-bind (λ _. open_ends) (Runs-mint (λ s p. p))
      λ id.
        Runs-bind (λ _. open_ends) (Runs-now (λ s p at h ticks. p))
          λ at.
            Runs-execute _ (λ loose s p. p.0) (λ s p e. p.0)
              λ s p a t e.
                subst (λ x. IsAcyclic x.relations) (sym (insert_relation-eq-some _ a s.store t e))
                  (IsAcyclic-concat s.relations _ p.0 p.1)

ensure-IsAcyclic : (b : Bool) (e : ApiError) → KeepsAcyclic (ensure b e)
ensure-IsAcyclic b e = Runs-conseq _ (λ _ s p. p.0) (Runs-ensure b e (λ s p h. p))

-- The part of `create` from the cycle check on.
checked_create : CreateRelationRequest → String → Exec Relation
unfolding Service.create
checked_create request user = do
  cycle ← Repository.would_create_cycle request.from_asset_id request.to_asset_id
  ensure (not cycle) ApiError.validation
  r ← Repository.create request user
  Service.log_relation AuditAction.create r user
  pure r

checked_create-IsAcyclic :
    (request : CreateRelationRequest) (user : String) → KeepsAcyclic (checked_create request user)
unfolding checked_create
checked_create-IsAcyclic request user = Runs-bind _ (check-Runs _ _) λ cycle.
    Runs-bind _ (Runs-ensure (not cycle) _ (λ s p h. p.0)) λ _.
      Runs-bind (λ _. HasNoCycle)
        (Runs-weaken (λ s (p, e). (p.0, p.1 (ground arith))) (insert-Runs request user))
        λ r.
          Runs-bind (λ _. HasNoCycle) (log_relation-IsAcyclic _ r user) λ _. Runs-pure r (λ s p. p)

-- `RelationService::create` keeps the graph acyclic, whatever it answers and whichever of its
-- statements fail.
pub create-IsAcyclic :
    (request : CreateRelationRequest) (user : String) → KeepsAcyclic (Service.create request user)
unfolding Service.create checked_create
create-IsAcyclic request user =
    Runs-bind (λ _. HasNoCycle) (exists-IsAcyclic _)
      λ source.
        Runs-bind (λ _. HasNoCycle) (ensure-IsAcyclic source _)
          λ _.
            Runs-bind (λ _. HasNoCycle) (exists-IsAcyclic _)
              λ target.
                Runs-bind (λ _. HasNoCycle) (ensure-IsAcyclic target _)
                  λ _.
                    Runs-bind (λ _. HasNoCycle) (ensure-IsAcyclic _ _)
                      λ _. checked_create-IsAcyclic request user
