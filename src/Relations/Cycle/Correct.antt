-- ===== src/Relations/Cycle/Correct.antt =====
-- The cycle check decides whether a walk leads from the target of the new relation to its source.
use mathlib.Core.Logic.{∥∥₁_elim}
use mathlib.Core.Bool.{So-prop}
use pdt.Base.{
  ℕ, zero, suc, ◌+◌, ◌≤◌, String, ◌≡◌, ◌≢◌, refl, subst, sym, Bool, true, false, List, [], ◌∷◌,
  ◌==◌, eq_iff, arith, length, Bool-cases, inl, inr, ◌⊎◌, some, Option, ◌↔◌,
}
use pdt.Model.Relation.{Relation}
use pdt.Relations.Graph.{contains, Reach}
use pdt.Relations.Cycle.{Frontier, cycle_loop, would_create_cycle}
use pdt.Relations.Cycle.Scan.{unseen, unseen-le}
use pdt.Relations.Cycle.Explored.{
  Inv, Inv-start, Inv-round, round, round_work, marked, waiting, queue-cons, head_reached, complete,
}

module _ (rs : List Relation) (from to : String) where
  -- A marked asset that has left the queue is not the one sought.
  abbrev Missed : Frontier → Type 0
  Missed s = (u : String) → contains s.visited u ≡ true → (contains s.queue u ≡ true) ⊎ (u ≢ from)

  Missed-round :
      (visited : List String) (current : String) (queue : List String)
      → Inv rs to (record { visited = visited; queue = current ∷ queue })
      → current ≢ from
      → Missed (record { visited = visited; queue = current ∷ queue })
      → Missed (round rs to visited current queue)
  Missed-round visited current queue inv ne missed u m = ground (
    arith,
    waiting rs to visited current queue inv u,
    marked rs to visited current queue inv u,
    missed u,
    queue-cons rs to visited current queue inv u,
    eq_iff current u,
    λ (p : current ≡ u) (q : u ≡ from). ne (subst (λ x. x ≡ from) (sym p) q),
  )

  abbrev Decides : Option Bool → Type 0
  Decides r =
      (b : Bool) × (r ≡ some b) × (b ≡ true → Reach rs to from) × (Reach rs to from → b ≡ true)

  loop-Decides :
      (fuel : ℕ) (visited queue : List String)
      → Inv rs to (record { visited = visited; queue = queue })
      → Missed (record { visited = visited; queue = queue })
      → unseen rs visited + length queue ≤ fuel
      → Decides (cycle_loop rs from fuel visited queue)
  unfolding cycle_loop round
  loop-Decides fuel visited [] inv missed h = (
    false,
    refl,
    λ e. cc,
    λ p. elim (missed from (complete rs to visited inv p)) [
      | inl left ↦ unfold contains in cc
      | inr ne ↦ absurd (ne refl)
    ],
  )
  loop-Decides zero visited (current ∷ queue) inv missed h = absurd (omega arith)
  loop-Decides (suc fuel) visited (current ∷ queue) inv missed h =
      elim (Bool-cases (current == from)) [
        | inl found ↦ (
          true,
          rw found,
          λ _.
              subst (Reach rs to) ((eq_iff current from).0 found)
                (head_reached rs to visited current queue inv),
          λ _. refl,
        )
        | inr other ↦
            let next = round rs to visited current queue in
            let ne : current ≢ from = λ e. cc ((eq_iff current from).1 e, other) in
            let (b, e, back, forth) =
              loop-Decides fuel next.visited next.queue (Inv-round rs to visited current queue inv)
                (Missed-round visited current queue inv ne missed)
                (round_work rs to fuel visited current queue h) in
            (b, rw other e, back, forth)
      ]

-- The check ends, and answers `true` exactly if a walk leads from `to` to `from`, so that the new
-- relation would close a cycle.
pub would_create_cycle_decides :
    (rs : List Relation) (from to : String)
    → (b : Bool) × (would_create_cycle rs from to ≡ some b) × ((b ≡ true) ↔ ∥ Reach rs to from ∥₁)
unfolding would_create_cycle
would_create_cycle_decides rs from to =
    let (b, e, back, forth) =
      loop-Decides rs from to (suc (length rs)) (to ∷ []) (to ∷ []) (Inv-start rs to) (λ u m. inl m)
        (omega (arith, unseen-le rs (to ∷ []))) in
    (b, e, (λ h. ∣ back h ∣₁, λ p. ∥∥₁_elim p (So-prop _) forth))
