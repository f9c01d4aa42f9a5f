-- ===== src/Relations/Cycle/Explored.antt =====
-- The frontier of a breadth-first search along the relations: all that it marks is reached, and
-- what it has left is complete.
use pdt.Base.{
  ℕ, suc, ◌+◌, ◌≤◌, String, ◌≡◌, refl, subst, ap, true, not, ◌&&◌, ◌||◌, List, [], ◌∷◌, ◌==◌,
  eq_iff, arith, length, Bool-cases, inl, inr, ◌⊎◌, Memᴰ-filter,
}
use pdt.Model.Relation.{Relation}
use pdt.Relations.Graph.{contains, outgoing, has_edge, has_edge_iff, Reach, here, step}
use pdt.Relations.Cycle.{Frontier, scan}
use pdt.Relations.Cycle.Scan.{visited-scan, queue-scan, unseen, scan_work}

module _ (rs : List Relation) (to : String) where
  pub record Inv (s : Frontier) : Type 0 where
    pub source : contains s.visited to ≡ true
    pub queued : (v : String) → contains s.queue v ≡ true → contains s.visited v ≡ true
    pub sound : (v : String) → contains s.visited v ≡ true → Reach rs to v
    pub closed :
        (u v : String)
        → contains s.visited u ≡ true
        → has_edge rs u v ≡ true
        → (contains s.queue u ≡ true) ⊎ (contains s.visited v ≡ true)

  abbrev pub start : Frontier
  start = record { visited = to ∷ []; queue = to ∷ [] }

  pub Inv-start : Inv start
  unfolding contains
  Inv-start = record {
    source = ground (arith, eq_iff to to);
    queued = λ v q. q;
    sound = λ v m. subst (Reach rs to) ((eq_iff to v).0 (ground arith)) here;
    closed = λ u v m e. inl m;
  }

  -- One round: `current` leaves the head of the queue, and its rows are scanned.
  unfoldable pub round : List String → String → List String → Frontier
  round visited current queue =
      scan (record { visited = visited; queue = queue }) (outgoing rs current)

  module _ (visited : List String) (current : String) (queue : List String)
      (inv : Inv (record { visited = visited; queue = current ∷ queue })) where
    open inv use {source, queued, sound, closed}

    pub marked :
        (v : String)
        → contains (round visited current queue).visited v
          ≡ (contains visited v || has_edge rs current v)
    unfolding round has_edge
    marked v = visited-scan (record { visited = visited; queue = queue }) (outgoing rs current) v

    pub waiting :
        (v : String)
        → contains (round visited current queue).queue v ≡ (
            contains queue v
            || (contains (round visited current queue).visited v && not (contains visited v)))
    unfolding round
    waiting v = queue-scan (record { visited = visited; queue = queue }) (outgoing rs current) v

    pub head_marked : contains visited current ≡ true
    unfolding contains
    head_marked = queued current (ground (arith, eq_iff current current))

    pub head_reached : Reach rs to current
    head_reached = sound current head_marked

    pub queue-cons :
        (v : String) → contains (current ∷ queue) v ≡ (current == v || contains queue v)
    unfolding contains
    queue-cons v = refl

    pub Inv-round : Inv (round visited current queue)
    Inv-round = record {
      source = ground (arith, marked to, source);
      queued = λ v q. ground (arith, waiting v, marked v, queued v, queue-cons v);
      sound = λ v m. elim (Bool-cases (contains visited v)) [
        | inl old ↦ sound v old
        | inr new ↦ step head_reached ((has_edge_iff rs current v).0 (ground (arith, marked v)))
      ];
      closed = λ u v m e. ground (
        arith,
        waiting u,
        marked u,
        marked v,
        closed u v,
        queue-cons u,
        eq_iff current u,
        λ (p : current ≡ u). ap (λ (x : String). has_edge rs x v) p,
      );
    }

  pub round_work :
      (fuel : ℕ) (visited : List String) (current : String) (queue : List String)
      → unseen rs visited + length (current ∷ queue) ≤ suc fuel
      → unseen rs (round visited current queue).visited + length (round visited current queue).queue
        ≤ fuel
  unfolding round outgoing
  round_work fuel visited current queue h = omega (
    arith,
    scan_work rs (record { visited = visited; queue = queue }) (outgoing rs current)
        (λ r m. ((Memᴰ-filter _ rs r).0 m).0),
  )

  -- With an empty queue every asset that a walk reaches is marked.
  pub complete :
      (visited : List String)
      → Inv (record { visited = visited; queue = [] })
      → {v : String} → Reach rs to v
      → contains visited v ≡ true
  unfolding contains
  complete visited inv here = inv.source
  complete visited inv (step {u} {v} p e) =
      elim (inv.closed u v (complete visited inv p) ((has_edge_iff rs u v).1 e)) [
        | inl waiting ↦ cc
        | inr m ↦ m
      ]
