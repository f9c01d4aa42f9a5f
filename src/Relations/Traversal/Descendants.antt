-- ===== src/Relations/Traversal/Descendants.antt =====
-- `get_descendants` lists what walks from the root reach, each once.
use mathlib.Core.Logic.{∥∥₁_elim}
use mathlib.Core.Bool.{So-prop}
use pdt.Base.{
  ℕ, zero, suc, ◌+◌, ◌≤◌, String, ◌≡◌, ◌≢◌, refl, sym, ap, subst, ◌∙◌, ◌↔◌, true, false, not, ◌&&◌,
  ◌||◌, some, List, [], ◌∷◌, ◌++◌, ◌==◌, eq_iff, arith, length, filter, Bool-cases, inl, inr,
}
use pdt.Base.Sort.{IsKeyed, Fresh}
use pdt.Model.Relation.{Relation}
use pdt.Relations.Graph.{asset_relations, outgoing, contains, Reach}
use pdt.Relations.Cycle.{Frontier, offer, scan}
use pdt.Relations.Cycle.Scan.{contains-concat, unseen, unseen-le}
use pdt.Relations.Cycle.Explored.{Inv, Inv-start, Inv-round, round, round_work, complete}
use pdt.Relations.Traversal.{Descent, descend, descend_all, descent_loop, get_descendants}

abbrev frontier : Descent → Frontier
frontier s = record { visited = s.visited; queue = s.queue }

-- One row is offered where it leads away from the asset, and passed over elsewhere.
descend-offer :
    (current : String) (s : Descent) (r : Relation)
    → (r.from_asset_id == current) ≡ true
    → frontier (descend current s r) ≡ offer (frontier s) r.to_asset_id
unfolding descend offer
descend-offer current s r away = elim (Bool-cases (contains s.visited r.to_asset_id)) [
  | inl seen ↦ rw (away, seen) refl
  | inr new ↦ rw (away, new) refl
]

descend-other :
    (current : String) (s : Descent) (r : Relation)
    → (r.from_asset_id == current) ≡ false
    → descend current s r ≡ s
unfolding descend
descend-other current s r other = rw other refl

-- The inner loop takes from the rows of an asset those that lead away from it, as the scan of the
-- cycle search does.
descend_all-scan :
    (current : String) (s : Descent) (rows : List Relation)
    → frontier (
        descend_all current s
          (filter (λ r. r.from_asset_id == current || r.to_asset_id == current) rows))
      ≡ scan (frontier s) (filter (λ r. r.from_asset_id == current) rows)
unfolding descend_all scan
descend_all-scan current s [] = refl
descend_all-scan current s (r ∷ rows) = elim (Bool-cases (r.from_asset_id == current)) [
  | inl away ↦ rw away (
      descend_all-scan current (descend current s r) rows
      ∙ ap (λ f. scan f (filter (λ q. q.from_asset_id == current) rows))
          (descend-offer current s r away))
  | inr other ↦ elim (Bool-cases (r.to_asset_id == current)) [
    | inl into ↦
        rw (other, into)
          (descend_all-scan current (descend current s r) rows
            ∙ ap (λ d. scan (frontier d) (filter (λ q. q.from_asset_id == current) rows))
                (descend-other current s r other))
    | inr apart ↦ rw (other, apart) (descend_all-scan current s rows)
  ]
]

-- The results are what is marked but the root.
record Listed (root : String) (s : Descent) : Type 0 where
  marked : (v : String) → contains s.visited v ≡ (root == v || contains s.results v)
  fresh : contains s.results root ≡ false
  once : IsKeyed (λ v. v) s.results

Fresh-concat :
    (v : String) (xs : List String) (x : String)
    → Fresh (λ y. y) v xs
    → (x == v) ≡ false
    → Fresh (λ y. y) v (xs ++ x ∷ [])
Fresh-concat v [] x h ne = (λ e. cc ((eq_iff x v).1 e, ne), tt)
Fresh-concat v (y ∷ xs) x (h, hs) ne = (h, Fresh-concat v xs x hs ne)

IsKeyed-concat :
    (xs : List String) (x : String)
    → IsKeyed (λ y. y) xs
    → contains xs x ≡ false
    → IsKeyed (λ y. y) (xs ++ x ∷ [])
unfolding contains
IsKeyed-concat [] x h free = (tt, tt)
IsKeyed-concat (y ∷ xs) x (h, hs) free =
    let ne : (x == y) ≡ false = ground (arith, eq_iff x y, eq_iff y x, λ (e : x ≡ y). sym e) in
    (Fresh-concat y xs x h ne, IsKeyed-concat xs x hs (ground arith))

contains-cons : (x v : String) (xs : List String) → contains (x ∷ xs) v ≡ (x == v || contains xs v)
unfolding contains
contains-cons x v xs = refl

descend-Listed :
    (root current : String) (s : Descent) (r : Relation)
    → Listed root s
    → Listed root (descend current s r)
unfolding descend
descend-Listed root current s r h =
    elim (Bool-cases (r.from_asset_id == current && not (contains s.visited r.to_asset_id))) [
      | inr skipped ↦ rw skipped h
      | inl taken ↦
          let new : contains s.visited r.to_asset_id ≡ false = ground (arith, taken) in
          let apart : (root == r.to_asset_id) ≡ false = ground (arith, h.marked r.to_asset_id) in
          let free : contains s.results r.to_asset_id ≡ false =
            ground (arith, h.marked r.to_asset_id) in
          rw taken (record {
            marked = λ v. ground (
              arith,
              h.marked v,
              contains-cons r.to_asset_id v s.visited,
              contains-concat s.results r.to_asset_id v,
            );
            fresh = ground (
              arith,
              h.fresh,
              contains-concat s.results r.to_asset_id root,
              eq_iff r.to_asset_id root,
              eq_iff root r.to_asset_id,
              λ (e : r.to_asset_id ≡ root). sym e,
            );
            once = IsKeyed-concat s.results r.to_asset_id h.once free;
          })
    ]

descend_all-Listed :
    (root current : String) (s : Descent) (rows : List Relation)
    → Listed root s
    → Listed root (descend_all current s rows)
unfolding descend_all
descend_all-Listed root current s [] h = h
descend_all-Listed root current s (r ∷ rows) h =
    descend_all-Listed root current (descend current s r) rows (descend-Listed root current s r h)

module _ (rs : List Relation) (root : String) where
  -- The ids are those that a walk from the root reaches, the root apart, each once.
  pub record AreDescendants (ids : List String) : Type 0 where
    pub distinct : IsKeyed (λ v. v) ids
    pub exact : (v : String) → (contains ids v ≡ true) ↔ (∥ Reach rs root v ∥₁ × (root ≢ v))

  at_end :
      (visited results : List String)
      → Inv rs root (record { visited = visited; queue = [] })
      → Listed root (record { visited = visited; queue = []; results = results })
      → AreDescendants results
  at_end visited results inv listed = record {
    distinct = listed.once;
    exact = λ v. (
      λ h. (
        ∣ inv.sound v (ground (arith, listed.marked v)) ∣₁,
        λ e. cc (h, subst (λ x. contains results x ≡ false) e listed.fresh),
      ),
      λ (p, ne). ∥∥₁_elim p (So-prop _) λ q.
          let seen = complete rs root visited inv q in
          let apart : (root == v) ≡ false = ground (arith, eq_iff root v) in
          ground (arith, listed.marked v, apart),
    );
  }

  step_frontier :
      (visited : List String) (current : String) (queue results : List String)
      → frontier (
          descend_all current
            (record { visited = visited; queue = queue; results = results })
            (asset_relations rs current))
        ≡ round rs root visited current queue
  unfolding asset_relations outgoing round
  step_frontier visited current queue results =
      descend_all-scan current (record { visited = visited; queue = queue; results = results }) rs

  loop_lists :
      (fuel : ℕ) (visited queue results : List String)
      → Inv rs root (record { visited = visited; queue = queue })
      → Listed root (record { visited = visited; queue = queue; results = results })
      → unseen rs visited + length queue ≤ fuel
      → (ids : List String) × (descent_loop rs fuel visited queue results ≡ some ids)
        × AreDescendants ids
  unfolding descent_loop
  loop_lists fuel visited [] results inv listed h =
      (results, refl, at_end visited results inv listed)
  loop_lists zero visited (current ∷ queue) results inv listed h = absurd (omega arith)
  loop_lists (suc fuel) visited (current ∷ queue) results inv listed h =
      let start : Descent = record { visited = visited; queue = queue; results = results } in
      let next = descend_all current start (asset_relations rs current) in
      let same = sym (step_frontier visited current queue results) in
      let started : Listed root start = record {
        marked = listed.marked;
        fresh = listed.fresh;
        once = listed.once;
      } in
      loop_lists fuel next.visited next.queue next.results
        (subst (Inv rs root) same (Inv-round rs root visited current queue inv))
        (descend_all-Listed root current start (asset_relations rs current) started)
        (subst (λ (f : Frontier). unseen rs f.visited + length f.queue ≤ fuel) same
          (round_work rs root fuel visited current queue h))

Listed-start :
    (root : String) → Listed root (record { visited = root ∷ []; queue = root ∷ []; results = [] })
unfolding contains
Listed-start root = record { marked = λ v. refl; fresh = refl; once = tt }

-- The search for descendants answers for every relation graph: it lists, each once, the assets
-- that a walk from the root reaches, and the root is not among them.
pub get_descendants-AreDescendants :
    (rs : List Relation) (root : String)
    → (ids : List String) × (get_descendants rs root ≡ some ids) × AreDescendants rs root ids
unfolding get_descendants
get_descendants-AreDescendants rs root =
    loop_lists rs root (suc (length rs)) (root ∷ []) (root ∷ []) [] (Inv-start rs root)
      (Listed-start root) (omega (arith, unseen-le rs (root ∷ [])))
