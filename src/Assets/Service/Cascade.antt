-- ===== src/Assets/Service/Cascade.antt =====
-- A deletion that meets no failure: what it removes, and what its entry says.
use pdt.Base.{
  ℕ, suc, String, ◌≡◌, refl, sym, ap, subst, ◌∙◌, Bool, true, false, not, none, some, List, [], ◌∷◌,
  ◌++◌, ◌==◌, ◌&&◌, map, filter, any, length, arith, Bool-cases, inl, inr, if◌then◌else◌,
}
use pdt.Model.Error.{ok}
use pdt.Model.Asset.{Asset}
use pdt.Model.Relation.{Relation, Collection}
use pdt.Model.Audit.{AuditEntry, AuditAction, Changes}
use pdt.Model.World.{Store, State, World}
use pdt.Model.World.Hoare.{
  Runs, Runs-bind, Runs-pure, Runs-query, Runs-execute, Runs-now, Runs-eq, Runs-fails, Runs-weaken,
  Runs-given,
}
use pdt.Model.World.Outcome.{Runs-returns}
use pdt.Audit.Repository.Frame as Trail
use pdt.Assets.Rows.{is_live, find_live, or_not_found}
use pdt.Assets.Rows
use pdt.Assets.Repository
use pdt.Assets.Repository.{is_live_id}
use pdt.Assets.Service
use pdt.Relations.Graph.{asset_relations}
use pdt.Relations.Repository as Links
use pdt.Collections.Repository as Shelf
use pdt.Collections.Repository.{holds, without}

stamped : String → ℕ → List Asset → List Asset
stamped id at = map (λ a. if is_live_id id a then record a { deleted_at = some at } else a)

find_live-stamped :
    (id : String) (at : ℕ) (rows : List Asset) → find_live (stamped id at rows) id ≡ none
unfolding find_live stamped is_live_id
find_live-stamped id at [] = refl
find_live-stamped id at (a ∷ rows) = ground (arith, find_live-stamped id at rows)

live_rows :
    (id : String) (rows : List Asset) (a : Asset)
    → find_live rows id ≡ some a
    → (n : ℕ) × (length (filter (is_live_id id) rows) ≡ suc n)
unfolding find_live is_live_id
live_rows id [] a h = absurd (cc h)
live_rows id (b ∷ rows) a h = elim (Bool-cases (b.id == id && is_live b)) [
  | inl here ↦ (length (filter (is_live_id id) rows), rw here refl)
  | inr there ↦ let (n, e) = live_rows id rows a (rw there at h) in (n, rw there e)
]

filter-without :
    (id : String) (xs : List String) → any (λ x. x == id) (filter (λ x. not (x == id)) xs) ≡ false
filter-without id [] = refl
filter-without id (x ∷ xs) = ground (arith, filter-without id xs)

-- No collection holds the id after its removal, so the update of the stamps touches none.
pub without-touched :
    (id : String) (at : ℕ) (cs : List Collection)
    → map (λ c. if holds id c then record c { updated_at = at } else c) (map (without id) cs)
      ≡ map (without id) cs
unfolding holds without
without-touched id at [] = refl
without-touched id at (c ∷ cs) =
    rw (filter-without id c.asset_ids) (ap (λ ds. without id c ∷ ds) (without-touched id at cs))

-- Removing an asset from all collections takes its id off each, and changes nothing else: the
-- stamps too stay as they are.
pub remove_asset_from_all-Runs :
    (P : State → Type 0) (calm : Bool) (id : String) (cs : List Collection)
    → ((s : State) (ds : List Collection)
        → P s
        → P (record s { store = record s.store { collections = ds } }))
    → ((s : State) (at : ℕ) (ticks : List ℕ) → P s → P (record s { clock = at; ticks = ticks }))
    → Runs calm
        (λ s. P s × (s.collections ≡ cs))
        (Shelf.remove_asset_from_all id)
        (λ _ s. P s × (s.collections ≡ map (without id) cs))
        (λ s. calm ≡ false)
unfolding Shelf.remove_asset_from_all Shelf.delete_members Shelf.update_where
remove_asset_from_all-Runs P calm id cs frame tick =
    let Q : State → Type 0 = λ s. P s × (s.collections ≡ map (without id) cs) in
    Runs-bind (λ _. Q)
      (Runs-execute _ (λ loose s h. loose) (λ s h e. cc)
        λ s h n t e.
          let after : record s.store { collections = map (without id) s.collections } ≡ t =
            ground arith in
          subst (λ (x : Store). Q (record s { store = x })) after
            (frame s _ h.0, ap (map (without id)) h.1))
      λ _.
        Runs-bind (λ _. Q) (Runs-now (λ s h at le ticks. (tick s at ticks h.0, h.1)))
          λ at.
            Runs-bind (λ _. Q)
              (Runs-execute _ (λ loose s h. loose) (λ s h e. cc)
                λ s h n t e.
                  let touched = map (λ c. if holds id c then record c { updated_at = at } else c) in
                  let after : record s.store { collections = touched s.collections } ≡ t =
                    ground arith in
                  subst (λ (x : Store). Q (record s { store = x })) after
                    (frame s _ h.0, ap touched h.1 ∙ without-touched id at cs))
              λ n. Runs-pure tt (λ s h. h)

module _ (store : Store) (id : String) where
  -- What stands when the entry is written.
  abbrev Removed : Store → Type 0
  Removed s =
      (find_live s.assets id ≡ none)
      × (s.relations ≡ filter (λ r. not (Links.touches id r)) store.relations)
      × (s.collections ≡ map (without id) store.collections)

  -- The state after the deletion, with its entry.
  abbrev pub Deleted : Store → Type 0
  Deleted s =
      Removed s
      × ((e : AuditEntry) × (s.audit_entries ≡ store.audit_entries ++ e ∷ [])
          × (e.action ≡ AuditAction.delete)
          × (e.changes
              ≡ Changes.cascade (map Service.summary (asset_relations store.relations id))))

module _ (store : Store) (id user : String) (a : Asset)
    (live : find_live store.assets id ≡ some a) where
  abbrev HasNew : State → Type 0
  HasNew = Trail.HasFresh true store.audit_entries

  abbrev Before : State → Type 0
  Before s = (s.store ≡ store) × HasNew s

  -- The asset is gone from the listings; the other tables are as they were.
  abbrev Gone : Store → Type 0
  Gone s = find_live s.assets id ≡ none

  abbrev Stamped : State → Type 0
  Stamped s =
      Gone s.store
      × (s.relations ≡ store.relations)
      × (s.collections ≡ store.collections)
      × (s.audit_entries ≡ store.audit_entries)
      × HasNew s

  get_by_id-Before : Runs true Before (Rows.get_by_id id) (λ _ s. Before s) (λ s. ⊥)
  unfolding Rows.get_by_id or_not_found
  get_by_id-Before =
      Runs-bind (λ found s. Before s × (found ≡ some a))
        (Runs-query _ (λ loose s h. cc loose)
          (λ s h. (h, ap (λ (t : Store). find_live t.assets id) h.0 ∙ live)))
        λ found. Runs-eq or_not_found found (some a) (Runs-pure a (λ s h. h))

  soft_delete-Stamped : Runs true Before (Repository.soft_delete id) (λ _ s. Stamped s) (λ s. ⊥)
  unfolding Repository.soft_delete Repository.update_where Repository.require_affected stamped
  soft_delete-Stamped =
      let (m, count) = live_rows id store.assets a live in
      Runs-bind (λ _. Before) (Runs-now (λ s h at le ticks. h))
        λ at.
          Runs-bind (λ n s. Stamped s × (n ≡ suc m))
            (Runs-execute _ (λ loose s h. cc loose) (λ s h e. cc)
              λ s h n t e.
                let after : record s.store { assets = stamped id at s.assets } ≡ t = ground arith in
                let affected : length (filter (is_live_id id) s.assets) ≡ n = ground arith in
                (
                  (
                    subst Gone after (find_live-stamped id at s.assets),
                    sym (ap (λ (x : Store). x.relations) after)
                        ∙ ap (λ (x : Store). x.relations) h.0,
                    sym (ap (λ (x : Store). x.collections) after)
                        ∙ ap (λ (x : Store). x.collections) h.0,
                    sym (ap (λ (x : Store). x.audit_entries) after)
                        ∙ ap (λ (x : Store). x.audit_entries) h.0,
                    h.1,
                  ),
                  sym affected
                      ∙ ap (λ (x : Store). length (filter (is_live_id id) x.assets)) h.0
                      ∙ count,
                ))
            λ n. Runs-eq Repository.require_affected n (suc m) (Runs-pure tt (λ s h. h))

  -- The relations of the asset are gone too.
  abbrev Unlinked : State → Type 0
  Unlinked s =
      Gone s.store
      × (s.relations ≡ filter (λ r. not (Links.touches id r)) store.relations)
      × (s.audit_entries ≡ store.audit_entries)
      × HasNew s

  delete_by_asset-Unlinked :
      Runs true Stamped
        (Links.delete_by_asset id)
        (λ _ s. Unlinked s × (s.collections ≡ store.collections))
        (λ s. ⊥)
  unfolding Links.delete_by_asset Links.delete_where
  delete_by_asset-Unlinked =
      Runs-execute _ (λ loose s h. cc loose) (λ s h e. cc)
        λ s h n t e.
          let left = filter (λ r. not (Links.touches id r)) in
          let after : record s.store { relations = left s.relations } ≡ t = ground arith in
          subst
            (λ (x : Store). Unlinked (record s { store = x }) × (x.collections ≡ store.collections))
            after ((h.0, ap left h.1, h.3, h.4), h.2)

  log-Deleted :
      (cascaded : List Relation)
      → Runs true
          (λ s. Removed store id s.store × (s.audit_entries ≡ store.audit_entries) × HasNew s)
          (Service.log AuditAction.delete id (Changes.cascade (map Service.summary cascaded)) user)
          (λ _ s.
            Removed store id s.store
            × ((e : AuditEntry) × (s.audit_entries ≡ store.audit_entries ++ e ∷ [])
                × (e.action ≡ AuditAction.delete)
                × (e.changes ≡ Changes.cascade (map Service.summary cascaded))))
          (λ s. ⊥)
  unfolding Service.log
  log-Deleted cascaded =
      Runs-bind _
        (Runs-weaken (λ s (r, same, new). (same, new, r))
          (Runs-fails _ (λ s h. cc h.0)
            (Trail.create-adds true (Removed store id) (λ s es r. r) store.audit_entries "asset" id
              AuditAction.delete (Changes.cascade (map Service.summary cascaded)) user)))
        λ e. Runs-pure tt λ s (written, action, changes, r). (r, (e, written, action, changes))

  delete-Runs : Runs true Before (Service.delete id user) (λ _ s. Deleted store id s.store) (λ s. ⊥)
  unfolding Service.delete Links.get_asset_relations
  delete-Runs =
      Runs-bind (λ _. Before) get_by_id-Before
        λ _.
          Runs-bind (λ cascaded s. Before s × (cascaded ≡ asset_relations store.relations id))
            (Runs-query _ (λ loose s h. cc loose)
              (λ s h. (h, ap (λ (t : Store). asset_relations t.relations id) h.0)))
            λ cascaded. Runs-given λ same.
              Runs-bind (λ _. Stamped) soft_delete-Stamped
                λ _. Runs-bind _ delete_by_asset-Unlinked λ _.
                  Runs-bind
                    (λ _ s. Unlinked s × (s.collections ≡ map (without id) store.collections))
                    (Runs-fails _ (λ s h. cc h)
                      (remove_asset_from_all-Runs Unlinked true id store.collections (λ s ds h. h)
                        (λ s at ticks h. h)))
                    λ _.
                      Runs-weaken
                        (λ s ((gone, links, trail, new), cs). ((gone, links, cs), trail, new))
                        (subst
                          (λ rs.
                            Runs true
                              (λ s.
                                Removed store id s.store
                                × (s.audit_entries ≡ store.audit_entries)
                                × HasNew s)
                              (Service.log AuditAction.delete id
                                (Changes.cascade (map Service.summary cascaded)) user)
                              (λ _ s.
                                Removed store id s.store
                                × ((e : AuditEntry) × (s.audit_entries
                                      ≡ store.audit_entries ++ e ∷ [])
                                    × (e.action ≡ AuditAction.delete)
                                    × (e.changes ≡ Changes.cascade (map Service.summary rs))))
                              (λ s. ⊥))
                          same (log-Deleted cascaded))

-- A deletion of a live asset that meets no failure succeeds: the asset is no longer found, exactly
-- the relations that have it for an end are gone, every collection is as it was less its id, and
-- the trail has one entry more, of the deletion, with a summary of each of those relations. The
-- next uuid is not in the trail.
pub delete-cascades :
    (w : World) (id user : String) (a : Asset)
    → w.faults ≡ []
    → find_live w.state.assets id ≡ some a
    → any (λ q. q.id == w.state.uuid w.state.minted) w.state.audit_entries ≡ false
    → ((Service.delete id user w).0 ≡ ok tt)
      × Deleted w.state.store id (Service.delete id user w).1.state.store
delete-cascades w id user a calm live new =
    let (u, answer, deleted) =
      Runs-returns (λ _ s. Deleted w.state.store id s.store)
        (delete-Runs w.state.store id user a live) w calm (refl, λ h. new) in
    (answer, deleted)
