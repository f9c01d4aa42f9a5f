-- ===== src/Assets/Prune/Found.antt =====
-- What `prune_candidates` finds, and what a dry run of the prune reports.
use pdt.Base.{
  ℕ, suc, ◌*◌, ◌<◌, ◌≤◌, String, ◌≡◌, refl, sym, ap, subst, ◌∙◌, Bool, true, none, List, [], ◌∷◌,
  ◌&&◌, filter, length, take, arith,
}
use pdt.Base.Sort.{IsKeyed, length-sort}
use pdt.Model.Error.{ok}
use pdt.Model.Asset.{Asset}
use pdt.Model.World.{Store, State, World, Exec}
use pdt.Model.World.Hoare.{
  Runs, Runs-bind, Runs-reading, reading, Runs-given, Runs-fails, Runs-pure, Runs-conseq, Post,
}
use pdt.Model.World.Outcome.{Runs-returns}
use pdt.Audit.Prune.{day_ns}
use pdt.Audit.Prune.Correct.{IsCutoff}
use pdt.Audit.Prune.Dry.{Timed, days_before-Runs}
use pdt.Assets.Rows.{is_live}
use pdt.Assets.Pages.{updated_at, desc, place, comes_before}
use pdt.Assets.Pages.Covered.{selected, At-start}
use pdt.Assets.Search.{is_hit}
use pdt.Assets.Prune.{
  is_older, max_candidate_walk, candidate_walk, prune_candidates, prune, Report, dry_run,
}
use pdt.Assets.Prune.Candidates.{walk_lem}

module _ (is_alphanumeric : ℕ → Bool) (fts_match : String → Asset → Bool)
    (category value : String) where
  -- The live assets with the tag that were made before the cutoff, the latest update first, up to
  -- the cap.
  abbrev pub old_of_class : ℕ → List Asset → List Asset
  old_of_class cutoff rows = take max_candidate_walk (
      filter (is_older cutoff) (
        selected updated_at desc (is_hit is_alphanumeric fts_match none ((category, value) ∷ []))
          rows))

  module _ (days clock : ℕ) (store : Store) (keyed : IsKeyed (λ a. a.id) store.assets) where
    answered :
        (m : Exec (List Asset)) (w : World) (xs : List Asset)
        → m w ≡ (ok xs, w)
        → w.faults ≡ []
        → w.state.store ≡ store
        → Post true (λ found s. (s.store ≡ store) × (found ≡ xs)) (λ s. ⊥) (m w)
    answered m w xs e calm same =
        subst (Post true (λ found s. (s.store ≡ store) × (found ≡ xs)) (λ s. ⊥)) (sym e)
          ((λ _. calm), (same, refl))

    length-filter-le : (p : Asset → Bool) (xs : List Asset) → length (filter p xs) ≤ length xs
    length-filter-le p [] = omega arith
    length-filter-le p (x ∷ xs) = ground (arith, length-filter-le p xs)

    walk-Runs :
        (cutoff : ℕ)
        → Runs true
            (λ s. s.store ≡ store)
            (λ w.
              candidate_walk is_alphanumeric fts_match max_candidate_walk 500 category value cutoff
                (suc (length w.state.assets))
                none
                []
                w)
            (λ found s. (s.store ≡ store) × (found ≡ old_of_class cutoff store.assets))
            (λ s. ⊥)
    walk-Runs cutoff = record {
      at = λ w c same.
          let calm = c refl in
          let rows = w.state.assets in
          let keyed' : IsKeyed (λ a. a.id) rows =
            subst (λ (t : Store). IsKeyed (λ a. a.id) t.assets) (sym same) keyed in
          let hit = is_hit is_alphanumeric fts_match none ((category, value) ∷ []) in
          let short : length (selected updated_at desc hit rows) < suc (length rows) = omega (
            arith,
            length-sort (comes_before desc) (place updated_at)
                (filter (λ a. is_live a && hit a) rows),
            length-filter-le (λ a. is_live a && hit a) rows,
          ) in
          answered
            (λ v.
              candidate_walk is_alphanumeric fts_match max_candidate_walk 500 category value cutoff
                (suc (length rows)) none [] v)
            w (old_of_class cutoff store.assets)
            (walk_lem is_alphanumeric fts_match max_candidate_walk 500 (omega arith) category value
                cutoff w calm keyed' (suc (length rows)) [] (selected updated_at desc hit rows) []
                none (At-start updated_at desc hit 500 (omega arith) rows keyed') refl (omega arith)
                short
              ∙ ap (λ (t : Store). (ok (old_of_class cutoff t.assets), w)) same)
            calm same;
    }

    abbrev FoundAll : List Asset → State → Type 0
    FoundAll found s =
        (s.store ≡ store)
        × ((cutoff : ℕ) × IsCutoff clock days cutoff × (found ≡ old_of_class cutoff store.assets))

    prune_candidates-Runs :
        days * day_ns ≤ clock
        → Runs true
            (λ s. (s.store ≡ store) × (clock ≡ reading s))
            (prune_candidates is_alphanumeric fts_match category value days)
            FoundAll
            (λ s. ⊥)
    unfolding prune_candidates
    prune_candidates-Runs window =
        Runs-bind (Timed true days clock store) (Runs-reading (λ s p ticks. (p.0, p.1))) λ at.
          Runs-bind (λ cutoff s. (s.store ≡ store) × IsCutoff clock days cutoff)
            (Runs-fails _ (λ s p. cc p.0) (days_before-Runs true days clock store at (λ h. window)))
            λ cutoff.
              Runs-given
                λ c. Runs-conseq _ (λ found s p. (p.0, (cutoff, c, p.1))) (walk-Runs cutoff)

-- A dry run of the asset prune that meets no failure, at a clock that stands past the window,
-- reports the number of the live assets with the tag that are older than the window, up to the
-- cap of the walk, and lists the first hundred of them, the latest update first; it leaves the
-- store as it is. The ids of the assets are distinct.
pub prune-dry_run :
    (is_alphanumeric : ℕ → Bool) (fts_match : String → Asset → Bool) (category value user : String)
    (days : ℕ) (w : World)
    → w.faults ≡ []
    → days * day_ns ≤ reading w.state
    → IsKeyed (λ a. a.id) w.state.assets
    → (cutoff : ℕ) × IsCutoff (reading w.state) days cutoff
      × ((prune is_alphanumeric fts_match category value days true user w).0
          ≡ ok (
              dry_run
                (length
                  (old_of_class is_alphanumeric fts_match category value cutoff w.state.assets))
                (take 100
                  (old_of_class is_alphanumeric fts_match category value cutoff w.state.assets))))
      × ((prune is_alphanumeric fts_match category value days true user w).1.state.store
          ≡ w.state.store)
unfolding prune
prune-dry_run is_alphanumeric fts_match category value user days w calm window keyed =
    let rows = w.state.assets in
    let found = λ (cutoff : ℕ). old_of_class is_alphanumeric fts_match category value cutoff rows in
    let Reported : Report → State → Type 0 = λ report s.
      (s.store ≡ w.state.store)
      × ((cutoff : ℕ) × IsCutoff (reading w.state) days cutoff
          × (report ≡ dry_run (length (found cutoff)) (take 100 (found cutoff)))) in
    let (report, answer, (same, (cutoff, c, e))) =
      Runs-returns Reported
        (Runs-bind _
          (prune_candidates-Runs is_alphanumeric fts_match category value days (reading w.state)
            w.state.store keyed window)
          λ candidates. Runs-pure _ λ s (same, (cutoff, c, e)).
            (same, (cutoff, c, ap (λ xs. dry_run (length xs) (take 100 xs)) e)))
        w calm (refl, refl) in
    (cutoff, c, answer ∙ ap ok e, same)
