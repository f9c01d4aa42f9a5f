-- ===== src/Assets/Prune.antt =====
-- `AssetService::prune_candidates` and `AssetService::prune` of src/service/asset_service.rs: the
-- old assets of a class, and their soft deletion.
pub mod Candidates
pub mod Found
pub mod Walk
pub mod Kept
use pdt.Base.{
  ℕ, zero, suc, ◌+◌, String, Bool, true, false, Option, none, some, List, [], ◌∷◌, ◌++◌, length,
  take, ltb, leb, if◌then◌else◌,
}
use pdt.Model.Error.{Result, ok, err, panic}
use pdt.Model.Asset.{Asset}
use pdt.Model.World.{Exec, pure, crash, now, ◌>>=◌, ◌>>◌}
use pdt.Audit.Prune.{days_before}
use pdt.Assets.Pages.{Cursor, dated, Place}
use pdt.Assets.Search.{search}
use pdt.Assets.Service

-- `MAX_CANDIDATE_WALK`
abbrev pub max_candidate_walk : ℕ
max_candidate_walk = 10_000

-- `asset.created_at < cutoff`
unfoldable pub is_older : ℕ → Asset → Bool
is_older cutoff a = ltb a.created_at cutoff

-- The assets of one page: those found so far, and whether they are as many as the cap.
unfoldable pub scan_page : ℕ → ℕ → List Asset → List Asset → List Asset × Bool
unfolding is_older
scan_page cap cutoff found [] = (found, false)
scan_page cap cutoff found (a ∷ page) =
    let taken = scan_page cap cutoff (found ++ a ∷ []) page in
    let passed = scan_page cap cutoff found page in
    if is_older cutoff a
    then (if leb cap (length (found ++ a ∷ [])) then (found ++ a ∷ [], true) else taken)
    else passed

-- What follows a page: the end of the walk at the cap or at the last page, or the next page.
unfoldable pub next_page :
    Bool
    → List Asset
    → Option Place
    → (Option Cursor → List Asset → Exec (List Asset))
    → Exec (List Asset)
next_page true kept next go = pure kept
next_page false kept none go = pure kept
next_page false kept (some k) go = go (some (dated k)) kept

-- What the class selects, and in what order, is the search's: its parameters stand here too.
module _ (is_alphanumeric : ℕ → Bool) (fts_match : String → Asset → Bool) where
  -- The walk by pages of `limit` assets, on fuel: a page that is not the last is full.
  unfoldable pub candidate_walk :
      ℕ → ℕ → String → String → ℕ → ℕ → Option Cursor → List Asset → Exec (List Asset)
  unfolding next_page
  candidate_walk cap limit category value cutoff zero cursor found = crash
  candidate_walk cap limit category value cutoff (suc fuel) cursor found = do
    (page, next) ← search is_alphanumeric fts_match none ((category, value) ∷ []) limit cursor
    let (kept, full) = scan_page cap cutoff found page
    next_page full kept next (λ c f. candidate_walk cap limit category value cutoff fuel c f)

  -- `AssetService::prune_candidates`
  unfoldable pub prune_candidates : String → String → ℕ → Exec (List Asset)
  unfolding days_before candidate_walk
  prune_candidates category value days = do
    at ← now
    cutoff ← days_before days at
    λ w.
        candidate_walk max_candidate_walk 500 category value cutoff (suc (length w.state.assets))
          none [] w

-- Whether a call succeeded; a failure is answered, and a panic goes on.
abbrev pub succeeded : {A : Type 0} → Result A → Result Bool
succeeded (ok a) = ok true
succeeded (err e) = ok false
succeeded panic = panic

unfoldable pub is_ok : {A : Type 0} → Exec A → Exec Bool
is_ok m w = let (r, w') = m w in (succeeded r, w')

unfoldable pub tally : Bool → String → ℕ × List String → ℕ × List String
tally true id (pruned, failed) = (pruned + 1, failed)
tally false id (pruned, failed) = (pruned, failed ++ id ∷ [])

-- `for asset in &candidates`: a deletion that fails is listed, and the next one follows.
unfoldable pub prune_each : String → List Asset → ℕ × List String → Exec (ℕ × List String)
unfolding is_ok tally
prune_each user [] counts = pure counts
prune_each user (a ∷ candidates) counts = do
  done ← is_ok (Service.delete a.id user)
  prune_each user candidates (tally done a.id counts)

-- What the operation answers, less the inputs that it repeats.
pub data Report : Type 0 where
  -- matched, candidates
  dry_run : ℕ → List Asset → Report
  -- matched, pruned, failed
  executed : ℕ → ℕ → List String → Report

unfoldable pub report_or_prune : Bool → String → List Asset → Exec Report
unfolding prune_each
report_or_prune true user candidates = pure (dry_run (length candidates) (take 100 candidates))
report_or_prune false user candidates = do
  (pruned, failed) ← prune_each user candidates (0, [])
  pure (executed (length candidates) pruned failed)

-- `AssetService::prune`
unfoldable pub prune :
    (ℕ → Bool) → (String → Asset → Bool) → String → String → ℕ → Bool → String → Exec Report
unfolding report_or_prune
prune is_alphanumeric fts_match category value days dry user = do
  candidates ← prune_candidates is_alphanumeric fts_match category value days
  report_or_prune dry user candidates
