-- ===== src/Assets/Prune/Walk.antt =====
-- The walk of the candidates reads only: it keeps every property of the store.
use pdt.Base.{
  ℕ, zero, suc, String, Bool, true, false, Option, none, some, List, [], length, Bool-cases, inl,
  inr, ltb, ◌*◌,
}
use pdt.Model.Asset.{Asset}
use pdt.Model.World.{Store, Exec}
use pdt.Model.World.Hoare.{Runs-crash}
use pdt.Model.World.Keeps.{Keeps, Keeps-bind, Keeps-pure, Keeps-query, Keeps-now}
use pdt.Audit.Prune.{days_before, day_ns}
use pdt.Assets.Pages.{Cursor, dated, Place}
use pdt.Assets.Search.{search}
use pdt.Assets.Prune.{
  next_page, candidate_walk, prune_candidates, prune, report_or_prune, max_candidate_walk,
}

module _ (P : Store → Type 0) where
  next_page-Keeps :
      (full : Bool) (kept : List Asset) (next : Option Place)
      (go : Option Cursor → List Asset → Exec (List Asset))
      → ((c : Option Cursor) (f : List Asset) → Keeps P (go c f))
      → Keeps P (next_page full kept next go)
  unfolding next_page
  next_page-Keeps true kept next go h = Keeps-pure P kept
  next_page-Keeps false kept none go h = Keeps-pure P kept
  next_page-Keeps false kept (some k) go h = h (some (dated k)) kept

  days_before-Keeps : (days at : ℕ) → Keeps P (days_before days at)
  unfolding days_before
  days_before-Keeps days at = elim (Bool-cases (ltb at (days * day_ns))) [
    | inl early ↦ rw early (Runs-crash (λ s p. p))
    | inr late ↦ rw late (Keeps-pure P _)
  ]

  module _ (is_alphanumeric : ℕ → Bool) (fts_match : String → Asset → Bool)
      (category value : String) where
    walk-Keeps :
        (cap limit cutoff fuel : ℕ) (cursor : Option Cursor) (found : List Asset)
        → Keeps P (
            candidate_walk is_alphanumeric fts_match cap limit category value cutoff fuel cursor
              found)
    unfolding candidate_walk search
    walk-Keeps cap limit cutoff zero cursor found = Runs-crash (λ s p. p)
    walk-Keeps cap limit cutoff (suc fuel) cursor found =
        Keeps-bind P (Keeps-query P _)
          λ (page, next). next_page-Keeps _ _ next _ (λ c f. walk-Keeps cap limit cutoff fuel c f)

    pub prune_candidates-Keeps :
        (days : ℕ) → Keeps P (prune_candidates is_alphanumeric fts_match category value days)
    unfolding prune_candidates
    prune_candidates-Keeps days = Keeps-bind P (Keeps-now P) λ at.
        Keeps-bind P (days_before-Keeps days at) λ cutoff. record {
          at = λ w c p.
              (walk-Keeps max_candidate_walk 500 cutoff (suc (length w.state.assets)) none []).at w
                c p;
        }

    -- A dry run writes nothing.
    pub prune_dry-Keeps :
        (days : ℕ) (user : String)
        → Keeps P (prune is_alphanumeric fts_match category value days true user)
    unfolding prune report_or_prune
    prune_dry-Keeps days user =
        Keeps-bind P (prune_candidates-Keeps days) λ candidates. Keeps-pure P _
