-- ===== src/Relations/Removal.antt =====
-- Which relations are left where some are removed, and that the graph stays acyclic.
use pdt.Base.{◌≡◌, ◌⊎◌, Bool, not, List, filter}
use pdt.Model.Error.{Result, ok, err, panic}
use pdt.Model.Relation.{Relation}
use pdt.Model.World.{State, World}
use pdt.Audit.Repository.Frame as Trail
use pdt.Relations.Repository
use pdt.Relations.Service
use pdt.Relations.Acyclic.{IsAcyclic}

-- The relations but those that the test takes.
abbrev pub others : (Relation → Bool) → List Relation → List Relation
others p rs = filter (λ r. not (p r)) rs

module _ (p : Relation → Bool) (rs : List Relation) where
  abbrev Whole : State → Type 0
  Whole s = s.relations ≡ rs

  abbrev Gone : State → Type 0
  Gone s = s.relations ≡ others p rs

  -- A failure leaves all relations, or comes after the removal.
  abbrev Either : State → Type 0
  Either s = Whole s ⊎ Gone s

  -- What a removal answers and leaves.
  abbrev pub Removed : {A : Type 0} → Result A × World → Type 0
  Removed (ok a, w) = (w.state.relations ≡ others p rs) × IsAcyclic w.state.relations
  Removed (err e, w) = Either w.state × IsAcyclic w.state.relations
  Removed (panic, w) = Either w.state × IsAcyclic w.state.relations
