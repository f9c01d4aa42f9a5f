-- ===== src/Collections/Members.antt =====
-- The removal of an asset from all collections.
use pdt.Base.{String, ◌≡◌, refl, true, map, []}
use pdt.Model.Error.{ok}
use pdt.Model.World.{World}
use pdt.Model.World.Hoare.{Runs-fails}
use pdt.Model.World.Outcome.{Runs-returns}
use pdt.Assets.Service.Cascade.{remove_asset_from_all-Runs}
use pdt.Collections.Repository.{without, remove_asset_from_all}

-- The removal of an asset from all collections that meets no failure takes its id off each
-- collection, and leaves every stamp of an update as it is, also of the collections that held it.
pub remove_asset_from_all-without :
    (w : World) (id : String)
    → w.faults ≡ []
    → ((remove_asset_from_all id w).0 ≡ ok tt)
      × ((remove_asset_from_all id w).1.state.collections ≡ map (without id) w.state.collections)
remove_asset_from_all-without w id calm =
    let (u, answer, (h, same)) =
      Runs-returns (λ _ s. Unit {0} × (s.collections ≡ map (without id) w.state.collections))
        (Runs-fails _ (λ s h. cc h)
          (remove_asset_from_all-Runs (λ s. Unit) true id w.state.collections (λ s ds h. tt)
            (λ s at ticks h. tt)))
        w calm (tt, refl) in
    (answer, same)
