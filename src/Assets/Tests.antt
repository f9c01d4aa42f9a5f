-- ===== src/Assets/Tests.antt =====
-- A team asset that names no cohort.
use pdt.Base.{Option, some, []}
use pdt.Model.Asset.{AuthContext}

abbrev team : Option AuthContext
team = some (record { visibility = "team"; owner_groups = []; confidentiality = "low" })
