-- ===== src/Model/Sample.antt =====
-- Small stores and worlds, for the tests.
use pdt.Base.{ℕ, String, Bool, Option, none, List, []}
use pdt.Model.Asset.{Asset, AuthContext}
use pdt.Model.Audit.{AuditEntry, AuditAction, Changes}
use pdt.Model.World.{Store, World}

abbrev pub no_rows : Store
no_rows = record {
  assets = [];
  relations = [];
  collections = [];
  audit_entries = [];
  groups = [];
  group_members = [];
  archives = λ path. none;
}

-- A calm world: a clock, and one uuid for ever.
abbrev pub world_of : Store → ℕ → List Bool → World
world_of s clock faults = record {
  state = record { store = s; clock = clock; ticks = []; uuid = λ n. "new"; minted = 0 };
  faults = faults;
}

abbrev pub entry_at : String → ℕ → AuditEntry
entry_at id at = record {
  id = id;
  entity_type = "asset";
  entity_id = "x";
  action = AuditAction.update;
  changes = Changes.empty;
  user_id = "u";
  timestamp = at;
}

abbrev pub asset_of : String → Option AuthContext → Asset
asset_of id ctx = record {
  id = id;
  title = "t";
  content = none;
  tags = [];
  metadata = [];
  created_at = 0;
  updated_at = 0;
  created_by = "u";
  updated_by = "u";
  deleted_at = none;
  auth_context = ctx;
}
