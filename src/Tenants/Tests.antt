-- ===== src/Tenants/Tests.antt =====
-- One workspace with a child, both on disk.
use pdt.Base.{String, ◌≡◌, refl, Bool, true, some, none, [], ◌∷◌}
use pdt.Tenants.Tree.{DbPath, instance_of, db_exists, has_child_db}
use pdt.Tenants.Manager.{ok, instance_at, Manager, cached, get_services, provision_instance}
use pdt.Tenants.Deletion.{delete_instance}
use pdt.Tenants.Coherent.{After, get_services-After}
use pdt.Tenants.Deleted.{Dropped, delete_instance-Dropped}
use pdt.Tenants.Provisioned.{Provisioned, provision_instance-Provisioned}

abbrev workspace : DbPath
workspace = record { workspace = "w"; child = none }

abbrev child : DbPath
child = record { workspace = "w"; child = some "c" }

abbrev manager : Manager
manager = record {
  cache = ("c", child) ∷ [];
  dirs =
      record { name = "w"; has_db = true; children = (record { name = "c"; has_db = true }) ∷ [] }
      ∷ [];
  openings = [];
  removals = [];
  readable = λ w. true;
}

abbrev all : String → Bool
all id = true

get_services-child : (get_services all (some "c") manager).0 ≡ ok (instance_at child)
unfolding get_services cached
get_services-child = refl

held : (instance_of "w" (some "c") ≡ "c") × (db_exists manager.dirs "w" (some "c") ≡ true)
unfolding instance_of db_exists has_child_db
held = (refl, refl)

get_services-After_example : After "w" manager (get_services all (some "w") manager)
get_services-After_example = get_services-After all "w" manager (held, tt)

delete_instance-Dropped_example : Dropped "w" manager (delete_instance all "w" manager)
delete_instance-Dropped_example = delete_instance-Dropped all "w" manager (held, tt) refl

provision_instance-Provisioned_example :
    Provisioned all "d" (some "w") manager (provision_instance all "d" (some "w") manager)
provision_instance-Provisioned_example =
    provision_instance-Provisioned all "d" (some "w") manager (held, tt)
