-- ===== src/Groups/Tests.antt =====
-- A store with the distinguished group and one member of it.
use pdt.Base.Text.{trim}
use pdt.Base.{◌≡◌, refl, [], ◌∷◌}
use pdt.Model.Group.{Group, GroupMember, instance_admins_group, instance_admins_group_id}
use pdt.Model.World.{World}
use pdt.Model.Sample.{no_rows, world_of}
use pdt.Groups.Service
use pdt.Groups.Service.Members.{is_in, add_member-is_in, remove_member-is_in}
use pdt.Groups.Service.Seeding.{seed_instance_admins-is_in}
use pdt.Groups.Service.Distinguished.{Seeded, is_admin, create-delete-admins}

abbrev admins : Group
admins = record {
  id = instance_admins_group_id;
  name = instance_admins_group;
  description = "";
  created_at = 0;
  created_by = "system";
}

abbrev membership : GroupMember
membership = record {
  group_id = instance_admins_group_id;
  member_id = "u";
  added_by = "system";
  added_at = 0;
}

abbrev world : World
world = world_of (record no_rows { groups = admins ∷ []; group_members = membership ∷ [] }) 7 []

create-delete-admins_example :
    Seeded "u" (is_admin "u" world.state.store) (Service.create "team" "" "u" world).1.state.store
    × Seeded "u"
        (is_admin "u" world.state.store)
        (Service.delete instance_admins_group_id "u" world).1.state.store
create-delete-admins_example =
    create-delete-admins world "u" "team" "" "u" instance_admins_group_id (admins, refl, refl)

add_member-is_in_example :
    is_in instance_admins_group_id "u"
      (Service.add_member instance_admins_group_id "v" "u" world).1.state.store
    ≡ is_in instance_admins_group_id "u" world.state.store
unfolding trim
add_member-is_in_example =
    add_member-is_in world instance_admins_group_id "u" instance_admins_group_id "v" "u" refl

remove_member-is_in_example :
    is_in instance_admins_group_id "u"
      (Service.remove_member instance_admins_group_id "v" "u" world).1.state.store
    ≡ is_in instance_admins_group_id "u" world.state.store
remove_member-is_in_example =
    remove_member-is_in world instance_admins_group_id "u" instance_admins_group_id "v" "u" refl

seed_instance_admins-is_in_example :
    is_in instance_admins_group_id "u"
      (Service.seed_instance_admins (" v " ∷ []) "system" world).1.state.store
    ≡ is_in instance_admins_group_id "u" world.state.store
unfolding trim
seed_instance_admins-is_in_example =
    seed_instance_admins-is_in world instance_admins_group_id "u" "system" (" v " ∷ []) refl
