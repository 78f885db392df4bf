-- ===== src/Sandbox/Artifacts/Laws.antt =====
-- The order in which the containers of a sandbox are removed.
use go_firecracker_container.Base.{◌≡◌, contains, nat_eq, list_eq}
use go_firecracker_container.Base.Text.{Text}
use go_firecracker_container.Base.Dict
use go_firecracker_container.Base.Dict.{Dict}
use go_firecracker_container.Base.Sorting.Laws.{
  AreSorted, sort_strings-AreSorted, contains-sort_strings,
}
use go_firecracker_container.Model.{ContainerState}
use go_firecracker_container.Sandbox.Artifacts.{sorted_container_names}

-- The names are sorted by their bytes, and they are the names of the map.
sorted_container_names-AreSorted :
    (m : Dict Text ContainerState)
    → AreSorted (sorted_container_names m)
      × ((name : Text) → contains (sorted_container_names m) name ≡ contains (Dict.keys m) name)
unfolding sorted_container_names
sorted_container_names-AreSorted m =
    (sort_strings-AreSorted (Dict.keys m), λ name. contains-sort_strings (Dict.keys m) name)
