-- ===== src/Components/Tests.antt =====
-- Runs of src/return_types.cpp on three vertices.
use graph_streaming_cc.Prelude.{
  ℕ, ◌≡◌, ◌↔◌, refl, true, some, List, [], ◌∷◌, get_or, replicate, arith,
}
use graph_streaming_cc.Dsu.{Dsu, new_dsu, find_root, find_loop}
use graph_streaming_cc.Dsu.Sets.{IsDsu, SameSet, new_dsu_lem}
use graph_streaming_cc.Cc.{contains}
use graph_streaming_cc.Components.{
  ConnectedComponents, new_components, is_connected, root_loop, record_root, insert_ordered, add_to,
  sets_loop, get_component_sets, new_spanning_forest,
}
use graph_streaming_cc.Components.Sets.{sets_of, together, get_component_sets_lem}
use graph_streaming_cc.Components.Edges.{has_edge, new_spanning_forest_lem}
use graph_streaming_cc.Components.Roots.{
  first, later, Below, no_item, below, Read, new_components_lem, is_connected_lem,
}

abbrev three : Dsu
three = record { n = 3; parent = 0 ∷ 1 ∷ 2 ∷ []; priority = 7 ∷ 9 ∷ 8 ∷ [] }

three-IsDsu : IsDsu three
unfolding new_dsu
three-IsDsu = new_dsu_lem (7 ∷ 9 ∷ 8 ∷ []) 3

abbrev order : List ℕ
order = 2 ∷ 0 ∷ 1 ∷ []

order-Below : Below three.n order
order-Below =
    below 2 (0 ∷ 1 ∷ []) (omega arith)
      (below 0 (1 ∷ []) (omega arith) (below 1 [] (omega arith) no_item))

abbrev answer : ConnectedComponents
answer = record { parent_arr = 0 ∷ 1 ∷ 2 ∷ []; num_vertices = 3; num_cc = 3 }

runs : new_components 3 three order ≡ some (three, answer)
unfolding new_components root_loop record_root find_root find_loop
runs = refl

new_components_lem_example :
    Read three
      (record { parent_arr = replicate 3 0; num_vertices = 3; num_cc = 0 })
      order
      (new_components 3 three order)
new_components_lem_example = new_components_lem three order three-IsDsu order-Below

is_connected_lem_example : (is_connected answer 0 2 ≡ true) ↔ SameSet three 0 2
is_connected_lem_example =
    is_connected_lem three three answer order three-IsDsu order-Below runs 0 2
      (later 2 (0 ∷ 1 ∷ []) (first (1 ∷ []))) (first (0 ∷ 1 ∷ []))

new_spanning_forest_lem_example :
    has_edge 1 2 (new_spanning_forest 3 ((2 ∷ []) ∷ (2 ∷ []) ∷ [] ∷ [])).edges
    ≡ contains (get_or ((2 ∷ []) ∷ (2 ∷ []) ∷ [] ∷ []) 1 []) 2
new_spanning_forest_lem_example =
    new_spanning_forest_lem ((2 ∷ []) ∷ (2 ∷ []) ∷ [] ∷ []) 3 1 2 (omega arith)

-- The vertices 0, 1 and 3 at root 1, and 2 alone.
abbrev two_sets : ConnectedComponents
two_sets = record { parent_arr = 1 ∷ 1 ∷ 2 ∷ 1 ∷ []; num_vertices = 4; num_cc = 2 }

listed : get_component_sets two_sets ≡ (0 ∷ 1 ∷ 3 ∷ []) ∷ (2 ∷ []) ∷ []
unfolding get_component_sets sets_loop add_to insert_ordered
listed = refl

get_component_sets_lem_example :
    (sets_of 0 (get_component_sets two_sets) ≡ 1)
    × (together 0 3 (get_component_sets two_sets) ≡ is_connected two_sets 0 3)
get_component_sets_lem_example = get_component_sets_lem two_sets 0 3 (omega arith) (omega arith)
