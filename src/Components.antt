-- ===== src/Components.antt =====
-- src/return_types.cpp and include/return_types.h: the answers of the queries. The loop of the
-- constructor is a `parallel for`: its iterations run in any order, here the list of them.
pub mod Tests
pub mod Roots
pub mod Edges
pub mod Sets
use graph_streaming_cc.Prelude.{
  ◌>>=◌, ℕ, suc, ◌+◌, Bool, ◌==◌, ltb, if◌then◌else◌, Option, some, List, [], ◌∷◌, ◌++◌, map,
  get_or, set, replicate, range_from,
}
use graph_streaming_cc.Util.{Edge}
use graph_streaming_cc.Dsu.{Dsu, find_root}

pub record ConnectedComponents : Type 0 where
  pub parent_arr : List ℕ
  pub num_vertices : ℕ
  pub num_cc : ℕ

-- The body of the loop, after `dsu.find_root(i)`.
pub record_root : ConnectedComponents → ℕ → ℕ → ConnectedComponents
record_root cc_out i root = record cc_out {
  parent_arr = set cc_out.parent_arr i root;
  num_cc = if root == i then cc_out.num_cc + 1 else cc_out.num_cc;
}

pub root_loop : Dsu → ConnectedComponents → List ℕ → Option (Dsu × ConnectedComponents)
unfolding record_root
root_loop d out [] = some (d, out)
root_loop d out (i ∷ is) = do (d', root) ← find_root d i; root_loop d' (record_root out i root) is

-- The constructor; `new node_id_t[n]` holds no values yet, for which zeros stand.
pub new_components : ℕ → Dsu → List ℕ → Option (Dsu × ConnectedComponents)
unfolding root_loop
new_components num_vertices d order =
    root_loop d
      (record { parent_arr = replicate num_vertices 0; num_vertices = num_vertices; num_cc = 0 })
      order

pub is_connected : ConnectedComponents → ℕ → ℕ → Bool
is_connected c a b = get_or c.parent_arr a 0 == get_or c.parent_arr b 0

-- `std::set::insert`, which keeps the order.
pub insert_ordered : ℕ → List ℕ → List ℕ
insert_ordered i [] = i ∷ []
insert_ordered i (x ∷ xs) =
    if i == x then x ∷ xs else if ltb i x then i ∷ x ∷ xs else x ∷ insert_ordered i xs

-- `temp[root].insert(i)`, with the sets in the order of their keys.
pub add_to : ℕ → ℕ → List (ℕ × List ℕ) → List (ℕ × List ℕ)
unfolding insert_ordered
add_to root i [] = (root, i ∷ []) ∷ []
add_to root i ((k, s) ∷ temp) =
    if k == root
    then (k, insert_ordered i s) ∷ temp
    else if ltb root k
    then (root, i ∷ []) ∷ (k, s) ∷ temp
    else (k, s) ∷ add_to root i temp

pub sets_loop : List ℕ → List (ℕ × List ℕ) → List ℕ → List (ℕ × List ℕ)
unfolding add_to
sets_loop parent_arr temp [] = temp
sets_loop parent_arr temp (i ∷ is) = sets_loop parent_arr (add_to (get_or parent_arr i 0) i temp) is

pub get_component_sets : ConnectedComponents → List (List ℕ)
unfolding sets_loop
get_component_sets c = map (λ it. it.1) (sets_loop c.parent_arr [] (range_from 0 c.num_vertices))

pub record SpanningForest : Type 0 where
  pub edges : List Edge
  pub num_vertices : ℕ

-- The inner loop, over the neighbours stored at `src`.
pub edges_at : ℕ → List ℕ → List Edge
edges_at src dsts = map (λ dst. record { src = src; dst = dst }) dsts

pub edges_from : List (List ℕ) → List ℕ → List Edge
unfolding edges_at
edges_from stored [] = []
edges_from stored (src ∷ rest) = edges_at src (get_or stored src []) ++ edges_from stored rest

pub new_spanning_forest : ℕ → List (List ℕ) → SpanningForest
unfolding edges_from
new_spanning_forest num_vertices stored = record {
  edges = edges_from stored (range_from 0 num_vertices);
  num_vertices = num_vertices;
}
