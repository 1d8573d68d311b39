-- ===== src/Cc/Eager.antt =====
-- The eager forest of `CCSketchAlg::pre_insert` (src/cc_sketch_alg.cpp): what is so of `dsu`,
-- `spanning_forest` and the two flags after any updates.
pub mod Step
pub mod Calls
use graph_streaming_cc.Prelude.{
  ℕ, ◌<◌, ◌≡◌, ◌≢◌, refl, sym, ap, ◌∙◌, ◌⊎◌, inl, inr, ◌↔◌, arith, Bool, true, false, ◌==◌,
  if◌then◌else◌, Option, some, List, [], ◌∷◌, get_or, modify, get_or-modify_self, get_or-modify_ne,
  length, Bool-cases, eq-or-ne, eq→==, ==→eq,
}
use graph_streaming_cc.Util.{Edge}
use graph_streaming_cc.Graph.{EdgeSet, present, Linked}
use graph_streaming_cc.Dsu.Sets.{IsDsu, SameSet}
use graph_streaming_cc.Cc.{CcSketchAlg, pre_insert}
use graph_streaming_cc.Cc.Stored.{in_forest}

-- The forest is one of the graph, and the sets of `dsu` are its components.
pub record Tracks (edges : List Edge) (c : CcSketchAlg) : Type 0 where
  pub items : c.dsu.n ≡ c.num_vertices
  pub sized : length c.spanning_forest ≡ c.num_vertices
  pub forest : IsDsu c.dsu
  pub stored : (s d : ℕ) → in_forest c s d ≡ true → present edges s d ≡ true
  pub covers :
      (s d : ℕ)
      → present edges s d ≡ true
      → (s < c.num_vertices) × (d < c.num_vertices) × SameSet c.dsu s d
  pub spans :
      (x y : ℕ)
      → x < c.num_vertices
      → y < c.num_vertices
      → SameSet c.dsu x y
      → Linked (in_forest c) x y

pub record Eager (edges : List Edge) (c : CcSketchAlg) : Type 0 where
  pub agree : c.shared_dsu_valid ≡ c.dsu_valid
  pub tracks : c.dsu_valid ≡ true → Tracks edges c

-- The calls of `pre_insert` from a state, with the edges so far, the latest first.
pub data PreInserted (start : CcSketchAlg) : List Edge → CcSketchAlg → Type 0 where
  none_yet : PreInserted start [] start
  pre_inserted :
      (edges : List Edge) (c c' : CcSketchAlg) (failures : List Bool) (edge : Edge)
      → PreInserted start edges c
      → edge.src < c.num_vertices
      → edge.dst < c.num_vertices
      → pre_insert failures c edge ≡ some c'
      → PreInserted start (edge ∷ edges) c'
