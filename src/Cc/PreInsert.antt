-- ===== src/Cc/PreInsert.antt =====
-- What `CCSketchAlg::pre_insert` (src/cc_sketch_alg.cpp) leaves alone.
use graph_streaming_cc.Prelude.{
  ℕ, ◌≡◌, refl, Bool, true, false, List, Always, result, Always-map, Always-if, Always-any,
  if◌then◌else◌,
}
use graph_streaming_cc.Util.{Edge, low_of, high_of}
use graph_streaming_cc.Dsu.{Dsu, DsuMergeRet, merge_mt}
use graph_streaming_cc.Cc.{CcSketchAlg, contains, forest_at, record_edge, pre_insert}

pub record SameSketches (c c' : CcSketchAlg) : Type 0 where
  pub sketches : c'.sketches ≡ c.sketches
  pub deltas : c'.delta_sketches ≡ c.delta_sketches
  pub locked : c'.update_locked ≡ c.update_locked
  pub vertices : c'.num_vertices ≡ c.num_vertices
  pub seeds : c'.seed ≡ c.seed
  pub samples : c'.num_samples ≡ c.num_samples

same : (c : CcSketchAlg) → SameSketches c c
same c = record {
  sketches = refl;
  deltas = refl;
  locked = refl;
  vertices = refl;
  seeds = refl;
  samples = refl;
}

either :
    (c x y : CcSketchAlg) (b : Bool)
    → SameSketches c x
    → SameSketches c y
    → SameSketches c (if b then x else y)
either c x y true hx hy = hx
either c x y false hx hy = hy

unchanged :
    (c : CcSketchAlg) (d : Dsu) (forest : List (List ℕ)) (valid shared : Bool)
    → SameSketches c (record c {
      dsu = d;
      spanning_forest = forest;
      dsu_valid = valid;
      shared_dsu_valid = shared;
    })
unchanged c d forest valid shared = record {
  sketches = refl;
  deltas = refl;
  locked = refl;
  vertices = refl;
  seeds = refl;
  samples = refl;
}

record_edge-SameSketches :
    (c : CcSketchAlg) (src dst : ℕ) (p : Dsu × DsuMergeRet)
    → SameSketches c (record_edge c src dst p)
unfolding record_edge
record_edge-SameSketches c src dst (d, ret) =
    either c _ _ ret.merged (unchanged c d _ c.dsu_valid c.shared_dsu_valid) (
      either c _ _ (contains (forest_at c src) dst) (unchanged c d c.spanning_forest false false)
        (unchanged c d c.spanning_forest c.dsu_valid c.shared_dsu_valid))

-- Whatever its merge does, `pre_insert` changes no sketch and no lock.
pub pre_insert-SameSketches :
    (failures : List Bool) (c : CcSketchAlg) (edge : Edge)
    → Always (SameSketches c) (pre_insert failures c edge)
unfolding pre_insert
pre_insert-SameSketches failures c edge =
    let src = low_of edge.src edge.dst in
    let dst = high_of edge.src edge.dst in
    Always-if c.dsu_valid _ _
      (λ _.
        Always-map (record_edge c src dst) _ (Always-any (merge_mt failures c.dsu src dst))
          (λ p _. record_edge-SameSketches c src dst p))
      (λ _. result c (same c))
