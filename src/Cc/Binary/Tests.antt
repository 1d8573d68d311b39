-- ===== src/Cc/Binary/Tests.antt =====
-- A file of `write_binary` (src/cc_sketch_alg.cpp) for a graph of two vertices.
use graph_streaming_cc.Prelude.{◌*◌, ◌≡◌, refl, arith, ◌==◌, some, [], ◌∷◌, map}
use graph_streaming_cc.Binary.{capacity_4}
use graph_streaming_cc.Bucket.{Bucket, empty_bucket}
use graph_streaming_cc.Config.{Doubles, CcAlgConfiguration, new_cc_config, defaults}
use graph_streaming_cc.Sketch.{
  Sketch, shape_of, calc_vector_length, calc_bkt_per_col, ceil_log2_from, copy_sketch,
}
use graph_streaming_cc.Sketch.Binary.{Words, no_bucket, bucket}
use graph_streaming_cc.Sketch.Update.{Algorithm}
use graph_streaming_cc.Sketch.Update.Cells.{WellFormed}
use graph_streaming_cc.Cc.{CcSketchAlg, new_cc, default_cols_per_sample}
use graph_streaming_cc.Cc.Binary.{
  write_binary, reheated, construct_from_serialized_data, AllStored, no_sketch, sketch, Stored,
  construct-write_binary,
}

-- Words of doubles: 0 is the only one that is rejected, and 1 is the word 1.
abbrev doubles : Doubles
doubles = record {
  at_most_zero = λ x. x == 0;
  one = 1;
  one_law = refl;
  calc_cc_samples = λ n factor. factor;
  scale = λ num factor. num * factor;
}

-- The edge of the two vertices, in both sketches.
abbrev edge_bucket : Bucket
edge_bucket = record { alpha = 4294967296; gamma = 77 }

abbrev edge_sketch : Sketch
edge_sketch = record {
  shape = record {
    seed = 5;
    num_samples = 1;
    cols_per_sample = 1;
    num_columns = 1;
    bkt_per_col = 1;
    num_buckets = 2;
  };
  sample_idx = 1;
  buckets = empty_bucket ∷ edge_bucket ∷ [];
}

abbrev two_vertices : CcSketchAlg
two_vertices = record (new_cc Algorithm.cameo 2 5 1 (3 ∷ 4 ∷ [])) {
  sketches = edge_sketch ∷ edge_sketch ∷ [];
}

edge-Words : Words 4 (empty_bucket ∷ edge_bucket ∷ [])
edge-Words =
    bucket empty_bucket (edge_bucket ∷ []) (omega arith) (rw capacity_4 (omega arith))
      (bucket edge_bucket [] (omega arith) (rw capacity_4 (omega arith)) no_bucket)

edge_formed : WellFormed edge_sketch
edge_formed = record { columns = refl; rows = omega arith; total = refl; sized = refl }

stored_sketches : AllStored 4 doubles Algorithm.cameo 2 5 1 (edge_sketch ∷ edge_sketch ∷ [])
unfolding default_cols_per_sample calc_vector_length calc_bkt_per_col ceil_log2_from
stored_sketches =
    sketch edge_sketch (edge_sketch ∷ []) shaped edge_formed edge-Words
      (sketch edge_sketch [] shaped edge_formed edge-Words no_sketch)
  where
    shaped :
        edge_sketch.shape
        ≡ shape_of (calc_vector_length 2) 5 1 (default_cols_per_sample Algorithm.cameo)
    shaped = refl

two-Stored : Stored 4 doubles Algorithm.cameo (new_cc_config doubles) two_vertices
unfolding new_cc new_cc_config
two-Stored = record {
  seed_word = omega arith;
  vertices_word = omega arith;
  factor_word = omega arith;
  sized = refl;
  samples = refl;
  all_stored = stored_sketches;
}

-- Another configuration, whose factor the file replaces.
abbrev other : CcAlgConfiguration
other = record { disk_dir = []; sketches_factor = 3; batch_factor = 4 }

construct-write_binary_example :
    construct_from_serialized_data 4 doubles Algorithm.cameo
      (6 ∷ 9 ∷ [])
      (write_binary 4 doubles Algorithm.cameo (new_cc_config doubles) two_vertices)
      other
    ≡ some (
      reheated 4 doubles Algorithm.cameo
          (6 ∷ 9 ∷ [])
          2
          5
          1
          (map copy_sketch (edge_sketch ∷ edge_sketch ∷ [])),
      record other { sketches_factor = 1 },
    )
unfolding new_cc new_cc_config
construct-write_binary_example =
    construct-write_binary 4 doubles Algorithm.cameo (6 ∷ 9 ∷ []) (new_cc_config doubles) other
      two_vertices defaults two-Stored
