-- ===== src/Cc/Boruvka/Tests.antt =====
-- Queries of src/cc_sketch_alg.cpp on a graph of one vertex, whose sketches have no sample left.
use graph_streaming_cc.Prelude.{◌≡◌, refl, true, false, [], ◌∷◌}
use graph_streaming_cc.Bucket.{empty_bucket}
use graph_streaming_cc.Bucket.Tests.{test_hashes}
use graph_streaming_cc.Sketch.{Sketch, reset_sample_state}
use graph_streaming_cc.Sketch.Sample.{sample}
use graph_streaming_cc.Sketch.Update.{Algorithm}
use graph_streaming_cc.Dsu.{reset}
use graph_streaming_cc.Cc.{CcSketchAlg, apply_update_batch, update_locked_exception}
use graph_streaming_cc.Cc.Query.{
  after_sample, start_boruvka, reset_samples, sample_supernode, keep_sample, round_zero_step,
  round_zero_loop, run_round_zero,
}
use graph_streaming_cc.Cc.Round.{of_round_zero, perform_boruvka_round}
use graph_streaming_cc.Cc.Boruvka.{
  Choices, thrown, then_query, if_result, reset_after, by_except, boruvka_loop, boruvka_emulation,
  make_valid, connected_components,
}
use graph_streaming_cc.Cc.Boruvka.Locked.{connected_components_locks}

abbrev choices : Choices
choices = record {
  threads = 1;
  schedule = λ k. (0, []) ∷ [];
  claims = λ k. [];
  iterate = λ ccs. ccs;
}

-- One sample, which has been taken.
abbrev spent : Sketch
spent = record {
  shape = record {
    seed = 5;
    num_samples = 1;
    cols_per_sample = 1;
    num_columns = 1;
    bkt_per_col = 1;
    num_buckets = 2;
  };
  sample_idx = 1;
  buckets = empty_bucket ∷ empty_bucket ∷ [];
}

abbrev one_vertex : CcSketchAlg
one_vertex = record {
  num_vertices = 1;
  seed = 5;
  update_locked = false;
  representatives = 0 ∷ [];
  sketches = spent ∷ [];
  dsu = record { n = 1; parent = 0 ∷ []; priority = 7 ∷ [] };
  dsu_valid = false;
  shared_dsu_valid = false;
  spanning_forest = [] ∷ [];
  delta_sketches = [];
  num_samples = 1;
  last_query_rounds = 0;
}

-- What the exception leaves.
abbrev after_exception : CcSketchAlg
after_exception = record one_vertex {
  update_locked = true;
  sketches = record spent { sample_idx = 0 } ∷ [];
}

throws :
    connected_components test_hashes Algorithm.cube choices (0 ∷ []) one_vertex
    ≡ thrown after_exception
unfolding connected_components make_valid then_query reset_after boruvka_emulation boruvka_loop
    if_result by_except perform_boruvka_round of_round_zero run_round_zero round_zero_loop
    round_zero_step keep_sample sample_supernode after_sample sample start_boruvka reset_samples
    reset reset_sample_state
throws = refl

connected_components_locks_example :
    apply_update_batch test_hashes Algorithm.cube after_exception 0 0 [] ≡ update_locked_exception
connected_components_locks_example =
    connected_components_locks test_hashes Algorithm.cube choices (0 ∷ []) one_vertex
      after_exception 0 0 [] refl throws
