-- ===== src/Cc/Binary.antt =====
-- `write_binary` and `construct_from_serialized_data` of src/cc_sketch_alg.cpp, on the bytes of the
-- file.
pub mod Tests
use graph_streaming_cc.Prelude.{
  ℕ, zero, suc, ◌+◌, ◌*◌, ◌^◌, ◌<◌, ◌≡◌, refl, sym, ap, subst, ◌∙◌, ◌>>=◌, true, false, Option,
  none, some, List, [], ◌∷◌, ◌++◌, map, length, replicate, range_from,
}
use graph_streaming_cc.Binary.{
  capacity, write_word, read_word, read-write_word, capacity_4, capacity_8,
}
use graph_streaming_cc.Config.{
  Doubles, CcAlgConfiguration, set_sketches_factor, Configured, Configured-InBounds,
  set_sketches_factor-kept,
}
use graph_streaming_cc.Sketch.{Shape, Sketch, shape_of, calc_vector_length, copy_sketch}
use graph_streaming_cc.Sketch.Binary.{
  Words, serialize, read_sketch, read_sketch-serialize, append_assoc,
}
use graph_streaming_cc.Sketch.Update.{Algorithm}
use graph_streaming_cc.Sketch.Update.Cells.{WellFormed}
use graph_streaming_cc.Dsu.{new_dsu}
use graph_streaming_cc.Cc.{CcSketchAlg, default_cols_per_sample}

module _ (hash_bytes : ℕ) (doubles : Doubles) (alg : Algorithm) where
  pub write_sketches : List Sketch → List ℕ
  write_sketches [] = []
  write_sketches (s ∷ sketches) = serialize hash_bytes s ++ write_sketches sketches

  pub write_binary : CcAlgConfiguration → CcSketchAlg → List ℕ
  unfolding write_sketches
  write_binary config c =
      write_word 8 c.seed
      ++ (write_word 4 c.num_vertices
          ++ (write_word 8 config.sketches_factor ++ write_sketches c.sketches))

  pub read_sketches : ℕ → (num_vertices seed samples : ℕ) → List ℕ → Option (List Sketch × List ℕ)
  read_sketches zero num_vertices seed samples input = some ([], input)
  read_sketches (suc n) num_vertices seed samples input = do
    (s, input) ←
        read_sketch hash_bytes (calc_vector_length num_vertices) seed samples
          (default_cols_per_sample alg) input
    (sketches, input) ← read_sketches n num_vertices seed samples input
    some (s ∷ sketches, input)

  -- The fields of the private constructor, with the sketches that it has read.
  pub reheated : (prio : List ℕ) (num_vertices seed samples : ℕ) → List Sketch → CcSketchAlg
  reheated prio num_vertices seed samples sketches = record {
    num_vertices = num_vertices;
    seed = seed;
    update_locked = false;
    representatives = range_from 0 num_vertices;
    sketches = sketches;
    dsu = new_dsu prio num_vertices;
    dsu_valid = false;
    shared_dsu_valid = false;
    spanning_forest = replicate num_vertices [];
    delta_sketches = [];
    num_samples = samples;
    last_query_rounds = 0;
  }

  -- The private constructor, which reads the sketches from the stream.
  pub new_from_stream :
      (prio : List ℕ) (num_vertices seed : ℕ)
      → List ℕ
      → CcAlgConfiguration
      → Option (CcSketchAlg × CcAlgConfiguration)
  unfolding read_sketches reheated
  new_from_stream prio num_vertices seed input config =
      let samples = doubles.calc_cc_samples num_vertices config.sketches_factor in
      do
        (sketches, _) ← read_sketches num_vertices num_vertices seed samples input
        some (reheated prio num_vertices seed samples sketches, config)

  -- With the bytes of the file, and the priorities that the new `dsu` draws.
  pub construct_from_serialized_data :
      (prio : List ℕ) → List ℕ → CcAlgConfiguration → Option (CcSketchAlg × CcAlgConfiguration)
  unfolding new_from_stream
  construct_from_serialized_data prio input config = do
    (seed, input) ← read_word 8 input
    (num_vertices, input) ← read_word 4 input
    (sketches_factor, input) ← read_word 8 input
    new_from_stream prio num_vertices seed input
        (set_sketches_factor doubles sketches_factor config)

  -- Sketches of the graph, with words for their buckets.
  pub data AllStored (num_vertices seed samples : ℕ) : List Sketch → Type 0 where
    no_sketch : AllStored num_vertices seed samples []
    sketch :
        (s : Sketch) (sketches : List Sketch)
        → s.shape
          ≡ shape_of (calc_vector_length num_vertices) seed samples (default_cols_per_sample alg)
        → WellFormed s
        → Words hash_bytes s.buckets
        → AllStored num_vertices seed samples sketches
        → AllStored num_vertices seed samples (s ∷ sketches)

  -- The state's members fit their words, and its sketches are those of its constructor.
  pub record Stored (config : CcAlgConfiguration) (c : CcSketchAlg) : Type 0 where
    pub seed_word : c.seed < 2 ^ 64
    pub vertices_word : c.num_vertices < 2 ^ 32
    pub factor_word : config.sketches_factor < 2 ^ 64
    pub sized : length c.sketches ≡ c.num_vertices
    pub samples : c.num_samples ≡ doubles.calc_cc_samples c.num_vertices config.sketches_factor
    pub all_stored : AllStored c.num_vertices c.seed c.num_samples c.sketches

  read-write_sketches :
      (num_vertices seed samples : ℕ) (sketches : List Sketch)
      → AllStored num_vertices seed samples sketches
      → (rest : List ℕ)
      → read_sketches (length sketches) num_vertices seed samples (write_sketches sketches ++ rest)
        ≡ some (map copy_sketch sketches, rest)
  unfolding read_sketches write_sketches
  read-write_sketches num_vertices seed samples [] no_sketch rest = refl
  read-write_sketches num_vertices seed samples (s ∷ sketches) (sketch _ _ shaped formed words more)
        rest =
      rw
        (
          append_assoc hash_bytes (serialize hash_bytes s) (write_sketches sketches) rest,
          read_sketch-serialize hash_bytes (calc_vector_length num_vertices) seed samples
              (default_cols_per_sample alg) s (write_sketches sketches ++ rest) shaped formed words,
          read-write_sketches num_vertices seed samples sketches more rest,
        )
        refl

  append_nil : (xs : List ℕ) → xs ++ [] ≡ xs
  append_nil [] = refl
  append_nil (x ∷ xs) = ap (λ t. x ∷ t) (append_nil xs)

  -- Take a state whose members fit their words and whose sketches are of the shape of its
  -- constructor's, with a configuration that the setters have made. Written to a file and read
  -- again with any configuration, it has the same vertices, seed and number of samples and
  -- copies of all sketches, which have all their samples ahead of them; the factor of the file
  -- replaces that of the configuration. The disjoint sets are new and not valid.
  pub construct-write_binary :
      (prio : List ℕ) (config other : CcAlgConfiguration) (c : CcSketchAlg)
      → Configured doubles config
      → Stored config c
      → construct_from_serialized_data prio (write_binary config c) other
        ≡ some (
          reheated prio c.num_vertices c.seed c.num_samples (map copy_sketch c.sketches),
          record other { sketches_factor = config.sketches_factor },
        )
  unfolding construct_from_serialized_data new_from_stream write_binary
  construct-write_binary prio config other c made h =
      let sketches_back : read_sketches c.num_vertices c.num_vertices c.seed c.num_samples
            (write_sketches c.sketches)
          ≡ some (map copy_sketch c.sketches, []) =
        subst
          (λ k.
            read_sketches k c.num_vertices c.seed c.num_samples (write_sketches c.sketches)
            ≡ some (map copy_sketch c.sketches, []))
          h.sized
          (subst
            (λ input.
              read_sketches (length c.sketches) c.num_vertices c.seed c.num_samples input
              ≡ some (map copy_sketch c.sketches, []))
            (append_nil (write_sketches c.sketches))
            (read-write_sketches c.num_vertices c.seed c.num_samples c.sketches h.all_stored [])) in
      rw
        (
          read-write_word 8 c.seed
              (write_word 4 c.num_vertices
                ++ (write_word 8 config.sketches_factor ++ write_sketches c.sketches))
              (subst (λ t. c.seed < t) (sym capacity_8) h.seed_word),
          read-write_word 4 c.num_vertices
              (write_word 8 config.sketches_factor ++ write_sketches c.sketches)
              (subst (λ t. c.num_vertices < t) (sym capacity_4) h.vertices_word),
          read-write_word 8 config.sketches_factor (write_sketches c.sketches)
              (subst (λ t. config.sketches_factor < t) (sym capacity_8) h.factor_word),
          set_sketches_factor-kept doubles config.sketches_factor other
              (Configured-InBounds doubles made).sketches,
          sym h.samples,
          sketches_back,
        )
        refl
