-- ===== src/Driver/Construct.antt =====
-- The constructor of include/graph_sketch_driver.h, with the guttering systems and their
-- configuration, which are of a library, as parameters, and `get_desired_updates_per_batch` of
-- include/cc_sketch_alg.h.
use graph_streaming_cc.Prelude.{
  ℕ, ◌+◌, ◌*◌, ◌/◌, ◌%◌, ◌^◌, ◌≤◌, ◌≡◌, Bool, not, ◌&&◌, ltb, ◌==◌, if◌then◌else◌, List, [], ◌∷◌,
  length, length-replicate,
}
use graph_streaming_cc.Config.{
  Doubles, CcAlgConfiguration, GutterSystem, DriverConfiguration, set_worker_threads,
  worker_threads_bound,
}
use graph_streaming_cc.Sketch.{Sketch}
use graph_streaming_cc.Sketch.Update.{Algorithm}
use graph_streaming_cc.Cc.{CcSketchAlg, allocate_worker_memory}

-- The configuration of a guttering system. `uninit_param` stands for a size that was not set.
pub record GutterConfig : Type 1 where
  pub GutteringConfiguration : Type 0
  pub get_gutter_bytes : GutteringConfiguration → ℕ
  pub gutter_bytes : ℕ → GutteringConfiguration → GutteringConfiguration
  pub uninit_param : ℕ

-- The calls of the constructors of the guttering systems.
pub data NewGutters (GutteringConfiguration : Type 0) : Type 0 where
  gutter_tree :
      (dir : List ℕ) (num_vertices workers : ℕ)
      → GutteringConfiguration
      → NewGutters GutteringConfiguration
  stand_alone_gutters cache_guttering :
      (num_vertices workers stream_threads : ℕ)
      → GutteringConfiguration
      → NewGutters GutteringConfiguration

-- 4 bytes for a vertex, 8 for an index, and those of a checksum.
pub get_desired_updates_per_batch : Doubles → ℕ → CcAlgConfiguration → Sketch → ℕ
get_desired_updates_per_batch doubles hash_bytes config first_sketch =
    doubles.scale (first_sketch.num_buckets * (8 + hash_bytes) / 4) config.batch_factor

module _ (gutter : GutterConfig) (alg : Algorithm) where
  pub record NewDriver : Type 0 where
    pub sketching_alg : CcSketchAlg
    pub gts : NewGutters gutter.GutteringConfiguration
    pub worker_threads : ℕ
    pub num_stream_threads : ℕ
    pub total_updates : ℕ

  -- `gutter_bytes`, if the size was not set.
  pub leaf_size : ℕ → gutter.GutteringConfiguration → gutter.GutteringConfiguration
  leaf_size desired conf =
      if gutter.get_gutter_bytes conf == gutter.uninit_param
      then gutter.gutter_bytes (desired * 4 % 2 ^ 64) conf
      else conf

  pub new_gutters :
      ℕ
      → (num_stream_threads : ℕ) → DriverConfiguration gutter.GutteringConfiguration
      → NewGutters gutter.GutteringConfiguration
  new_gutters num_vertices num_stream_threads config = elim config.gutter_sys [
    | GutterSystem.gutter_tree ↦
        gutter_tree (append_slash config.disk_dir) num_vertices config.num_worker_threads
          config.gutter_conf
    | GutterSystem.standalone ↦
        stand_alone_gutters num_vertices config.num_worker_threads num_stream_threads
          config.gutter_conf
    | GutterSystem.cache_tree ↦
        cache_guttering num_vertices config.num_worker_threads num_stream_threads config.gutter_conf
  ]
    where
      append_slash : List ℕ → List ℕ
      append_slash [] = 47 ∷ []
      append_slash (x ∷ xs) = x ∷ append_slash xs

  -- `desired` is what `get_desired_updates_per_batch` returns. The assignment after the warning is
  -- to the argument, which the member of the same name does not follow: the pair has the argument
  -- as it is at the end.
  pub new_driver :
      CcSketchAlg
      → (desired : ℕ) → DriverConfiguration gutter.GutteringConfiguration
      → (num_stream_threads : ℕ) → (update_is_thread_safe : Bool) → NewDriver × ℕ
  unfolding leaf_size new_gutters
  new_driver c desired config num_stream_threads update_is_thread_safe =
      let allocated = allocate_worker_memory alg c config.num_worker_threads in
      let config' : DriverConfiguration gutter.GutteringConfiguration = record config {
        gutter_conf = leaf_size desired config.gutter_conf;
      } in
      (
        record {
          sketching_alg = allocated;
          gts = new_gutters allocated.num_vertices num_stream_threads config';
          worker_threads = config.num_worker_threads;
          num_stream_threads = num_stream_threads;
          total_updates = 0;
        },
        if ltb 1 num_stream_threads && not update_is_thread_safe then 1 else num_stream_threads,
      )

  -- However many worker threads are asked for, there is one at least, and each has a delta sketch.
  new_driver_workers :
      (c : CcSketchAlg) (desired k num_stream_threads : ℕ)
      (config : DriverConfiguration gutter.GutteringConfiguration) (safe : Bool)
      → let d = (new_driver c desired (set_worker_threads k config) num_stream_threads safe).0 in
        (1 ≤ d.worker_threads) × (length d.sketching_alg.delta_sketches ≡ d.worker_threads)
  unfolding new_driver allocate_worker_memory
  new_driver_workers c desired k num_stream_threads config safe =
      (worker_threads_bound k config, length-replicate _ _)
