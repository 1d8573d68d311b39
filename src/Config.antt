-- ===== src/Config.antt =====
-- src/cc_alg_configuration.cpp and src/driver_configuration.cpp with their headers: the setters,
-- which put a default in the place of a value out of bounds.
use graph_streaming_cc.Prelude.{
  ℕ, ◌≡◌, ◌≤◌, refl, arith, Bool, false, if◌then◌else◌, ltb, List, [], ◌∷◌, Bool-cases, inl, inr,
  ltb-false→le,
}

-- Floating-point numbers, as the words that hold them: the test `<= 0`, the constant 1, which it
-- rejects, the number of samples that `calc_cc_samples` computes, and the product with an integer,
-- cut to a whole 64-bit word.
pub record Doubles : Type 0 where
  pub at_most_zero : ℕ → Bool
  pub one : ℕ
  pub one_law : at_most_zero one ≡ false
  pub calc_cc_samples : (num_vertices factor : ℕ) → ℕ
  pub scale : (num factor : ℕ) → ℕ

-- A directory name is the list of its bytes.
pub record CcAlgConfiguration : Type 0 where
  pub disk_dir : List ℕ
  pub sketches_factor : ℕ
  pub batch_factor : ℕ

pub data GutterSystem : Type 0 where
  gutter_tree standalone cache_tree : GutterSystem

-- The configuration of the guttering system is of a type of its library.
pub record DriverConfiguration (GutteringConfiguration : Type 0) : Type 0 where
  pub gutter_sys : GutterSystem
  pub disk_dir : List ℕ
  pub num_worker_threads : ℕ
  pub gutter_conf : GutteringConfiguration

-- "."
abbrev pub here : List ℕ
here = 46 ∷ []

module _ (doubles : Doubles) where
  unfoldable pub new_cc_config : CcAlgConfiguration
  new_cc_config = record {
    disk_dir = here;
    sketches_factor = doubles.one;
    batch_factor = doubles.one;
  }

  pub set_disk_dir : List ℕ → CcAlgConfiguration → CcAlgConfiguration
  set_disk_dir disk_dir config = record config { disk_dir = disk_dir }

  pub set_sketches_factor : ℕ → CcAlgConfiguration → CcAlgConfiguration
  set_sketches_factor factor config =
      let set = record config { sketches_factor = factor } in
      if doubles.at_most_zero set.sketches_factor
      then record set { sketches_factor = doubles.one }
      else set

  pub set_batch_factor : ℕ → CcAlgConfiguration → CcAlgConfiguration
  set_batch_factor factor config =
      let set = record config { batch_factor = factor } in
      if doubles.at_most_zero set.batch_factor
      then record set { batch_factor = doubles.one }
      else set

  pub set_sketches_factor-kept :
      (factor : ℕ) (config : CcAlgConfiguration)
      → doubles.at_most_zero factor ≡ false
      → set_sketches_factor factor config ≡ record config { sketches_factor = factor }
  unfolding set_sketches_factor
  set_sketches_factor-kept factor config fine = rw fine refl

  -- The configurations that the setters make.
  pub data Configured : CcAlgConfiguration → Type 0 where
    defaults : Configured new_cc_config
    sets_disk_dir :
        (dir : List ℕ) (config : CcAlgConfiguration)
        → Configured config
        → Configured (set_disk_dir dir config)
    sets_sketches_factor :
        (factor : ℕ) (config : CcAlgConfiguration)
        → Configured config
        → Configured (set_sketches_factor factor config)
    sets_batch_factor :
        (factor : ℕ) (config : CcAlgConfiguration)
        → Configured config
        → Configured (set_batch_factor factor config)

  -- Both factors are in bounds.
  pub record InBounds (config : CcAlgConfiguration) : Type 0 where
    pub sketches : doubles.at_most_zero config.sketches_factor ≡ false
    pub batch : doubles.at_most_zero config.batch_factor ≡ false

  set_sketches_factor-InBounds :
      (factor : ℕ) (config : CcAlgConfiguration)
      → InBounds config
      → InBounds (set_sketches_factor factor config)
  unfolding set_sketches_factor
  set_sketches_factor-InBounds factor config h = elim (Bool-cases (doubles.at_most_zero factor)) [
    | inl low ↦ rw low (record { sketches = doubles.one_law; batch = h.batch })
    | inr fine ↦ rw fine (record { sketches = fine; batch = h.batch })
  ]

  set_batch_factor-InBounds :
      (factor : ℕ) (config : CcAlgConfiguration)
      → InBounds config
      → InBounds (set_batch_factor factor config)
  unfolding set_batch_factor
  set_batch_factor-InBounds factor config h = elim (Bool-cases (doubles.at_most_zero factor)) [
    | inl low ↦ rw low (record { sketches = h.sketches; batch = doubles.one_law })
    | inr fine ↦ rw fine (record { sketches = h.sketches; batch = fine })
  ]

  -- Whatever the setters are called with, both factors stay above zero.
  pub Configured-InBounds : {config : CcAlgConfiguration} → Configured config → InBounds config
  unfolding new_cc_config set_disk_dir
  Configured-InBounds defaults = record { sketches = doubles.one_law; batch = doubles.one_law }
  Configured-InBounds (sets_disk_dir dir config c) =
      let h = Configured-InBounds c in record { sketches = h.sketches; batch = h.batch }
  Configured-InBounds (sets_sketches_factor factor config c) =
      set_sketches_factor-InBounds factor config (Configured-InBounds c)
  Configured-InBounds (sets_batch_factor factor config c) =
      set_batch_factor-InBounds factor config (Configured-InBounds c)

module _ {GutteringConfiguration : Type 0} where
  pub new_driver_config : GutteringConfiguration → DriverConfiguration GutteringConfiguration
  new_driver_config conf = record {
    gutter_sys = GutterSystem.standalone;
    disk_dir = here;
    num_worker_threads = 1;
    gutter_conf = conf;
  }

  pub set_gutter_sys :
      GutterSystem
      → DriverConfiguration GutteringConfiguration
      → DriverConfiguration GutteringConfiguration
  set_gutter_sys sys config = record config { gutter_sys = sys }

  pub set_driver_disk_dir :
      List ℕ
      → DriverConfiguration GutteringConfiguration
      → DriverConfiguration GutteringConfiguration
  set_driver_disk_dir dir config = record config { disk_dir = dir }

  pub set_worker_threads :
      ℕ → DriverConfiguration GutteringConfiguration → DriverConfiguration GutteringConfiguration
  set_worker_threads num_worker_threads config =
      let set = record config { num_worker_threads = num_worker_threads } in
      if ltb set.num_worker_threads 1 then record set { num_worker_threads = 1 } else set

  -- There is a worker thread, whatever number is asked for.
  pub worker_threads_bound :
      (k : ℕ) (config : DriverConfiguration GutteringConfiguration)
      → 1 ≤ (set_worker_threads k config).num_worker_threads
  unfolding set_worker_threads
  worker_threads_bound k config = elim (Bool-cases (ltb k 1)) [
    | inl low ↦ rw low (omega arith)
    | inr fine ↦ rw fine (ltb-false→le k 1 fine)
  ]
