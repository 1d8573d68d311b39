-- ===== src/Cc/Query/Flags.antt =====
-- What `sample_supernode` and `run_round_zero` (src/cc_sketch_alg.cpp) leave alone, and what a
-- sketch gives whose samples are spent or that is empty.
use graph_streaming_cc.Prelude.{
  ℕ, suc, ◌-◌, ◌≤◌, ◌≡◌, refl, sym, ap, subst, ◌∙◌, ◌⊎◌, inl, inr, arith, Bool, true, false, ltb,
  List, [], ◌∷◌, Bool-cases, Always, no_result, result, Always-map, Always-bind, Always-if,
  Always-any,
}
use graph_streaming_cc.Util.{Edge, inv_concat_pairing_fn}
use graph_streaming_cc.Bucket.{Hashes}
use graph_streaming_cc.Sketch.{Sketch, SampleResult, SketchSample, bucket_at}
use graph_streaming_cc.Sketch.Sample.{is_empty, query}
use graph_streaming_cc.Sketch.Sample.Results.{sample_lem}
use graph_streaming_cc.Sketch.Update.{Algorithm}
use graph_streaming_cc.Dsu.{Dsu, DsuMergeRet, merge_mt}
use graph_streaming_cc.Cc.{CcSketchAlg, empty_sketch}
use graph_streaming_cc.Cc.Query.{
  Supernode, sampled_edge, merge_sample, use_sample, after_sample, sample_supernode, start_boruvka,
  reset_samples, RoundState, keep_sample, round_zero_step, round_zero_loop, run_round_zero,
}

-- The members that a round does not touch.
pub record SameFlags (c c' : CcSketchAlg) : Type 0 where
  pub locked : c'.update_locked ≡ c.update_locked
  pub valid : c'.dsu_valid ≡ c.dsu_valid
  pub shared_valid : c'.shared_dsu_valid ≡ c.shared_dsu_valid
  pub vertices : c'.num_vertices ≡ c.num_vertices
  pub seeds : c'.seed ≡ c.seed
  pub samples : c'.num_samples ≡ c.num_samples

pub SameFlags-refl : (c : CcSketchAlg) → SameFlags c c
SameFlags-refl c = record {
  locked = refl;
  valid = refl;
  shared_valid = refl;
  vertices = refl;
  seeds = refl;
  samples = refl;
}

pub SameFlags-trans : {a b c : CcSketchAlg} → SameFlags a b → SameFlags b c → SameFlags a c
SameFlags-trans p q = record {
  locked = q.locked ∙ p.locked;
  valid = q.valid ∙ p.valid;
  shared_valid = q.shared_valid ∙ p.shared_valid;
  vertices = q.vertices ∙ p.vertices;
  seeds = q.seeds ∙ p.seeds;
  samples = q.samples ∙ p.samples;
}

-- Every sample of the sketch throws or is empty.
unfoldable pub Silent : Sketch → Type 0
Silent s = (s.num_samples ≤ s.sample_idx) ⊎ (is_empty (bucket_at s (s.num_buckets - 1)) ≡ true)

-- What a call of `sample_supernode` keeps.
pub record Sampling (c : CcSketchAlg) (skt : Sketch) (s : Supernode) : Type 0 where
  pub flags : SameFlags c s.state
  pub shaped : s.skt.shape ≡ skt.shape
  pub silent : Silent skt → Silent s.skt
  pub unmodified : Silent skt → s.modified ≡ false

module _ (hashes : Hashes) (alg : Algorithm) where
  query-empty :
      (s : Sketch) (k : ℕ)
      → is_empty (bucket_at s (s.num_buckets - 1)) ≡ true
      → query hashes s k ≡ record { idx = 0; result = SampleResult.zero }
  unfolding query
  query-empty s k e = rw e refl

  module _ (failures : List Bool) (c : CcSketchAlg) (skt : Sketch) where
    abbrev taken : Sketch
    taken = record skt { sample_idx = suc skt.sample_idx }

    taken-Silent : Silent skt → Silent taken
    unfolding Silent
    taken-Silent (inl spent) = inl (omega arith)
    taken-Silent (inr empty) = inr empty

    sampled_edge-flags :
        (e : Edge) (p : Dsu × DsuMergeRet) → SameFlags c (sampled_edge c taken e p).state
    unfolding sampled_edge
    sampled_edge-flags e (d, ret) = elim (Bool-cases ret.merged) [
      | inl m ↦ rw m (record {
        locked = refl;
        valid = refl;
        shared_valid = refl;
        vertices = refl;
        seeds = refl;
        samples = refl;
      })
      | inr m ↦ rw m (record {
        locked = refl;
        valid = refl;
        shared_valid = refl;
        vertices = refl;
        seeds = refl;
        samples = refl;
      })
    ]

    sampled_edge-taken : (e : Edge) (p : Dsu × DsuMergeRet) → (sampled_edge c taken e p).skt ≡ taken
    unfolding sampled_edge
    sampled_edge-taken e (d, ret) = ground arith

    -- The three results of a sample that is not a good one of a silent sketch.
    by_result :
        (idx : ℕ) (r : SampleResult)
        → (Silent skt → r ≡ SampleResult.zero)
        → Always (Sampling c skt) (use_sample failures c taken idx r)
    unfolding use_sample merge_sample
    by_result idx SampleResult.fail h = result _ (record {
      flags = SameFlags-refl c;
      shaped = refl;
      silent = taken-Silent;
      unmodified = λ q. absurd (fail≢zero (h q));
    })
      where
        fail≢zero : ¬ (SampleResult.fail ≡ SampleResult.zero)
        fail≢zero e = cc
    by_result idx SampleResult.zero h = result _ (record {
      flags = SameFlags-refl c;
      shaped = refl;
      silent = taken-Silent;
      unmodified = λ q. refl;
    })
    by_result idx SampleResult.good h =
        let e = inv_concat_pairing_fn idx in
        Always-if (ltb e.src c.dsu.n) _ _
          (λ _.
            Always-if (ltb e.dst c.dsu.n) _ _
              (λ _.
                Always-map (sampled_edge c taken e) _
                  (Always-any (merge_mt failures c.dsu e.src e.dst))
                  (λ p _. record {
                    flags = sampled_edge-flags e p;
                    shaped = ap (λ (s : Sketch). s.shape) (sampled_edge-taken e p);
                    silent = λ q. subst Silent (sym (sampled_edge-taken e p)) (taken-Silent q);
                    unmodified = λ q. absurd (good≢zero (h q));
                  }))
              (λ _. no_result))
          (λ _. no_result)
      where
        good≢zero : ¬ (SampleResult.good ≡ SampleResult.zero)
        good≢zero e = cc

    pub sample_supernode-Sampling :
        Always (Sampling c skt) (sample_supernode hashes alg failures c skt)
    unfolding sample_supernode after_sample Silent
    sample_supernode-Sampling = elim (sample_lem hashes skt) [
      | inl (_, out) ↦
          subst (λ z. Always (Sampling c skt) (after_sample failures c skt z)) (sym out)
            (result _ (record {
              flags = SameFlags-refl c;
              shaped = refl;
              silent = λ q. q;
              unmodified = λ q. refl;
            }))
      | inr (more, taking) ↦
          subst (λ z. Always (Sampling c skt) (after_sample failures c skt z)) (sym taking)
            (by_result (query hashes skt skt.sample_idx).idx
              (query hashes skt skt.sample_idx).result (empty_result more))
    ]
      where
        empty_result :
            suc skt.sample_idx ≤ skt.num_samples
            → Silent skt
            → (query hashes skt skt.sample_idx).result ≡ SampleResult.zero
        empty_result more q = elim q [
          | inl spent ↦ absurd (omega arith)
          | inr empty ↦ ap (λ (s : SketchSample). s.result) (query-empty skt skt.sample_idx empty)
        ]

  round_zero-flags :
      (c : CcSketchAlg) (r : RoundState hashes alg) (order : List (ℕ × List Bool))
      → SameFlags c r.state
      → Always
          (λ (r' : RoundState hashes alg). SameFlags c r'.state)
          (round_zero_loop hashes alg r order)
  unfolding round_zero_loop round_zero_step keep_sample
  round_zero-flags c r [] f = result r f
  round_zero-flags c r ((i, failures) ∷ rest) f =
      Always-bind (round_zero_step hashes alg r i failures) _
        (Always-map (keep_sample hashes alg r i) _ (sample_supernode-Sampling failures r.state _)
          (λ s h. SameFlags-trans f (
            SameFlags-trans h.flags (record {
              locked = refl;
              valid = refl;
              shared_valid = refl;
              vertices = refl;
              seeds = refl;
              samples = refl;
            }))))
        (λ r' g. round_zero-flags c r' rest g)

  pub run_round_zero-flags :
      (c : CcSketchAlg) (order : List (ℕ × List Bool))
      → Always
          (λ (r : RoundState hashes alg). SameFlags c r.state)
          (run_round_zero hashes alg c order)
  unfolding run_round_zero
  run_round_zero-flags c order = round_zero-flags c _ order (SameFlags-refl c)

-- A query that starts holds the lock.
pub start_boruvka-locked : (c : CcSketchAlg) → (start_boruvka c).update_locked ≡ true
unfolding start_boruvka
start_boruvka-locked c = refl

pub start_boruvka-num_vertices : (c : CcSketchAlg) → (start_boruvka c).num_vertices ≡ c.num_vertices
unfolding start_boruvka
start_boruvka-num_vertices c = refl

pub start_boruvka-num_samples : (c : CcSketchAlg) → (start_boruvka c).num_samples ≡ c.num_samples
unfolding start_boruvka
start_boruvka-num_samples c = refl

pub start_boruvka-empty_sketch :
    (hashes : Hashes) (alg : Algorithm) (c : CcSketchAlg)
    → empty_sketch hashes alg (start_boruvka c) ≡ empty_sketch hashes alg c
unfolding start_boruvka
start_boruvka-empty_sketch hashes alg c = refl

pub reset_samples-flags : (c : CcSketchAlg) → SameFlags c (reset_samples c)
unfolding reset_samples
reset_samples-flags c = record {
  locked = refl;
  valid = refl;
  shared_valid = refl;
  vertices = refl;
  seeds = refl;
  samples = refl;
}

pub reset_samples-rounds :
    (c : CcSketchAlg) → (reset_samples c).last_query_rounds ≡ c.last_query_rounds
unfolding reset_samples
reset_samples-rounds c = refl
