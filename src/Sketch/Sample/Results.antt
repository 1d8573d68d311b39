-- ===== src/Sketch/Sample/Results.antt =====
-- What `Sketch::sample` returns.
use graph_streaming_cc.Prelude.{
  ℕ, suc, ◌-◌, ◌≤◌, ◌<◌, ◌≡◌, ◌≢◌, refl, sym, ap, ◌∙◌, ◌⊎◌, inl, inr, ⊎_elim, arith, leb,
  Bool-cases, List, [], ◌∷◌,
}
use graph_streaming_cc.Bucket.{Hashes, empty_bucket, get_index_hash, is_good}
use graph_streaming_cc.Bucket.Group.{⊕-empty}
use graph_streaming_cc.Sketch.{
  Shape, Sketch, SampleResult, returned, out_of_samples, bucket_at, checksum_seed,
}
use graph_streaming_cc.Sketch.Sample.{query, sample}
use graph_streaming_cc.Sketch.Update.{Algorithm, update_all}
use graph_streaming_cc.Sketch.Update.Contents.{contribution, contribution_last, total}
use graph_streaming_cc.Sketch.Update.Linear.{SameVector, total-SameVector, IsFresh, bucket_at-fresh}
use graph_streaming_cc.Sketch.Update.Streams.{shape-update_all, sample_idx-update_all}

module _ (hashes : Hashes) where
  -- The exception is thrown exactly when the samples are used up, and its call changes nothing;
  -- any other call counts one sample and leaves the buckets alone.
  pub sample_lem :
      (s : Sketch)
      → (s.num_samples ≤ s.sample_idx)
          × (sample hashes s ≡ out_of_samples s.seed s.num_samples s.sample_idx)
        ⊎ (s.sample_idx < s.num_samples)
          × (sample hashes s
              ≡ returned (record s { sample_idx = suc s.sample_idx }, query hashes s s.sample_idx))
  unfolding sample
  sample_lem s = elim (Bool-cases (leb s.num_samples s.sample_idx)) [
    | inl e ↦ inl (ground arith, rw e)
    | inr e ↦ inr (ground arith, rw e)
  ]

  query_empty :
      (s : Sketch) (k : ℕ)
      → bucket_at s (s.num_buckets - 1) ≡ empty_bucket
      → query hashes s k ≡ record { idx = 0; result = SampleResult.zero }
  unfolding query
  query_empty s k e = rw e

  query_single :
      (s : Sketch) (k x : ℕ)
      → bucket_at s (s.num_buckets - 1)
        ≡ record { alpha = x; gamma = get_index_hash hashes x (checksum_seed s.shape) }
      → (x ≢ 0) ⊎ (get_index_hash hashes x (checksum_seed s.shape) ≢ 0)
      → query hashes s k ≡ record { idx = x; result = SampleResult.good }
  unfolding query is_good
  query_single s k x e nonzero = rw e (ground arith)

  module _ (alg : Algorithm) where
    last_bucket :
        (s : Sketch) (xs : List ℕ)
        → IsFresh s
        → bucket_at (update_all hashes alg s xs) ((update_all hashes alg s xs).num_buckets - 1)
          ≡ total hashes alg s.shape xs (s.num_buckets - 1)
    last_bucket s xs f =
        rw (shape-update_all hashes alg s xs)
          (bucket_at-fresh hashes alg s xs (s.num_buckets - 1) f (omega (arith, f.formed.total)))

    total_single :
        (s : Sketch) (x : ℕ)
        → total hashes alg s.shape (x ∷ []) (s.num_buckets - 1)
          ≡ record { alpha = x; gamma = get_index_hash hashes x (checksum_seed s.shape) }
    unfolding total
    total_single s x =
        ⊕-empty (contribution hashes alg s.shape x (s.num_buckets - 1))
        ∙ contribution_last hashes alg s.shape x (s.num_buckets - 1) refl

    query-zero :
        (s : Sketch) (xs : List ℕ) (k : ℕ)
        → IsFresh s
        → SameVector xs []
        → query hashes (update_all hashes alg s xs) k
          ≡ record { idx = 0; result = SampleResult.zero }
    unfolding total
    query-zero s xs k f same =
        query_empty (update_all hashes alg s xs) k
          (last_bucket s xs f ∙ total-SameVector hashes alg s.shape (s.num_buckets - 1) xs [] same)

    query-good :
        (s : Sketch) (xs : List ℕ) (k x : ℕ)
        → IsFresh s
        → SameVector xs (x ∷ [])
        → (x ≢ 0) ⊎ (get_index_hash hashes x (checksum_seed s.shape) ≢ 0)
        → query hashes (update_all hashes alg s xs) k
          ≡ record { idx = x; result = SampleResult.good }
    query-good s xs k x f same nonzero =
        query_single (update_all hashes alg s xs) k x
          (last_bucket s xs f
            ∙ total-SameVector hashes alg s.shape (s.num_buckets - 1) xs (x ∷ []) same
            ∙ total_single s x
            ∙ ap
                (λ (t : Shape). record {
                  alpha = x;
                  gamma = get_index_hash hashes x (checksum_seed t);
                })
                (sym (shape-update_all hashes alg s xs)))
          (rw (shape-update_all hashes alg s xs) nonzero)

    sample_first :
        (s : Sketch) (xs : List ℕ)
        → IsFresh s
        → 0 < s.num_samples
        → sample hashes (update_all hashes alg s xs)
          ≡ returned (
            record (update_all hashes alg s xs) { sample_idx = 1 },
            query hashes (update_all hashes alg s xs) 0,
          )
    sample_first s xs f some_samples =
        let t = update_all hashes alg s xs in
        let none_taken : t.sample_idx ≡ 0 = sample_idx-update_all hashes alg s xs ∙ f.unused in
        let samples : t.num_samples ≡ s.num_samples =
          ap (λ (z : Shape). z.num_samples) (shape-update_all hashes alg s xs) in
        ⊎_elim (λ h. absurd (omega (arith, h.0)))
          (λ h.
            h.1
            ∙ ap (λ (k : ℕ). returned (record t { sample_idx = suc k }, query hashes t k))
                none_taken)
          (sample_lem t)

    -- The first sample of a sketch that started fresh, with samples to take, and whose stream has the
    -- empty vector reports that there is nothing to return.
    pub sample-zero :
        (s : Sketch) (xs : List ℕ)
        → IsFresh s
        → 0 < s.num_samples
        → SameVector xs []
        → sample hashes (update_all hashes alg s xs)
          ≡ returned (
            record (update_all hashes alg s xs) { sample_idx = 1 },
            record { idx = 0; result = SampleResult.zero },
          )
    sample-zero s xs f some_samples same =
        sample_first s xs f some_samples
        ∙ ap (λ t. returned (record (update_all hashes alg s xs) { sample_idx = 1 }, t))
            (query-zero s xs 0 f same)

    -- The first sample of a sketch that started fresh, with samples to take, and whose stream has the
    -- vector of the one index x, returns x, if x or its checksum is not zero, whatever the stream and
    -- the hash functions.
    pub sample-good :
        (s : Sketch) (xs : List ℕ) (x : ℕ)
        → IsFresh s
        → 0 < s.num_samples
        → SameVector xs (x ∷ [])
        → (x ≢ 0) ⊎ (get_index_hash hashes x (checksum_seed s.shape) ≢ 0)
        → sample hashes (update_all hashes alg s xs)
          ≡ returned (
            record (update_all hashes alg s xs) { sample_idx = 1 },
            record { idx = x; result = SampleResult.good },
          )
    sample-good s xs x f some_samples same nonzero =
        sample_first s xs f some_samples
        ∙ ap (λ t. returned (record (update_all hashes alg s xs) { sample_idx = 1 }, t))
            (query-good s xs 0 x f same nonzero)
