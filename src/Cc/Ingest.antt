-- ===== src/Cc/Ingest.antt =====
-- The batches of `CCSketchAlg::apply_update_batch` (src/cc_sketch_alg.cpp) and the sketches that
-- they leave.
use graph_streaming_cc.Prelude.{
  ℕ, ◌<◌, ◌≡◌, ◌≢◌, refl, sym, ap, subst, ◌∙◌, inl, inr, true, false, ◌==◌, if◌then◌else◌, List, [],
  ◌∷◌, ◌++◌, map, foldl, get_or, modify, length, length-modify, get_or-modify_self,
  get_or-modify_ne, modify-All, get_or-replicate, eq-or-ne, eq→==, ne→==-false, lt→ltb,
}
use graph_streaming_cc.Util.{concat_pairing_fn}
use graph_streaming_cc.Bucket.{Hashes}
use graph_streaming_cc.Sketch.{Sketch, merge, zero_contents, new_sketch, calc_vector_length}
use graph_streaming_cc.Sketch.Fresh.{
  new_sketch-IsFresh, zero_contents-IsFresh, shape-zero_contents, merge-WellFormed,
}
use graph_streaming_cc.Sketch.Merge.{shape-merge}
use graph_streaming_cc.Sketch.Update.{Algorithm, update, update_all}
use graph_streaming_cc.Sketch.Update.Cells.{WellFormed}
use graph_streaming_cc.Sketch.Update.Contents.{update_all-WellFormed}
use graph_streaming_cc.Sketch.Update.Linear.{SameVector}
use graph_streaming_cc.Sketch.Update.Streams.{
  shape-update_all, merge-update_all, update_all-SameVector, update_all-append,
}
use graph_streaming_cc.Cc.{
  CcSketchAlg, done, update_locked_exception, and_then, Batch, empty_sketch, vertex_sketch,
  apply_update_batch, apply_batches, new_cc, allocate_worker_memory, default_cols_per_sample,
}

-- The indices that batches apply to a vertex.
unfoldable pub indices_for : ℕ → List Batch → List ℕ
indices_for v [] = []
indices_for v (b ∷ bs) =
    if b.src_vertex == v
    then map (concat_pairing_fn b.src_vertex) b.dst_vertices ++ indices_for v bs
    else indices_for v bs

-- The vertex of every batch is one of the graph, and its thread has a delta sketch.
pub data InGraph (n threads : ℕ) : List Batch → Type 0 where
  no_batch : InGraph n threads []
  batch :
      (b : Batch) (bs : List Batch)
      → b.src_vertex < n
      → b.thr_id < threads
      → InGraph n threads bs
      → InGraph n threads (b ∷ bs)

module _ (hashes : Hashes) (alg : Algorithm) where
  abbrev pub sketch_at : CcSketchAlg → ℕ → Sketch
  sketch_at c v = get_or c.sketches v (empty_sketch hashes alg c)

  abbrev pub delta_at : CcSketchAlg → ℕ → Sketch
  delta_at c thr = get_or c.delta_sketches thr (empty_sketch hashes alg c)

  -- Every sketch of the graph has the shape that the constructor gives.
  pub record Fits (c : CcSketchAlg) : Type 0 where
    pub formed : (v : ℕ) → WellFormed (sketch_at c v)
    pub shaped : (v : ℕ) → (sketch_at c v).shape ≡ (empty_sketch hashes alg c).shape
    pub delta_formed : (thr : ℕ) → WellFormed (delta_at c thr)
    pub delta_shaped : (thr : ℕ) → (delta_at c thr).shape ≡ (empty_sketch hashes alg c).shape

  -- What the updates of one vertex change: its sketch, and no other.
  pub record Applied (c : CcSketchAlg) (v : ℕ) (indices : List ℕ) (c' : CcSketchAlg) : Type 0 where
    pub fits : Fits c'
    pub unlocked : c'.update_locked ≡ false
    pub same_size : length c'.sketches ≡ length c.sketches
    pub same_threads : length c'.delta_sketches ≡ length c.delta_sketches
    pub rest : c' ≡ record c { sketches = c'.sketches; delta_sketches = c'.delta_sketches }
    pub own : sketch_at c' v ≡ update_all hashes alg (sketch_at c v) indices
    pub others : (w : ℕ) → v ≢ w → sketch_at c' w ≡ sketch_at c w

  -- The loop of `apply_update_batch`.
  batch_loop :
      (src : ℕ) (dsts : List ℕ) (s : Sketch)
      → foldl (λ d dst. update hashes alg d (concat_pairing_fn src dst)) s dsts
        ≡ update_all hashes alg s (map (concat_pairing_fn src) dsts)
  unfolding update_all
  batch_loop src [] s = refl
  batch_loop src (dst ∷ dsts) s =
      batch_loop src dsts (update hashes alg s (concat_pairing_fn src dst))

  module _ (c : CcSketchAlg) (thr src : ℕ) (dsts : List ℕ) (fits : Fits c)
      (unlocked : c.update_locked ≡ false) (vertex : src < length c.sketches)
      (worker : thr < length c.delta_sketches) where
    abbrev indices : List ℕ
    indices = map (concat_pairing_fn src) dsts

    abbrev zeroed : Sketch
    zeroed = zero_contents (delta_at c thr)

    abbrev delta : Sketch
    delta = foldl (λ d dst. update hashes alg d (concat_pairing_fn src dst)) zeroed dsts

    abbrev after : CcSketchAlg
    after = record c {
      delta_sketches = modify c.delta_sketches thr (λ _. delta);
      sketches = modify c.sketches src (λ s. merge s delta);
    }

    after_own : sketch_at after src ≡ update_all hashes alg (sketch_at c src) indices
    after_own =
        get_or-modify_self c.sketches src (λ s. merge s delta) (empty_sketch hashes alg c) vertex
        ∙ ap (merge (sketch_at c src)) (batch_loop src dsts zeroed)
        ∙ merge-update_all hashes alg (sketch_at c src) zeroed indices (fits.formed src)
            (zero_contents-IsFresh (delta_at c thr) (fits.delta_formed thr))
            (shape-zero_contents (delta_at c thr) ∙ fits.delta_shaped thr ∙ sym (fits.shaped src))

    after_others : (w : ℕ) → src ≢ w → sketch_at after w ≡ sketch_at c w
    after_others w ne =
        get_or-modify_ne c.sketches src w (λ s. merge s delta) (empty_sketch hashes alg c) ne

    abbrev Fit : Sketch → Type 0
    Fit s = WellFormed s × (s.shape ≡ (empty_sketch hashes alg c).shape)

    sketches-Fit : (v : ℕ) → Fit (sketch_at after v)
    sketches-Fit =
        modify-All Fit c.sketches src (λ s. merge s delta) (empty_sketch hashes alg c)
          (λ s fit. (merge-WellFormed s delta fit.0, shape-merge s delta ∙ fit.1))
          (λ v. (fits.formed v, fits.shaped v))

    delta-Fit : Fit delta
    delta-Fit = subst Fit (sym (batch_loop src dsts zeroed)) (
      update_all-WellFormed hashes alg zeroed indices
          (zero_contents-IsFresh (delta_at c thr) (fits.delta_formed thr)).formed,
      shape-update_all hashes alg zeroed indices
          ∙ shape-zero_contents (delta_at c thr)
          ∙ fits.delta_shaped thr,
    )

    deltas-Fit : (t : ℕ) → Fit (delta_at after t)
    deltas-Fit =
        modify-All Fit c.delta_sketches thr (λ _. delta) (empty_sketch hashes alg c)
          (λ s fit. delta-Fit) (λ t. (fits.delta_formed t, fits.delta_shaped t))

    -- When no query holds the lock, the sketches of the graph fit, the vertex is one of it and the
    -- thread has a delta sketch, a batch returns: the vertex's sketch gets each index of the batch as one update, every other
    -- sketch stays as it is.
    pub apply_update_batch_lem :
        (c' : CcSketchAlg) × (apply_update_batch hashes alg c thr src dsts ≡ done c')
        × Applied c src indices c'
    unfolding apply_update_batch
    apply_update_batch_lem = (
      after,
      rw
          (
            unlocked,
            lt→ltb thr (length c.delta_sketches) worker,
            lt→ltb src (length c.sketches) vertex,
          )
          refl,
      record {
        fits = record {
          formed = λ v. (sketches-Fit v).0;
          shaped = λ v. (sketches-Fit v).1;
          delta_formed = λ t. (deltas-Fit t).0;
          delta_shaped = λ t. (deltas-Fit t).1;
        };
        unlocked = unlocked;
        same_size = length-modify c.sketches src (λ s. merge s delta);
        same_threads = length-modify c.delta_sketches thr (λ _. delta);
        rest = refl;
        own = after_own;
        others = after_others;
      },
    )

  -- While a query holds the lock a batch changes nothing and throws.
  pub apply_update_batch_locked :
      (c : CcSketchAlg) (thr src : ℕ) (dsts : List ℕ)
      → c.update_locked ≡ true
      → apply_update_batch hashes alg c thr src dsts ≡ update_locked_exception
  unfolding apply_update_batch
  apply_update_batch_locked c thr src dsts locked = rw locked refl

  pub record Ran (c : CcSketchAlg) (bs : List Batch) : Type 0 where
    pub after_all : CcSketchAlg
    pub returns : apply_batches hashes alg c bs ≡ done after_all
    pub fits : Fits after_all
    pub sketches :
        (v : ℕ) → sketch_at after_all v ≡ update_all hashes alg (sketch_at c v) (indices_for v bs)

  -- One batch, seen from any vertex.
  batch_step :
      (b : Batch) (v : ℕ) (bs : List Batch) (c c1 : CcSketchAlg)
      → Applied c b.src_vertex (map (concat_pairing_fn b.src_vertex) b.dst_vertices) c1
      → update_all hashes alg (sketch_at c1 v) (indices_for v bs)
        ≡ update_all hashes alg (sketch_at c v) (indices_for v (b ∷ bs))
  unfolding indices_for
  batch_step b v bs c c1 a = elim (eq-or-ne b.src_vertex v) [
    | inl e ↦ subst Same e own_step
    | inr ne ↦
        rw (ne→==-false b.src_vertex v ne)
          (ap (λ s. update_all hashes alg s (indices_for v bs)) (a.others v ne))
  ]
    where
      Same : ℕ → Type 0
      Same w =
          update_all hashes alg (sketch_at c1 w) (indices_for w bs)
          ≡ update_all hashes alg (sketch_at c w) (indices_for w (b ∷ bs))

      own_step : Same b.src_vertex
      own_step = rw (eq→== b.src_vertex b.src_vertex refl) (
          ap (λ s. update_all hashes alg s (indices_for b.src_vertex bs)) a.own
          ∙ sym (
              update_all-append hashes alg (sketch_at c b.src_vertex)
                (map (concat_pairing_fn b.src_vertex) b.dst_vertices)
                (indices_for b.src_vertex bs)))

  -- When no query holds the lock, the sketches of the graph fit, the vertices of the batches are
  -- vertices of it and their threads have delta sketches, all batches return, and each sketch is the one before with the indices for its
  -- vertex applied in order.
  pub apply_batches_lem :
      (c : CcSketchAlg) (bs : List Batch)
      → Fits c
      → c.update_locked ≡ false
      → InGraph (length c.sketches) (length c.delta_sketches) bs
      → Ran c bs
  unfolding apply_batches indices_for update_all and_then
  apply_batches_lem c [] fits unlocked no_batch = record {
    after_all = c;
    returns = refl;
    fits = fits;
    sketches = λ v. refl;
  }
  apply_batches_lem c (b ∷ bs) fits unlocked (batch _ _ vertex worker inside) =
      let (c1, runs, a) =
        apply_update_batch_lem c b.thr_id b.src_vertex b.dst_vertices fits unlocked vertex worker in
      let rest =
        apply_batches_lem c1 bs a.fits a.unlocked (rw (a.same_size, a.same_threads) inside) in
      record {
        after_all = rest.after_all;
        returns = ap (λ z. and_then z (λ d. apply_batches hashes alg d bs)) runs ∙ rest.returns;
        fits = rest.fits;
        sketches = λ v. rest.sketches v ∙ batch_step b v bs c c1 a;
      }

  -- When no query holds the lock, the sketches of the graph fit, the vertices of the batches are
  -- vertices of it and their threads have delta sketches: two lists of batches that return and that give a vertex the same vector leave
  -- the same sketch of it, in whatever order, threads and pieces they come.
  pub apply_batches-SameVector :
      (c : CcSketchAlg) (bs bs' : List Batch) (v : ℕ) (c1 c2 : CcSketchAlg)
      → Fits c
      → c.update_locked ≡ false
      → InGraph (length c.sketches) (length c.delta_sketches) bs
      → InGraph (length c.sketches) (length c.delta_sketches) bs'
      → SameVector (indices_for v bs) (indices_for v bs')
      → apply_batches hashes alg c bs ≡ done c1
      → apply_batches hashes alg c bs' ≡ done c2
      → sketch_at c1 v ≡ sketch_at c2 v
  apply_batches-SameVector c bs bs' v c1 c2 fits unlocked inside inside' same runs1 runs2 =
      let r1 = apply_batches_lem c bs fits unlocked inside in
      let r2 = apply_batches_lem c bs' fits unlocked inside' in
      ap (λ d. sketch_at d v) (done_inj (sym runs1 ∙ r1.returns))
      ∙ r1.sketches v
      ∙ update_all-SameVector hashes alg (sketch_at c v) (indices_for v bs) (indices_for v bs')
          (fits.formed v) same
      ∙ sym (r2.sketches v)
      ∙ ap (λ d. sketch_at d v) (done_inj (sym r2.returns ∙ runs2))
    where
      done_inj : {a b : CcSketchAlg} → done a ≡ done b → a ≡ b
      done_inj e = cc

  -- The sketches of the constructor and of `allocate_worker_memory` fit.
  pub allocate_worker_memory-Fits :
      (n seed samples : ℕ) (prio : List ℕ) (num_workers : ℕ)
      → Fits (allocate_worker_memory alg (new_cc alg n seed samples prio) num_workers)
  unfolding new_cc allocate_worker_memory vertex_sketch
  allocate_worker_memory-Fits n seed samples prio num_workers = record {
    formed = λ v. subst WellFormed (sym (get_or-replicate n v blank)) blank_formed;
    shaped = λ v. ap (λ (s : Sketch). s.shape) (get_or-replicate n v blank);
    delta_formed =
        λ thr. subst WellFormed (sym (get_or-replicate num_workers thr blank)) blank_formed;
    delta_shaped = λ thr. ap (λ (s : Sketch). s.shape) (get_or-replicate num_workers thr blank);
  }
    where
      blank : Sketch
      blank = new_sketch (calc_vector_length n) seed samples (default_cols_per_sample alg)

      blank_formed : WellFormed blank
      blank_formed =
          (new_sketch-IsFresh (calc_vector_length n) seed samples
            (default_cols_per_sample alg)).formed
