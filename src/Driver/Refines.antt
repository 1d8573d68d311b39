-- ===== src/Driver/Refines.antt =====
-- The driver (include/graph_sketch_driver.h) keeps the sketches of a graph: whatever the order of
-- its threads and the pieces in which the guttering system hands out the updates.
use graph_streaming_cc.Prelude.{
  ℕ, ◌+◌, ◌%◌, ◌^◌, ◌<◌, ◌≤◌, ◌≡◌, ◌≢◌, refl, sym, ap, subst, ◌∙◌, inl, inr, arith, Bool, false,
  not, ◌||◌, ◌==◌, if◌then◌else◌, some, List, [], ◌∷◌, ◌++◌, map, length, eq-or-ne, ltb, ltb→lt,
  ltb-false→le, eq→==, ne→==-false, Always, Always-some, Always-map, Bool-cases,
}
use mathlib.Core.Option
use graph_streaming_cc.Util.{Edge, concat_pairing_fn}
use graph_streaming_cc.Bucket.{Hashes}
use graph_streaming_cc.Sketch.{Sketch}
use graph_streaming_cc.Sketch.Update.Cells.{WellFormed}
use graph_streaming_cc.Sketch.Update.{Algorithm, update_all}
use graph_streaming_cc.Sketch.Update.Linear.{parity, parity-append, SameVector}
use graph_streaming_cc.Sketch.Update.Streams.{update_all-append}
use graph_streaming_cc.Cc.{CcSketchAlg, empty_sketch}
use graph_streaming_cc.Cc.PreInsert.{SameSketches, pre_insert-SameSketches}
use graph_streaming_cc.Cc.Ingest.{Fits, sketch_at, delta_at, Applied, apply_update_batch_lem}
use graph_streaming_cc.Driver.{
  GutterBatch, Gutters, DriverState, insert_ends, stream_update, run_batch, after_batch, Run,
  begins, streams, flushes, works,
}
use graph_streaming_cc.Driver.Shuffles.{
  parity-Shuffle, append-nil, Shuffle-nil, nil-Shuffle, or_else, or_else_assoc, or_else-if,
}
use graph_streaming_cc.Driver.Incident.{incident}
use graph_streaming_cc.Driver.Pending.{
  pending, pending-ends, held-insert, part, pending-take, held-take,
}

module _ (gutters : Gutters) (hashes : Hashes) (alg : Algorithm) (c : CcSketchAlg) where
  -- The updates of the streams are in the sketches and in the gutters.
  pub record Refines (edges : List Edge) (d : DriverState gutters) : Type 0 where
    pub applied : ℕ → List ℕ
    pub fits : Fits hashes alg d.sketching_alg
    pub unlocked : d.sketching_alg.update_locked ≡ false
    sized : length d.sketching_alg.sketches ≡ c.num_vertices
    threads : length d.sketching_alg.delta_sketches ≡ d.num_workers
    pub sketches :
        (v : ℕ)
        → sketch_at hashes alg d.sketching_alg v
          ≡ update_all hashes alg (sketch_at hashes alg c v) (applied v)
    pub vectors : (v : ℕ) → SameVector (applied v ++ pending gutters d.gts v) (incident v edges)
    inside : (v : ℕ) → ¬ (v < c.num_vertices) → gutters.held d.gts v ≡ []

  incident-next :
      (v x : ℕ) (e : Edge) (es : List Edge)
      → let q = parity x (incident v es) in
        parity x (incident v (e ∷ es)) ≡ (
          if e.src == v || e.dst == v
          then (if concat_pairing_fn e.src e.dst == x then not q else q)
          else q)
  unfolding parity incident
  incident-next v x e es = elim (Bool-cases (e.src == v || e.dst == v)) [
    | inl t ↦ rw t refl
    | inr t ↦ rw t refl
  ]

  same_sketch :
      (a b : CcSketchAlg) (v : ℕ)
      → SameSketches a b
      → sketch_at hashes alg b v ≡ sketch_at hashes alg a v
  same_sketch a b v s = rw (s.sketches, s.vertices, s.seeds, s.samples) refl

  Fits-SameSketches : (a b : CcSketchAlg) → SameSketches a b → Fits hashes alg a → Fits hashes alg b
  Fits-SameSketches a b s fits = record {
    formed = λ v. subst WellFormed (sym (same_sketch a b v s)) (fits.formed v);
    shaped = λ v. ap (λ (z : Sketch). z.shape) (same_sketch a b v s) ∙ fits.shaped v ∙ same_blank;
    delta_formed = λ thr. subst WellFormed (sym (same_delta thr)) (fits.delta_formed thr);
    delta_shaped =
        λ thr. ap (λ (z : Sketch). z.shape) (same_delta thr) ∙ fits.delta_shaped thr ∙ same_blank;
  }
    where
      same_delta : (thr : ℕ) → delta_at hashes alg b thr ≡ delta_at hashes alg a thr
      same_delta thr = rw (s.deltas, s.vertices, s.seeds, s.samples) refl

      same_blank : (empty_sketch hashes alg a).shape ≡ (empty_sketch hashes alg b).shape
      same_blank = rw (s.vertices, s.seeds, s.samples) refl

  -- A stream thread's update.
  update-Refines :
      (edges : List Edge) (d : DriverState gutters) (e : Edge) (thr : ℕ) (a : CcSketchAlg)
      → e.src < c.num_vertices
      → e.dst < c.num_vertices
      → e.src ≢ e.dst
      → SameSketches d.sketching_alg a
      → Refines edges d
      → Refines (e ∷ edges) (insert_ends gutters thr e (record d { sketching_alg = a }))
  unfolding insert_ends
  update-Refines edges d e thr a hs hd ne s r = record {
    applied = r.applied;
    fits = Fits-SameSketches d.sketching_alg a s r.fits;
    unlocked = s.locked ∙ r.unlocked;
    sized = ap length s.sketches ∙ r.sized;
    threads = ap length s.deltas ∙ r.threads;
    sketches = λ v. same_sketch d.sketching_alg a v s ∙ r.sketches v;
    vectors = λ v x.
        parity-append x (r.applied v) _
        ∙ ap (or_else (parity x (r.applied v))) (pending-ends gutters d.gts e thr v x ne)
        ∙ or_else-if (parity x (r.applied v)) (e.src == v || e.dst == v)
            (concat_pairing_fn e.src e.dst == x) (parity x (pending gutters d.gts v))
        ∙ ap
            (λ q.
              if e.src == v || e.dst == v
              then (if concat_pairing_fn e.src e.dst == x then not q else q)
              else q)
            (sym (parity-append x (r.applied v) (pending gutters d.gts v)) ∙ r.vectors v x)
        ∙ sym (incident-next v x e edges);
    inside = λ v out.
        held-insert gutters (gutters.insert d.gts e.src e.dst thr) e.dst e.src thr v
          (λ at. out (subst (λ z. z < c.num_vertices) at hd))
          (held-insert gutters d.gts e.src e.dst thr v
            (λ at. out (subst (λ z. z < c.num_vertices) at hs)) (r.inside v out));
  }

  -- A flush of the gutters.
  flush-Refines :
      (edges : List Edge) (d : DriverState gutters)
      → Refines edges d
      → Refines edges (record d { gts = gutters.force_flush d.gts })
  unfolding pending
  flush-Refines edges d r = record {
    applied = r.applied;
    fits = r.fits;
    unlocked = r.unlocked;
    sized = r.sized;
    threads = r.threads;
    sketches = r.sketches;
    vectors = λ v x.
        parity-append x (r.applied v) _
        ∙ ap (or_else (parity x (r.applied v)))
            (parity-Shuffle (concat_pairing_fn v) x _ _ (gutters.flush_law d.gts v))
        ∙ sym (parity-append x (r.applied v) (pending gutters d.gts v))
        ∙ r.vectors v x;
    inside = λ v out. Shuffle-nil _ _ (gutters.flush_law d.gts v) (r.inside v out);
  }

  sketch_at-part :
      (a a' : CcSketchAlg) (b : GutterBatch) (v : ℕ)
      → Applied hashes alg a b.src_vertex (map (concat_pairing_fn b.src_vertex) b.dst_vertices) a'
      → sketch_at hashes alg a' v
        ≡ update_all hashes alg (sketch_at hashes alg a v) (part gutters b v)
  unfolding part update_all
  sketch_at-part a a' b v h = elim (eq-or-ne b.src_vertex v) [
    | inl s ↦ rw (eq→== b.src_vertex v s) (
        subst
          (λ z.
            sketch_at hashes alg a' z
            ≡ update_all hashes alg (sketch_at hashes alg a z)
                (map (concat_pairing_fn b.src_vertex) b.dst_vertices))
          s h.own)
    | inr ns ↦ rw (ne→==-false b.src_vertex v ns) (h.others v ns)
  ]

  -- The vertex of a batch is one of the graph.
  vertex_of_batch :
      (d : DriverState gutters) (g : gutters.G) (b : GutterBatch)
      → ((v : ℕ) → ¬ (v < c.num_vertices) → gutters.held d.gts v ≡ [])
      → gutters.take d.gts ≡ some (b, g)
      → b.src_vertex < c.num_vertices
  vertex_of_batch d g b inside takes = elim (Bool-cases (ltb b.src_vertex c.num_vertices)) [
    | inl lt ↦ ltb→lt _ _ lt
    | inr ge ↦
        let rest : (b.dst_vertices ++ gutters.held g b.src_vertex) ≡ [] =
          subst
            (λ t.
              (if t
                then b.dst_vertices ++ gutters.held g b.src_vertex
                else gutters.held g b.src_vertex)
              ≡ [])
            (eq→== b.src_vertex b.src_vertex refl)
            (nil-Shuffle _ _ (gutters.take_law d.gts g b b.src_vertex takes)
              (inside b.src_vertex (λ lt. not_both lt (ltb-false→le _ _ ge)))) in
        absurd (gutters.batch_law d.gts g b takes (append-nil b.dst_vertices _ rest).0)
  ]
    where
      not_both : {m n : ℕ} → m < n → ¬ (n ≤ m)
      not_both lt ge = omega arith

  -- What a worker does with a batch.
  pub batch_lem :
      (edges : List Edge) (d : DriverState gutters) (thr_id : ℕ) (b : GutterBatch) (g : gutters.G)
      → thr_id < d.num_workers
      → gutters.take d.gts ≡ some (b, g)
      → Refines edges d
      → (a : CcSketchAlg) × (run_batch gutters hashes alg thr_id d b g
          ≡ some (record d {
            sketching_alg = a;
            gts = g;
            total_updates = (d.total_updates + length b.dst_vertices) % 2 ^ 64;
          }))
        × (a ≡ record d.sketching_alg { sketches = a.sketches; delta_sketches = a.delta_sketches })
        × Applied hashes alg d.sketching_alg b.src_vertex
            (map (concat_pairing_fn b.src_vertex) b.dst_vertices)
            a
  unfolding run_batch after_batch
  batch_lem edges d thr_id b g worker takes r =
      let (a, applies, h) =
        apply_update_batch_lem hashes alg d.sketching_alg thr_id b.src_vertex b.dst_vertices r.fits
          r.unlocked (rw r.sized (vertex_of_batch d g b r.inside takes)) (rw r.threads worker) in
      (a, ap (after_batch gutters hashes alg d (length b.dst_vertices) g) applies, h.rest, h)

  -- A worker's batch.
  batch-Refines :
      (edges : List Edge) (d d' : DriverState gutters) (thr_id : ℕ) (b : GutterBatch)
      (g : gutters.G)
      → thr_id < d.num_workers
      → gutters.take d.gts ≡ some (b, g)
      → run_batch gutters hashes alg thr_id d b g ≡ some d'
      → Refines edges d
      → Refines edges d'
  batch-Refines edges d d' thr_id b g worker takes runs r =
      let (a, returns, _, h) = batch_lem edges d thr_id b g worker takes r in
      subst (Refines edges) (Option.some_inj.0 (sym returns ∙ runs)) (record {
        applied = λ v. r.applied v ++ part gutters b v;
        fits = h.fits;
        unlocked = h.unlocked;
        sized = h.same_size ∙ r.sized;
        threads = h.same_threads ∙ r.threads;
        sketches = λ v.
            sketch_at-part d.sketching_alg a b v h
            ∙ ap (λ s. update_all hashes alg s (part gutters b v)) (r.sketches v)
            ∙ sym (
                update_all-append hashes alg (sketch_at hashes alg c v) (r.applied v)
                  (part gutters b v));
        vectors = λ v x.
            parity-append x (r.applied v ++ part gutters b v) (pending gutters g v)
            ∙ ap (λ p. or_else p (parity x (pending gutters g v)))
                (parity-append x (r.applied v) (part gutters b v))
            ∙ or_else_assoc (parity x (r.applied v)) (parity x (part gutters b v))
                (parity x (pending gutters g v))
            ∙ ap (or_else (parity x (r.applied v))) (sym (pending-take gutters d.gts g b v x takes))
            ∙ sym (parity-append x (r.applied v) (pending gutters d.gts v))
            ∙ r.vectors v x;
        inside = λ v out. held-take gutters d.gts g b v takes (r.inside v out);
      })

  stream_update-SameSketches :
      (failures : List Bool) (thr : ℕ) (d : DriverState gutters) (e : Edge)
      → Always
          (λ d'.
            (a : CcSketchAlg) × SameSketches d.sketching_alg a
            × (d' ≡ insert_ends gutters thr e (record d { sketching_alg = a })))
          (stream_update gutters failures thr d e)
  unfolding stream_update
  stream_update-SameSketches failures thr d e =
      Always-map _ _ (pre_insert-SameSketches failures d.sketching_alg e) (λ a s. (a, s, refl))

  module _ (fits : Fits hashes alg c) (unlocked : c.update_locked ≡ false)
      (sized : length c.sketches ≡ c.num_vertices) where
    pub Run-Refines :
        (edges : List Edge) (d : DriverState gutters)
        → Run gutters hashes alg c edges d
        → Refines edges d
    unfolding pending incident update_all
    Run-Refines _ _ (begins g workers total empty many) = record {
      applied = λ v. [];
      fits = fits;
      unlocked = unlocked;
      sized = sized;
      threads = many;
      sketches = λ v. refl;
      vectors = λ v x. ap (λ h. parity x (map (concat_pairing_fn v) h)) (empty v);
      inside = λ v out. empty v;
    }
    Run-Refines _ _ (streams edges d d' failures thr e run hs hd ne runs) =
        let (a, s, is) =
          Always-some (subst (Always _) runs (stream_update-SameSketches failures thr d e)) in
        subst (Refines (e ∷ edges)) (sym is)
          (update-Refines edges d e thr a hs hd ne s (Run-Refines edges d run))
    Run-Refines _ _ (flushes edges d run) = flush-Refines edges d (Run-Refines edges d run)
    Run-Refines _ _ (works edges d d' thr_id b g run worker takes runs) =
        batch-Refines edges d d' thr_id b g worker takes runs (Run-Refines edges d run)
