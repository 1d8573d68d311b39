-- ===== src/Driver/Prepare.antt =====
-- The sketches behind empty gutters of include/graph_sketch_driver.h, and `prep_query`, which is
-- made of a flush and batches of the workers.
use graph_streaming_cc.Prelude.{
  ℕ, ◌≤◌, ◌^◌, ◌≡◌, sym, ap, ◌∙◌, arith, false, List, [], ◌++◌, map, length,
}
use graph_streaming_cc.Util.{Edge, concat_pairing_fn}
use graph_streaming_cc.Bucket.{Hashes}
use graph_streaming_cc.Sketch.Update.{Algorithm, update_all}
use graph_streaming_cc.Sketch.Update.Linear.{parity}
use graph_streaming_cc.Sketch.Update.Streams.{update_all-SameVector}
use graph_streaming_cc.Graph.{present}
use graph_streaming_cc.Cc.{CcSketchAlg, QueryCode}
use graph_streaming_cc.Cc.Ingest.{Fits, sketch_at}
use graph_streaming_cc.Driver.{
  Gutters, DriverState, WorkerSteps, no_batch, then_batch, PrepQuery, cached, flushed, Run, begins,
  streams, flushes, works,
}
use graph_streaming_cc.Driver.Incident.{incident, Edges, no_edges, an_edge, incident-SameVector}
use graph_streaming_cc.Driver.Refines.{Run-Refines}
use graph_streaming_cc.Driver.Pending.{pending}
use graph_streaming_cc.Driver.Shuffles.{append_nil}

module _ (gutters : Gutters) (hashes : Hashes) (alg : Algorithm) (c : CcSketchAlg)
    (fits : Fits hashes alg c) (unlocked : c.update_locked ≡ false)
    (sized : length c.sketches ≡ c.num_vertices) where
  -- Let `c` be an unlocked state with a sketch of the right shape for each vertex. If the driver
  -- has come from `c` with empty gutters, by the steps of its threads in any order, to a state
  -- whose gutters hold nothing for a vertex, and the updates of the streams and `graph` are
  -- edges between different 32-bit vertices and leave the same edges, then the vertex has the
  -- sketch of `c` with one update for each of its edges in `graph`.
  pub sketches_of_graph :
      (edges graph : List Edge) (d : DriverState gutters) (v : ℕ)
      → Run gutters hashes alg c edges d
      → gutters.held d.gts v ≡ []
      → Edges edges
      → Edges graph
      → ((src dst : ℕ) → present edges src dst ≡ present graph src dst)
      → sketch_at hashes alg d.sketching_alg v
        ≡ update_all hashes alg (sketch_at hashes alg c v) (incident v graph)
  unfolding pending
  sketches_of_graph edges graph d v run empty h h' same =
      let r = Run-Refines gutters hashes alg c fits unlocked sized edges d run in
      r.sketches v
      ∙ update_all-SameVector hashes alg (sketch_at hashes alg c v) (r.applied v) (incident v graph)
          (fits.formed v)
          (λ x.
            ap (parity x) (
              sym (
                ap (λ g. r.applied v ++ map (concat_pairing_fn v) g) empty
                ∙ append_nil (r.applied v)))
            ∙ r.vectors v x
            ∙ incident-SameVector v edges graph h h' same x)

  -- Batches of workers are steps of a run.
  WorkerSteps-Run :
      (edges : List Edge) (start d : DriverState gutters)
      → Run gutters hashes alg c edges start
      → WorkerSteps gutters hashes alg start d
      → Run gutters hashes alg c edges d
  WorkerSteps-Run edges start _ run no_batch = run
  WorkerSteps-Run edges start _ run (then_batch d d' thr_id b g steps worker takes runs) =
      works edges d d' thr_id b g (WorkerSteps-Run edges start d run steps) worker takes runs

  -- And so is the preparation of a query.
  pub PrepQuery-Run :
      (query_code : QueryCode) (edges : List Edge) (d d' : DriverState gutters)
      → Run gutters hashes alg c edges d
      → PrepQuery gutters hashes alg query_code d d'
      → Run gutters hashes alg c edges d'
  PrepQuery-Run query_code edges d _ run (cached has) = run
  PrepQuery-Run query_code edges d _ run (flushed d' none_cached steps) =
      WorkerSteps-Run edges (record d { gts = gutters.force_flush d.gts }) d' (flushes edges d run)
        steps

  pub Run-Edges :
      (edges : List Edge) (d : DriverState gutters)
      → c.num_vertices ≤ 2 ^ 32
      → Run gutters hashes alg c edges d
      → Edges edges
  Run-Edges _ _ small (begins g workers total empty many) = no_edges
  Run-Edges _ _ small (streams edges d d' failures thr e run hs hd ne runs) =
      an_edge e edges (omega arith) (omega arith) ne (Run-Edges edges d small run)
  Run-Edges _ _ small (flushes edges d run) = Run-Edges edges d small run
  Run-Edges _ _ small (works edges d d' thr_id b g run worker takes runs) =
      Run-Edges edges d small run
