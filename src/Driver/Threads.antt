-- ===== src/Driver/Threads.antt =====
-- The steps of a stream thread of include/graph_sketch_driver.h, and what it has still to read.
use graph_streaming_cc.Prelude.{
  ℕ, ◌<◌, ◌≡◌, refl, sym, ap, subst, ◌∙◌, Bool, true, false, not, if◌then◌else◌, Option, some, List,
  [], ◌∷◌, ◌++◌, length, ◌==◌, ◌&&◌,
}
use graph_streaming_cc.Util.{Edge, low_of, high_of}
use graph_streaming_cc.Bucket.{Hashes}
use graph_streaming_cc.Sketch.Update.{Algorithm}
use graph_streaming_cc.Graph.{EdgeSet, present, toggle}
use graph_streaming_cc.Cc.{CcSketchAlg}
use graph_streaming_cc.Cc.Eager.{Eager}
use graph_streaming_cc.Cc.Eager.Calls.{call}
use graph_streaming_cc.Cc.Ingest.{Fits}
use graph_streaming_cc.Driver.{
  GraphUpdate, is_breakpoint, Gutters, StreamThread, DriverState, insert_ends, stream_update,
  stream_next, stream_step, Run, streams,
}
use graph_streaming_cc.Driver.Buffers.{joined, stream_all}
use graph_streaming_cc.Driver.Shuffles.{or_else, or_else_assoc}

-- The edges of updates before the first breakpoint, all of them between different vertices.
pub data Reads (n : ℕ) : List GraphUpdate → List Edge → Type 0 where
  at_break :
      (u : GraphUpdate) (us : List GraphUpdate)
      → is_breakpoint u.update_type ≡ true
      → Reads n (u ∷ us) []
  an_update :
      (u : GraphUpdate) (us : List GraphUpdate) (es : List Edge)
      → is_breakpoint u.update_type ≡ false
      → u.edge.src < n
      → u.edge.dst < n
      → ¬ (u.edge.src ≡ u.edge.dst)
      → Reads n us es
      → Reads n (u ∷ us) (u.edge ∷ es)

-- Of a thread, and of all.
pub data ThreadReads (n : ℕ) (t : StreamThread) : List Edge → Type 0 where
  stopped : t.finished ≡ true → ThreadReads n t []
  going :
      (es : List Edge)
      → t.finished ≡ false
      → Reads n (t.buffer ++ joined t.coming) es
      → ThreadReads n t es

pub data AllReads (n : ℕ) : List StreamThread → List Edge → Type 0 where
  no_thread : AllReads n [] []
  a_thread :
      (t : StreamThread) (ts : List StreamThread) (es ls : List Edge)
      → ThreadReads n t es
      → AllReads n ts ls
      → AllReads n (t ∷ ts) (es ++ ls)

-- Whether an edge is in the graph of one list of updates and another.
abbrev pub both_leave : List Edge → List Edge → EdgeSet
both_leave es fs s d = or_else (present es s d) (present fs s d)

present-next :
    (e : Edge) (es : List Edge) (s d : ℕ)
    → present (e ∷ es) s d
      ≡ or_else (low_of e.src e.dst == s && high_of e.src e.dst == d) (present es s d)
unfolding present toggle
present-next e es s d =
    by_ends (low_of e.src e.dst == s) (high_of e.src e.dst == d) (present es s d)
  where
    by_ends : (a b p : Bool) → (if a then (if b then not p else p) else p) ≡ or_else (a && b) p
    by_ends true b p = refl
    by_ends false b p = refl

pub present-append : (es fs : List Edge) (s d : ℕ) → present (es ++ fs) s d ≡ both_leave es fs s d
present-append [] fs s d = unfold present in refl
present-append (e ∷ es) fs s d =
    let hit = low_of e.src e.dst == s && high_of e.src e.dst == d in
    present-next e (es ++ fs) s d
    ∙ ap (or_else hit) (present-append es fs s d)
    ∙ sym (or_else_assoc hit (present es s d) (present fs s d))
    ∙ ap (λ t. or_else t (present fs s d)) (sym (present-next e es s d))

pub or_else_swap : (a b c : Bool) → or_else a (or_else b c) ≡ or_else b (or_else a c)
or_else_swap true true c = refl
or_else_swap true false c = refl
or_else_swap false true c = refl
or_else_swap false false c = refl

-- An edge moves from what is to come to what has come.
pub edge_moves :
    (e : Edge) (es fs : List Edge) (s d : ℕ)
    → both_leave es (e ∷ fs) s d ≡ both_leave (e ∷ es) fs s d
edge_moves e es fs s d =
    let hit = low_of e.src e.dst == s && high_of e.src e.dst == d in
    ap (or_else (present es s d)) (present-next e fs s d)
    ∙ or_else_swap (present es s d) hit (present fs s d)
    ∙ sym (or_else_assoc hit (present es s d) (present fs s d))
    ∙ ap (λ t. or_else t (present fs s d)) (sym (present-next e es s d))

module _ (gutters : Gutters) (hashes : Hashes) (alg : Algorithm) (c : CcSketchAlg)
    (fits : Fits hashes alg c) (unlocked : c.update_locked ≡ false)
    (sized : length c.sketches ≡ c.num_vertices) where
  -- What the threads keep: the state has come from `c` by their steps, and the eager forest of
  -- `pre_insert` is in step.
  pub record Streaming (edges : List Edge) (d : DriverState gutters) : Type 1 where
    pub run : Run gutters hashes alg c edges d
    pub eager : Eager edges d.sketching_alg
    pub vertices : d.sketching_alg.num_vertices ≡ c.num_vertices

  stream_update_lem :
      (failures : List Bool) (thr_id : ℕ) (edges : List Edge) (d : DriverState gutters) (e : Edge)
      → Streaming edges d
      → e.src < c.num_vertices
      → e.dst < c.num_vertices
      → ¬ (e.src ≡ e.dst)
      → (d' : DriverState gutters) × (stream_update gutters failures thr_id d e ≡ some d')
        × Streaming (e ∷ edges) d'
  unfolding stream_update insert_ends
  stream_update_lem failures thr_id edges d e s hs hd ne =
      let called =
        call edges e d.sketching_alg failures s.eager (rw s.vertices hs) (rw s.vertices hd) in
      let d' : DriverState gutters =
        insert_ends gutters thr_id e (record d { sketching_alg = called.after }) in
      let returns : stream_update gutters failures thr_id d e ≡ some d' = rw called.returns refl in
      (
        d',
        returns,
        record {
          run = streams edges d d' failures thr_id e s.run hs hd ne returns;
          eager = called.eager;
          vertices = called.same_vertices ∙ s.vertices;
        },
      )

  -- A thread that runs to its end.
  pub stream_all_lem :
      (thr_id : ℕ) (us : List GraphUpdate) (es edges : List Edge) (d : DriverState gutters)
      → Reads c.num_vertices us es
      → Streaming edges d
      → (d' : DriverState gutters) × (stream_all gutters thr_id d us ≡ some d')
        × (all : List Edge) × Streaming all d'
        × ((x y : ℕ) → present all x y ≡ both_leave es edges x y)
  unfolding stream_all
  stream_all_lem thr_id _ _ edges d (at_break u us last) s =
      (d, rw last refl, edges, s, λ x y. unfold present in refl)
  stream_all_lem thr_id _ _ edges d (an_update u us es goes hs hd ne more) s =
      let (d', runs, s') = stream_update_lem [] thr_id edges d u.edge s hs hd ne in
      let (last, ends, all, s'', same) = stream_all_lem thr_id us es (u.edge ∷ edges) d' more s' in
      (last, rw (goes, runs) ends, all, s'', λ x y. same x y ∙ edge_moves u.edge es edges x y)

  -- The outcome of a step of a stream thread.
  pub record Stepped (es edges : List Edge) (r : Option (DriverState gutters × StreamThread))
      : Type 1 where
    pub state : DriverState gutters
    pub thread : StreamThread
    pub returns : r ≡ some (state, thread)
    pub left : List Edge
    pub come : List Edge
    pub reads : ThreadReads c.num_vertices thread left
    pub streaming : Streaming come state
    pub same : (x y : ℕ) → both_leave left come x y ≡ both_leave es edges x y

  Reads-cons : (us : List GraphUpdate) (es : List Edge) → Reads c.num_vertices us es → ¬ (us ≡ [])
  Reads-cons _ _ (at_break u us last) e = cc
  Reads-cons _ _ (an_update u us es goes hs hd ne more) e = cc

  next_update :
      (failures : List Bool) (thr_id : ℕ) (u : GraphUpdate) (us : List GraphUpdate)
      (bs : List (List GraphUpdate)) (es edges : List Edge) (d : DriverState gutters)
      → Reads c.num_vertices (u ∷ (us ++ joined bs)) es
      → Streaming edges d
      → Stepped es edges (stream_next gutters failures thr_id d (u ∷ us) bs)
  unfolding stream_next
  next_update failures thr_id u us bs _ edges d (at_break _ _ last) s = record {
    state = d;
    thread = record { buffer = us; coming = bs; finished = true };
    returns = rw last refl;
    left = [];
    come = edges;
    reads = stopped refl;
    streaming = s;
    same = λ x y. refl;
  }
  next_update failures thr_id u us bs _ edges d (an_update _ _ es goes hs hd ne more) s =
      let (d', runs, s') = stream_update_lem failures thr_id edges d u.edge s hs hd ne in
      record {
        state = d';
        thread = record { buffer = us; coming = bs; finished = false };
        returns = rw (goes, runs) refl;
        left = es;
        come = u.edge ∷ edges;
        reads = going es refl more;
        streaming = s';
        same = edge_moves u.edge es edges;
      }

  stream_next_lem :
      (failures : List Bool) (thr_id : ℕ) (us : List GraphUpdate) (bs : List (List GraphUpdate))
      (es edges : List Edge) (d : DriverState gutters)
      → Reads c.num_vertices (us ++ joined bs) es
      → Streaming edges d
      → Stepped es edges (stream_next gutters failures thr_id d us bs)
  unfolding joined stream_next
  stream_next_lem failures thr_id [] [] es edges d reads s = absurd (Reads-cons [] es reads refl)
  stream_next_lem failures thr_id [] (b ∷ bs) es edges d reads s = record {
    state = d;
    thread = record { buffer = b; coming = bs; finished = false };
    returns = refl;
    left = es;
    come = edges;
    reads = going es refl reads;
    streaming = s;
    same = λ x y. refl;
  }
  stream_next_lem failures thr_id (u ∷ us) bs es edges d reads s =
      next_update failures thr_id u us bs es edges d reads s

  pub stream_step_lem :
      (failures : List Bool) (thr_id : ℕ) (t : StreamThread) (es edges : List Edge)
      (d : DriverState gutters)
      → ThreadReads c.num_vertices t es
      → Streaming edges d
      → Stepped es edges (stream_step gutters failures thr_id d t)
  unfolding stream_step
  stream_step_lem failures thr_id t _ edges d (stopped ended) s = record {
    state = d;
    thread = t;
    returns = rw ended refl;
    left = [];
    come = edges;
    reads = stopped ended;
    streaming = s;
    same = λ x y. refl;
  }
  stream_step_lem failures thr_id t _ edges d (going es runs reads) s =
      subst (Stepped es edges) (sym (rw runs refl))
        (stream_next_lem failures thr_id t.buffer t.coming es edges d reads s)
