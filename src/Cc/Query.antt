-- ===== src/Cc/Query.antt =====
-- The rounds of a query in src/cc_sketch_alg.cpp: `sample_supernode`, `run_round_zero`, and the
-- start of `boruvka_emulation`. A `parallel for` runs its iterations in any order, which the
-- model takes as the list of them; each one holds the locks of what it changes.
pub mod Forest
pub mod Rounds
pub mod Flags
use graph_streaming_cc.Prelude.{
  ◌>>=◌, ℕ, ◌+◌, Bool, true, false, ◌||◌, ltb, if◌then◌else◌, Option, none, some, List, [], ◌∷◌,
  get_or, modify, replicate, map, leb,
}
use mathlib.Core.Option
use graph_streaming_cc.Util.{Edge, low_of, high_of, inv_concat_pairing_fn}
use graph_streaming_cc.Bucket.{Hashes}
use graph_streaming_cc.Sketch.{
  Sketch, SampleResult, SketchSample, Sampled, returned, out_of_samples, range_merge,
  reset_sample_state,
}
use graph_streaming_cc.Sketch.Sample.{sample}
use graph_streaming_cc.Sketch.Update.{Algorithm}
use graph_streaming_cc.Dsu.{Dsu, DsuMergeRet, merge_mt, reset}
use graph_streaming_cc.Cc.{CcSketchAlg, insert, empty_sketch}

-- The state after a call of `sample_supernode`, what it returns, and whether it has thrown an
-- `OutOfSamplesException`. `none` in its place is a sample whose vertices are not of the graph,
-- which the code reads out of bounds.
pub record Supernode : Type 0 where
  pub state : CcSketchAlg
  pub skt : Sketch
  pub modified : Bool
  pub except : Bool

-- After the merge of a good sample's edge.
pub sampled_edge : CcSketchAlg → Sketch → Edge → Dsu × DsuMergeRet → Supernode
unfolding insert
sampled_edge c skt e (d, ret) =
    let src = low_of e.src e.dst in
    let dst = high_of e.src e.dst in
    if ret.merged
    then record {
      state = record c {
        dsu = d;
        spanning_forest = modify c.spanning_forest src (λ s. insert s dst);
      };
      skt = skt;
      modified = true;
      except = false;
    }
    else record { state = record c { dsu = d }; skt = skt; modified = false; except = false }

-- A merge of vertices that are not of the graph reads `parent` out of bounds: it has no result.
pub merge_sample : List Bool → CcSketchAlg → Sketch → Edge → Option Supernode
unfolding sampled_edge
merge_sample failures c skt e =
    if ltb e.src c.dsu.n
    then (if ltb e.dst c.dsu.n
        then Option.map (sampled_edge c skt e) (merge_mt failures c.dsu e.src e.dst)
        else none)
    else none

pub use_sample : List Bool → CcSketchAlg → Sketch → (idx : ℕ) → SampleResult → Option Supernode
unfolding merge_sample
use_sample failures c skt idx SampleResult.fail =
    some (record { state = c; skt = skt; modified = true; except = false })
use_sample failures c skt idx SampleResult.zero =
    some (record { state = c; skt = skt; modified = false; except = false })
use_sample failures c skt idx SampleResult.good =
    merge_sample failures c skt (inv_concat_pairing_fn idx)

-- What `Sketch::sample` gave, or its exception.
unfoldable pub after_sample :
    List Bool → CcSketchAlg → Sketch → Sampled (Sketch × SketchSample) → Option Supernode
unfolding use_sample
after_sample failures c skt (returned (skt', s)) = use_sample failures c skt' s.idx s.result
after_sample failures c skt (out_of_samples _ _ _) =
    some (record { state = c; skt = skt; modified = false; except = true })

-- `boruvka_emulation` before its first round.
unfoldable pub start_boruvka : CcSketchAlg → CcSketchAlg
start_boruvka c = record c {
  update_locked = true;
  dsu = reset c.dsu;
  spanning_forest = replicate c.num_vertices [];
}

-- `connected_components` and `point_query` after the rounds, also after an exception.
unfoldable pub reset_samples : CcSketchAlg → CcSketchAlg
reset_samples c = record c { sketches = map reset_sample_state c.sketches }

module _ (hashes : Hashes) (alg : Algorithm) where
  unfoldable pub sample_supernode : List Bool → CcSketchAlg → Sketch → Option Supernode
  unfolding after_sample
  sample_supernode failures c skt = after_sample failures c skt (sample hashes skt)

  -- A round so far.
  pub record RoundState : Type 0 where
    pub state : CcSketchAlg
    pub modified : Bool
    pub except : Bool

  -- One iteration of `run_round_zero`: the sketch of a vertex is sampled where it stands.
  unfoldable pub keep_sample : RoundState → ℕ → Supernode → RoundState
  keep_sample r i s = record {
    state = record s.state { sketches = modify s.state.sketches i (λ _. s.skt) };
    modified = r.modified || s.modified;
    except = r.except || s.except;
  }

  unfoldable pub round_zero_step : RoundState → ℕ → List Bool → Option RoundState
  unfolding keep_sample
  round_zero_step r i failures = Option.map (keep_sample r i) (
      sample_supernode failures r.state
        (get_or r.state.sketches i (empty_sketch hashes alg r.state)))

  -- The iterations left, each with the attempts of its merge that fail without a cause.
  unfoldable pub round_zero_loop : RoundState → List (ℕ × List Bool) → Option RoundState
  unfolding round_zero_step
  round_zero_loop r [] = some r
  round_zero_loop r ((i, failures) ∷ rest) = do
    r' ← round_zero_step r i failures
    round_zero_loop r' rest

  -- `run_round_zero`. When `except` is set the exception is thrown again, in that state.
  unfoldable pub run_round_zero : CcSketchAlg → List (ℕ × List Bool) → Option RoundState
  unfolding round_zero_loop
  run_round_zero c order =
      round_zero_loop (record { state = c; modified = false; except = false }) order
