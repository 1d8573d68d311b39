-- ===== src/Cc/Round.antt =====
-- A later round of a query in src/cc_sketch_alg.cpp: `GlobalMergeData`, `merge_global` and
-- `perform_boruvka_round`. A thread's step is one iteration of its loop, or what follows the loop.
-- The merges into a shared sketch hold its lock; a step that also announces the number of merges
-- needed gives no other thread a query in between, since its own merge is still missing.
pub mod Kept
pub mod Whole
pub mod Spent
pub mod Late
pub mod Checksums
pub mod Tests
pub mod Runs
use graph_streaming_cc.Prelude.{
  ◌>>=◌, ℕ, zero, suc, ◌+◌, ◌-◌, ◌%◌, ◌^◌, Bool, true, false, ◌&&◌, ◌||◌, ltb, leb, ◌==◌,
  if◌then◌else◌, Option, none, some, List, [], ◌∷◌, get_or, set, modify, map, length, range_from,
}
use mathlib.Core.Option
use graph_streaming_cc.Bucket.{Hashes}
use graph_streaming_cc.Sketch.{Sketch, range_merge, zero_contents}
use graph_streaming_cc.Sketch.Update.{Algorithm}
use graph_streaming_cc.Cc.{CcSketchAlg, empty_sketch}
use graph_streaming_cc.Cc.Query.{Supernode, sample_supernode, RoundState, run_round_zero}
use graph_streaming_cc.Cc.Partition.{
  MergeInstr, instr_at, get_ith_partition, find_last_partition_of_root,
}

pub record GlobalMergeData : Type 0 where
  pub sketch : Sketch
  pub num_merge_needed : ℕ
  pub num_merge_done : ℕ

-- The variables of one thread; `next` is the `i` of its loop, which ends at `end`.
pub record Thread : Type 0 where
  pub thr_id : ℕ
  pub start : ℕ
  pub end : ℕ
  pub next : ℕ
  pub local_sketch : Sketch
  pub root_from_left : Bool
  pub root_exits_right : Bool
  pub cur_root : ℕ
  pub local_except : Bool
  pub finished : Bool

-- What the threads share.
pub record Shared : Type 0 where
  pub state : CcSketchAlg
  pub global_merges : List GlobalMergeData
  pub modified : Bool
  pub except : Bool

-- The constructor of `GlobalMergeData`, with the sketch that it makes.
unfoldable pub new_global : Sketch → GlobalMergeData
new_global sketch = record { sketch = sketch; num_merge_needed = 2 ^ 64 - 1; num_merge_done = 0 }

-- The start of a round.
pub restart_global : GlobalMergeData → GlobalMergeData
restart_global g = record {
  sketch = zero_contents g.sketch;
  num_merge_needed = 2 ^ 64 - 1;
  num_merge_done = 0;
}

-- With whether it is safe to query now.
pub merge_global : ℕ → Sketch → GlobalMergeData → GlobalMergeData × Bool
merge_global cur_round local_sketch global =
    let done = (global.num_merge_done + 1) % 2 ^ 64 in
    (
      record global {
        sketch = range_merge global.sketch local_sketch cur_round 1;
        num_merge_done = done;
      },
      leb global.num_merge_needed done,
    )

-- The variables of a thread before its loop, with a zero sketch.
pub begin_thread : Sketch → ℕ → List MergeInstr → ℕ × ℕ → ℕ → Thread
begin_thread blank num_vertices merge_instr (start, end) thr_id =
    let root = λ (i : ℕ). (instr_at merge_instr i).root in
    record {
      thr_id = thr_id;
      start = start;
      end = end;
      next = start;
      local_sketch = blank;
      root_from_left = ltb 0 start && root (start - 1) == root start;
      root_exits_right = ltb end num_vertices && root (end - 1) == root end;
      cur_root = root start;
      local_except = false;
      finished = false;
    }

-- Whether what it reads of `merge_instr` is in bounds.
pub reads_inside : ℕ → List MergeInstr → ℕ × ℕ → Bool
reads_inside num_vertices merge_instr (start, end) =
    ltb start (length merge_instr)
    && (leb num_vertices end || (ltb 0 end && ltb end (length merge_instr)))

pub start_thread : Sketch → ℕ → List MergeInstr → (num_threads thr_id : ℕ) → Option Thread
unfolding begin_thread reads_inside
start_thread blank num_vertices merge_instr num_threads thr_id =
    let partition = get_ith_partition num_vertices thr_id num_threads in
    if reads_inside num_vertices merge_instr partition
    then some (begin_thread blank num_vertices merge_instr partition thr_id)
    else none

pub start_threads : Sketch → ℕ → List MergeInstr → ℕ → List ℕ → Option (List Thread)
unfolding start_thread
start_threads blank num_vertices merge_instr num_threads [] = some []
start_threads blank num_vertices merge_instr num_threads (i ∷ is) = do
  t ← start_thread blank num_vertices merge_instr num_threads i
  ts ← start_threads blank num_vertices merge_instr num_threads is
  some (t ∷ ts)

-- A sample of the thread's own sketch, and of a shared one.
pub noted_local : Shared → Thread → Supernode → Shared × Thread
noted_local sh t s = (
  record sh { state = s.state; modified = sh.modified || s.modified },
  record t { local_sketch = s.skt; local_except = t.local_except || s.except },
)

pub noted_global : ℕ → Shared → Thread → Supernode → Shared × Thread
noted_global id sh t s = (
  record sh {
    state = s.state;
    modified = sh.modified || s.modified;
    global_merges = modify sh.global_merges id (λ g. record g { sketch = s.skt });
  },
  record t { local_except = t.local_except || s.except },
)

-- The first thread of a root sets how many merges the shared sketch needs, in 64 bits.
pub announce : ℕ → Shared → Thread → Shared
announce global_id sh t = if t.root_from_left then sh else record sh {
  global_merges =
      modify sh.global_merges global_id
        (λ g. record g { num_merge_needed = (global_id + 2 ^ 64 - t.thr_id + 1) % 2 ^ 64 });
}

pub leave : Shared × Thread → Shared × Thread
leave p = (record p.0 { except = p.0.except || p.1.local_except }, record p.1 { finished = true })

pub change_root : ℕ → Shared × Thread → Shared × Thread
change_root root p =
    (p.0, record p.1 { cur_root = root; local_sketch = zero_contents p.1.local_sketch })

pub left_resolved : Shared × Thread → Shared × Thread
left_resolved p = (p.0, record p.1 { root_from_left = false })

module _ (hashes : Hashes) (alg : Algorithm) where
  abbrev pub global_at : Shared → ℕ → GlobalMergeData
  unfolding new_global
  global_at sh id = get_or sh.global_merges id (new_global (empty_sketch hashes alg sh.state))

  pub sample_local : List Bool → Shared → Thread → Option (Shared × Thread)
  unfolding noted_local
  sample_local failures sh t =
      Option.map (noted_local sh t) (sample_supernode hashes alg failures sh.state t.local_sketch)

  pub sample_global : List Bool → ℕ → Shared → Thread → Option (Shared × Thread)
  unfolding noted_global
  sample_global failures id sh t =
      Option.map (noted_global id sh t)
        (sample_supernode hashes alg failures sh.state (global_at sh id).sketch)

  -- A call of `merge_global`, and the query if it is ready.
  pub merge_and_query : List Bool → (cur_round id : ℕ) → Shared → Thread → Option (Shared × Thread)
  unfolding sample_global merge_global
  merge_and_query failures cur_round id sh t =
      let merged = merge_global cur_round t.local_sketch (global_at sh id) in
      let sh' = record sh { global_merges = modify sh.global_merges id (λ _. merged.0) } in
      let query = sample_global failures id sh' t in
      if ltb id (length sh.global_merges) then (if merged.1 then query else some (sh', t)) else none

  -- The root changes: the sketch of the last one is queried.
  pub end_root : List Bool → ℕ → Shared → Thread → Option (Shared × Thread)
  unfolding merge_and_query sample_local left_resolved
  end_root failures cur_round sh t =
      if t.root_from_left
      then Option.map left_resolved (merge_and_query failures cur_round t.thr_id sh t)
      else sample_local failures sh t

  -- `local_sketch.range_merge(*sketches[child], cur_round, 1)`
  pub merge_child : (cur_round child : ℕ) → Shared × Thread → Option (Shared × Thread)
  merge_child cur_round child (sh, t) =
      if ltb child (length sh.state.sketches)
      then some (
        sh,
        record t {
          local_sketch =
              range_merge t.local_sketch
                (get_or sh.state.sketches child (empty_sketch hashes alg sh.state)) cur_round 1;
          next = suc t.next;
        },
      )
      else none

  -- One iteration of the loop.
  pub visit : List Bool → ℕ → List MergeInstr → Shared → Thread → Option (Shared × Thread)
  unfolding end_root change_root merge_child
  visit failures cur_round merge_instr sh t =
      let instr = instr_at merge_instr t.next in
      let changed = Option.map (change_root instr.root) (end_root failures cur_round sh t) in
      if ltb t.next (length merge_instr)
      then (if instr.root == t.cur_root then some (sh, t) else changed)
        >>= merge_child cur_round instr.child
      else none

  -- After the loop.
  pub after_loop : List Bool → ℕ → List MergeInstr → ℕ → Shared → Thread → Option (Shared × Thread)
  unfolding merge_and_query sample_local announce
  after_loop failures cur_round merge_instr num_threads sh t =
      let global_id = find_last_partition_of_root merge_instr t.cur_root t.start num_threads in
      if t.root_exits_right || t.root_from_left
      then merge_and_query failures cur_round global_id (announce global_id sh t) t
      else sample_local failures sh t

  pub thread_step : List Bool → ℕ → List MergeInstr → ℕ → Shared → Thread → Option (Shared × Thread)
  unfolding visit after_loop leave
  thread_step failures cur_round merge_instr num_threads sh t =
      if t.finished
      then some (sh, t)
      else if ltb t.next t.end
      then visit failures cur_round merge_instr sh t
      else Option.map leave (after_loop failures cur_round merge_instr num_threads sh t)

  -- A thread that no other one interrupts.
  pub run_thread : ℕ → ℕ → List MergeInstr → ℕ → Shared → Thread → Option (Shared × Thread)
  unfolding thread_step
  run_thread zero cur_round merge_instr num_threads sh t = some (sh, t)
  run_thread (suc fuel) cur_round merge_instr num_threads sh t = do
    p ← thread_step [] cur_round merge_instr num_threads sh t
    run_thread fuel cur_round merge_instr num_threads p.0 p.1

  -- The threads that are left run to their ends, one after the other.
  pub run_rest : ℕ → List MergeInstr → ℕ → Shared → List Thread → Option (Shared × List Thread)
  unfolding run_thread
  run_rest cur_round merge_instr num_threads sh [] = some (sh, [])
  run_rest cur_round merge_instr num_threads sh (t ∷ ts) = do
    p ← run_thread (suc (t.end - t.next)) cur_round merge_instr num_threads sh t
    Option.map (λ (q : Shared × List Thread). (q.0, p.1 ∷ q.1))
        (run_rest cur_round merge_instr num_threads p.0 ts)

  -- A step of the thread in place `i`; one that does not exist makes none.
  pub step_at :
      List Bool → ℕ → List MergeInstr → ℕ → Shared → List Thread → ℕ → Option (Shared × List Thread)
  unfolding thread_step
  step_at failures cur_round merge_instr num_threads sh [] i = some (sh, [])
  step_at failures cur_round merge_instr num_threads sh (t ∷ ts) zero =
      Option.map (λ (p : Shared × Thread). (p.0, p.1 ∷ ts))
        (thread_step failures cur_round merge_instr num_threads sh t)
  step_at failures cur_round merge_instr num_threads sh (t ∷ ts) (suc i) =
      Option.map (λ (p : Shared × List Thread). (p.0, t ∷ p.1))
        (step_at failures cur_round merge_instr num_threads sh ts i)

  -- The steps in the order of a schedule, each with the attempts of its merge that fail without a
  -- cause, and then what is left.
  pub run_threads :
      ℕ
      → List MergeInstr
      → ℕ
      → Shared
      → List Thread
      → List (ℕ × List Bool)
      → Option (Shared × List Thread)
  unfolding run_rest step_at
  run_threads cur_round merge_instr num_threads sh ts [] =
      run_rest cur_round merge_instr num_threads sh ts
  run_threads cur_round merge_instr num_threads sh ts ((i, failures) ∷ rest) = do
    p ← step_at failures cur_round merge_instr num_threads sh ts i
    run_threads cur_round merge_instr num_threads p.0 p.1 rest

  unfoldable pub of_round_zero : List GlobalMergeData → RoundState hashes alg → Shared
  of_round_zero global_merges r = record {
    state = r.state;
    global_merges = global_merges;
    modified = r.modified;
    except = r.except;
  }

  -- `perform_boruvka_round`. When `except` is set the exception is thrown again, in that state. In
  -- the first round the schedule lists the iterations.
  unfoldable pub perform_boruvka_round :
      (num_threads cur_round : ℕ)
      → List MergeInstr
      → List GlobalMergeData
      → CcSketchAlg
      → List (ℕ × List Bool)
      → Option Shared
  unfolding start_threads run_threads restart_global of_round_zero
  perform_boruvka_round num_threads zero merge_instr global_merges c schedule =
      Option.map (of_round_zero global_merges) (run_round_zero hashes alg c schedule)
  perform_boruvka_round num_threads (suc k) merge_instr global_merges c schedule = do
    ts ←
        start_threads (empty_sketch hashes alg c) c.num_vertices merge_instr num_threads
          (range_from 0 num_threads)
    Option.map (λ (p : Shared × List Thread). p.0)
        (run_threads (suc k) merge_instr num_threads
          (record {
            state = c;
            global_merges = map restart_global global_merges;
            modified = false;
            except = false;
          })
          ts schedule)
