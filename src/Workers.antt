-- ===== src/Workers.antt =====
-- include/worker_thread_group.h: the worker threads, and how the driver pauses and resumes them;
-- with `batch_callback` of include/graph_sketch_driver.h. A step of a thread is what it does
-- between two points where another thread can see it, and reads no more than one shared flag.
pub mod Tests
pub mod Count
pub mod Flush
pub mod Hang
pub mod Stale
use graph_streaming_cc.Prelude.{
  ℕ, ◌+◌, ◌%◌, ◌^◌, ◌≡◌, ◌<◌, ◌==◌, Bool, true, false, not, ◌&&◌, ◌||◌, if◌then◌else◌, Option, none,
  some, List, [], ◌∷◌, map, get_or, set, length, ltb,
}

-- An `update_batch`: `upd_vec` of the vertex `node_idx`.
pub record UpdateBatch : Type 0 where
  pub node_idx : ℕ
  pub upd_vec : List ℕ

-- How often `x` occurs.
pub times : ℕ → List ℕ → ℕ
times x [] = 0
times x (y ∷ ys) = (if y == x then 1 else 0) + times x ys

-- How often batches have the update of the edge from `v` to `x`.
pub batch_times : (v x : ℕ) → UpdateBatch → ℕ
unfolding times
batch_times v x b = if b.node_idx == v then times x b.upd_vec else 0

pub updates_in : (v x : ℕ) → List UpdateBatch → ℕ
unfolding batch_times
updates_in v x [] = 0
updates_in v x (b ∷ bs) = batch_times v x b + updates_in v x bs

-- What `get_data` of the guttering system does: it fills `data`, or returns false, or waits.
pub data Got (G : Type 0) : Type 0 where
  valid : List UpdateBatch → G → Got G
  invalid : G → Got G
  waits : Got G

-- The guttering system, which is a library: `pending` counts how often it holds the update of the
-- edge from one vertex to another. It hands out what it holds, and returns false only when it holds
-- nothing.
pub record GutteringSystem : Type 1 where
  pub G : Type 0
  pub pending : G → (v x : ℕ) → ℕ
  pub get_data : G → (non_block : Bool) → Got G
  pub valid_law :
      (g : G) (nb : Bool) (bs : List UpdateBatch) (g' : G)
      → get_data g nb ≡ valid bs g'
      → (v x : ℕ) → pending g v x ≡ updates_in v x bs + pending g' v x
  pub invalid_law :
      (g : G) (nb : Bool) (g' : G)
      → get_data g nb ≡ invalid g'
      → (v x : ℕ) → (pending g v x ≡ 0) × (pending g' v x ≡ 0)

-- Where a thread stands in `do_work`: at `get_data`; in the loop over the batches; before the read
-- of `shutdown` after a false result; before the read of `do_pause`; before it takes the lock, when
-- it has read that it is to pause; in the wait for the end of a flush; or after the loop.
pub data Phase : Type 0 where
  getting : Phase
  working : List UpdateBatch → Phase
  got_false : Phase
  not_shutdown : Phase
  pausing : Phase
  waiting : Phase
  ended : Phase

-- `WorkerThread`
pub record WorkerThread : Type 0 where
  pub phase : Phase
  pub shutdown : Bool
  pub do_pause : Bool
  pub paused : Bool

abbrev pub new_worker : WorkerThread
new_worker = record { phase = getting; shutdown = false; do_pause = false; paused = false }

pub pause : WorkerThread → WorkerThread
pause w = record w { do_pause = true }

pub unpause : WorkerThread → WorkerThread
unpause w = record w { do_pause = false; paused = false }

pub stop : WorkerThread → WorkerThread
stop w = record w { shutdown = true }

-- The two tests after a `get_data` that returned false, between which another thread may run.
pub check_shutdown : WorkerThread → WorkerThread
check_shutdown w = record w { phase = if w.shutdown then ended else not_shutdown }

pub check_pause : WorkerThread → WorkerThread
check_pause w = record w { phase = if w.do_pause then pausing else getting }

-- `paused = true`, with the lock.
pub set_paused : WorkerThread → WorkerThread
set_paused w = record w { phase = waiting; paused = true }

-- `[&] { return !do_pause || shutdown; }`
pub wakes : WorkerThread → Bool
wakes w = not w.do_pause || w.shutdown

pub all_paused : List WorkerThread → Bool
all_paused [] = true
all_paused (w ∷ ws) = w.paused && all_paused ws

-- `A` is the state of the sketching algorithm, with its `apply_update_batch`.
module _ (gts : GutteringSystem) {A : Type 0}
    (apply_update_batch : A → (thr_id src_vertex : ℕ) → List ℕ → A) where
  open gts use {G, get_data}

  -- `WorkerThreadGroup` with what its threads share. `total_updates` is the driver's counter.
  pub record WorkerThreadGroup : Type 0 where
    pub workers : List WorkerThread
    pub gutters : G
    pub non_block : Bool
    pub total_updates : ℕ
    pub sketching_alg : A

  pub with_worker : WorkerThreadGroup → ℕ → WorkerThread → WorkerThreadGroup
  with_worker s i w = record s { workers = set s.workers i w }

  pub got : WorkerThreadGroup → ℕ → WorkerThread → Got G → Option WorkerThreadGroup
  unfolding with_worker
  got s i w (valid bs g) =
      some (with_worker (record s { gutters = g }) i (record w { phase = working bs }))
  got s i w (invalid g) =
      some (with_worker (record s { gutters = g }) i (record w { phase = got_false }))
  got s i w waits = none

  -- `driver->batch_callback(id, batch.node_idx, batch.upd_vec)`. The counter is a 64-bit word.
  pub batch_callback : WorkerThreadGroup → ℕ → UpdateBatch → WorkerThreadGroup
  batch_callback s id b = record s {
    total_updates = (s.total_updates + length b.upd_vec) % 2 ^ 64;
    sketching_alg = apply_update_batch s.sketching_alg id b.node_idx b.upd_vec;
  }

  -- `if (batch.upd_vec.size() > 0)`
  pub apply_batch : WorkerThreadGroup → ℕ → UpdateBatch → WorkerThreadGroup
  unfolding batch_callback
  apply_batch s id b = if ltb 0 (length b.upd_vec) then batch_callback s id b else s

  -- One step of the thread in its phase; `none` when it has to wait.
  pub phase_step : WorkerThreadGroup → ℕ → WorkerThread → Phase → Option WorkerThreadGroup
  unfolding got wakes apply_batch check_shutdown check_pause set_paused
  phase_step s i w getting = got s i w (get_data s.gutters s.non_block)
  phase_step s i w (working (b ∷ bs)) =
      some (with_worker (apply_batch s i b) i (record w { phase = working bs }))
  phase_step s i w (working []) = some (with_worker s i (record w { phase = getting }))
  phase_step s i w got_false = some (with_worker s i (check_shutdown w))
  phase_step s i w not_shutdown = some (with_worker s i (check_pause w))
  phase_step s i w pausing = some (with_worker s i (set_paused w))
  phase_step s i w waiting =
      if wakes w
      then some (with_worker s i (record w { phase = getting; paused = false }))
      else none
  phase_step s i w ended = none

  pub worker_step : WorkerThreadGroup → ℕ → Option WorkerThreadGroup
  unfolding phase_step
  worker_step s i = let w = get_or s.workers i new_worker in phase_step s i w w.phase

  -- `flush_workers` before its loop, which ends when `all_paused` of the workers.
  pub begin_flush : WorkerThreadGroup → WorkerThreadGroup
  unfolding pause
  begin_flush s = record s { non_block = true; workers = map pause s.workers }

  -- The loop of `resume_workers`, before `set_non_block(false)`.
  pub unpause_workers : WorkerThreadGroup → WorkerThreadGroup
  unfolding unpause
  unpause_workers s = record s { workers = map unpause s.workers }

  pub resume_workers : WorkerThreadGroup → WorkerThreadGroup
  unfolding unpause_workers
  resume_workers s = record (unpause_workers s) { non_block = false }

  -- The destructor before it joins the threads.
  pub stop_workers : WorkerThreadGroup → WorkerThreadGroup
  unfolding stop
  stop_workers s = record s { non_block = true; workers = map stop s.workers }

  -- Steps of the workers alone, as they are while the driver waits in `flush_workers`.
  pub data WorkersRun (start : WorkerThreadGroup) : WorkerThreadGroup → Type 0 where
    no_step : WorkersRun start start
    then_step :
        (s s' : WorkerThreadGroup) (i : ℕ)
        → WorkersRun start s
        → i < length s.workers
        → worker_step s i ≡ some s'
        → WorkersRun start s'
