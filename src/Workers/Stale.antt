-- ===== src/Workers/Stale.antt =====
-- A false result of `get_data` from before the gutters were filled again (`do_work`,
-- `resume_workers` and `flush_workers` of include/worker_thread_group.h).
use graph_streaming_cc.Prelude.{ℕ, ◌≡◌, refl, arith, Bool, true, false, List, [], ◌∷◌}
use graph_streaming_cc.Workers.{
  GutteringSystem, invalid, Phase, getting, got_false, not_shutdown, pausing, waiting, pause,
  unpause, all_paused, wakes, got, WorkerThreadGroup, with_worker, check_shutdown, check_pause,
  set_paused, phase_step, worker_step, begin_flush, unpause_workers, WorkersRun, no_step, then_step,
}

module _ (gts : GutteringSystem) {A : Type 0} (apply_update_batch : A → ℕ → ℕ → List ℕ → A) where
  open gts use {G, get_data}

  abbrev Group : Type 0
  Group = WorkerThreadGroup gts apply_update_batch

  -- The only worker, told to pause, in a phase.
  abbrev alone : Group → Phase → (paused : Bool) → Group
  alone s ph paused = record s {
    workers = record { phase = ph; shutdown = false; do_pause = true; paused = paused } ∷ [];
    non_block = true;
  }

  -- The only worker, told to go on.
  abbrev going_on : Group → Phase → (paused : Bool) → G → Group
  going_on s ph paused g = record s {
    workers = record { phase = ph; shutdown = false; do_pause = false; paused = paused } ∷ [];
    gutters = g;
  }

  -- Let the only worker wait at the end of a flush, with gutters that are empty, so that `get_data`
  -- returns false. While the driver is in `resume_workers`, after its loop and before it calls
  -- `set_non_block(false)`, the worker can take a false result. If it then makes no step until the
  -- driver has filled the gutters, with whatever there is, and begins the next flush, the flush can
  -- end, with the worker paused, and leave all that the gutters hold where it is and the sketching
  -- algorithm as it was.
  pub flush_workers_skips :
      (s : Group) (empty filled : G)
      → s.workers
        ≡ record { phase = waiting; shutdown = false; do_pause = true; paused = true } ∷ []
      → get_data s.gutters s.non_block ≡ invalid empty
      → (stale : Group) × WorkersRun gts apply_update_batch
          (unpause_workers gts apply_update_batch s)
          stale
        × (s' : Group) × WorkersRun gts apply_update_batch
            (begin_flush gts apply_update_batch
              (record stale { non_block = false; gutters = filled }))
            s'
        × (all_paused s'.workers ≡ true)
        × (s'.gutters ≡ filled)
        × (s'.sketching_alg ≡ s.sketching_alg)
  unfolding begin_flush unpause_workers unpause pause worker_step phase_step got wakes with_worker
      check_shutdown check_pause set_paused all_paused
  flush_workers_skips s empty filled e false_result =
      let stale = going_on s got_false false empty in
      let full = record stale { non_block = false; gutters = filled } in
      (
        stale,
        then_step (going_on s getting false s.gutters) stale 0
            (then_step (unpause_workers gts apply_update_batch s)
              (going_on s getting false s.gutters) 0 no_step (rw e (omega arith)) (rw e refl))
            (omega arith) (rw false_result refl),
        alone full waiting true,
        then_step (alone full pausing false) (alone full waiting true) 0
            (then_step (alone full not_shutdown false) (alone full pausing false) 0
              (then_step (begin_flush gts apply_update_batch full) (alone full not_shutdown false) 0
                no_step (omega arith) refl)
              (omega arith) refl)
            (omega arith) refl,
        refl,
        refl,
        refl,
      )
