-- ===== src/Workers/Hang.antt =====
-- A flush that begins before a thread has woken from the last one (`resume_workers` and
-- `flush_workers` of include/worker_thread_group.h).
use graph_streaming_cc.Prelude.{
  ℕ, zero, suc, ◌≡◌, ◌≢◌, ◌<◌, refl, sym, ap, ◌∙◌, inl, inr, arith, Bool, true, false,
  if◌then◌else◌, none, some, List, [], ◌∷◌, map, get_or, set, length, length-set, ltb, Bool-cases,
  get_or-set_ne, eq-or-ne, subst,
}
use mathlib.Core.Option
use graph_streaming_cc.Workers.{
  UpdateBatch, Got, valid, invalid, waits, GutteringSystem, Phase, getting, working, got_false,
  not_shutdown, pausing, waiting, ended, WorkerThread, new_worker, pause, unpause, check_shutdown,
  check_pause, set_paused, apply_batch, wakes, all_paused, WorkerThreadGroup, with_worker, got,
  batch_callback, phase_step, worker_step, begin_flush, unpause_workers, resume_workers, WorkersRun,
  no_step, then_step,
}

-- It waits to be resumed, is told to pause, and does not say that it has paused.
pub record Asleep (w : WorkerThread) : Type 0 where
  pub waits_still : w.phase ≡ waiting
  pub told : w.do_pause ≡ true
  pub silent : w.paused ≡ false
  pub running : w.shutdown ≡ false

Asleep-group :
    (ws : List WorkerThread) (i : ℕ)
    → i < length ws
    → (get_or ws i new_worker).phase ≡ waiting
    → (get_or ws i new_worker).shutdown ≡ false
    → Asleep (get_or (map pause (map unpause ws)) i new_worker)
unfolding pause unpause
Asleep-group [] i h p q = absurd (omega arith)
Asleep-group (w ∷ ws) zero h p q = record {
  waits_still = p;
  told = refl;
  silent = refl;
  running = q;
}
Asleep-group (w ∷ ws) (suc i) h p q = Asleep-group ws i (omega arith) p q

one_silent :
    (ws : List WorkerThread) (i : ℕ)
    → i < length ws
    → (get_or ws i new_worker).paused ≡ false
    → all_paused ws ≡ false
unfolding all_paused
one_silent [] i h p = absurd (omega arith)
one_silent (w ∷ ws) zero h p = rw p refl
one_silent (w ∷ ws) (suc i) h p = elim (Bool-cases w.paused) [
  | inl e ↦ rw e (one_silent ws i (omega arith) p)
  | inr e ↦ rw e refl
]

module _ (gts : GutteringSystem) {A : Type 0} (apply_update_batch : A → ℕ → ℕ → List ℕ → A) where
  abbrev Group : Type 0
  Group = WorkerThreadGroup gts apply_update_batch

  -- The workers after a step: at most one has changed.
  Changes : Group → ℕ → Group → Type 0
  Changes s j s' = (w' : WorkerThread) × (s'.workers ≡ set s.workers j w')

  workers_of : {s s' : Group} → some s ≡ some s' → s'.workers ≡ s.workers
  workers_of e = sym (ap (λ (t : Group). t.workers) (Option.some_inj.0 e))

  got-Changes :
      (s s' : Group) (j : ℕ) (w : WorkerThread) (r : Got gts.G)
      → got gts apply_update_batch s j w r ≡ some s'
      → Changes s j s'
  unfolding got with_worker Changes
  got-Changes s s' j w (valid bs g) e = (record w { phase = working bs }, workers_of e)
  got-Changes s s' j w (invalid g) e = (record w { phase = got_false }, workers_of e)
  got-Changes s s' j w waits e = cc

  callback_workers :
      (s : Group) (j : ℕ) (b : UpdateBatch)
      → (apply_batch gts apply_update_batch s j b).workers ≡ s.workers
  unfolding apply_batch batch_callback
  callback_workers s j b = elim (Bool-cases (ltb 0 (length b.upd_vec))) [
    | inl e ↦ rw e refl
    | inr e ↦ rw e refl
  ]

  if_some : (t : Bool) (s s' : Group) → (if t then some s else none) ≡ some s' → some s ≡ some s'
  if_some true s s' e = e
  if_some false s s' e = cc

  phase-Changes :
      (s s' : Group) (j : ℕ) (w : WorkerThread) (ph : Phase)
      → phase_step gts apply_update_batch s j w ph ≡ some s'
      → Changes s j s'
  unfolding phase_step with_worker Changes
  phase-Changes s s' j w getting e = got-Changes s s' j w (gts.get_data s.gutters s.non_block) e
  phase-Changes s s' j w (working (b ∷ bs)) e = (
    record w { phase = working bs },
    workers_of e ∙ ap (λ ws. set ws j (record w { phase = working bs })) (callback_workers s j b),
  )
  phase-Changes s s' j w (working []) e = (record w { phase = getting }, workers_of e)
  phase-Changes s s' j w got_false e = (check_shutdown w, workers_of e)
  phase-Changes s s' j w not_shutdown e = (check_pause w, workers_of e)
  phase-Changes s s' j w pausing e = (set_paused w, workers_of e)
  phase-Changes s s' j w waiting e =
      (record w { phase = getting; paused = false }, workers_of (if_some (wakes w) _ s' e))
  phase-Changes s s' j w ended e = cc

  -- A worker that is asleep makes no step.
  no_own_step :
      (s s' : Group) (i : ℕ)
      → Asleep (get_or s.workers i new_worker)
      → ¬ (worker_step gts apply_update_batch s i ≡ some s')
  unfolding worker_step phase_step wakes
  no_own_step s s' i a e = none≢some (
      sym (stays (get_or s.workers i new_worker) a)
      ∙ sym (
          ap (λ ph. phase_step gts apply_update_batch s i (get_or s.workers i new_worker) ph)
            a.waits_still)
      ∙ e)
    where
      none≢some : none ≢ some s'
      none≢some q = cc

      stays : (w : WorkerThread) → Asleep w → phase_step gts apply_update_batch s i w waiting ≡ none
      stays w a = rw (a.told, a.running) refl

  Asleep-step :
      (s s' : Group) (i j : ℕ)
      → j < length s.workers
      → Asleep (get_or s.workers i new_worker)
      → worker_step gts apply_update_batch s j ≡ some s'
      → Asleep (get_or s'.workers i new_worker) × (length s'.workers ≡ length s.workers)
  unfolding worker_step Changes
  Asleep-step s s' i j h a e = elim (eq-or-ne j i) [
    | inl same ↦ absurd (
        no_own_step s s' i a (subst (λ k. worker_step gts apply_update_batch s k ≡ some s') same e))
    | inr ne ↦
        let w = get_or s.workers j new_worker in
        let (w', changed) = phase-Changes s s' j w w.phase e in
        (
          subst Asleep
              (sym (
                ap (λ ws. get_or ws i new_worker) changed
                ∙ get_or-set_ne s.workers j i w' new_worker ne))
              a,
          ap length changed ∙ length-set s.workers j w',
        )
  ]

  stays-Asleep :
      {start s : Group} (i : ℕ)
      → i < length start.workers
      → Asleep (get_or start.workers i new_worker)
      → WorkersRun gts apply_update_batch start s
      → Asleep (get_or s.workers i new_worker) × (length s.workers ≡ length start.workers)
  stays-Asleep i h a no_step = (a, refl)
  stays-Asleep i h a (then_step s s' j before inside step) =
      let (b, size) = stays-Asleep i h a before in
      let (c, size') = Asleep-step s s' i j inside b step in (c, size' ∙ size)

  length-both : (ws : List WorkerThread) → length (map pause (map unpause ws)) ≡ length ws
  length-both [] = refl
  length-both (w ∷ ws) = ap suc (length-both ws)

  -- When a worker that is not stopped still waits from the last flush as the driver resumes the
  -- workers and at once flushes again, the loop of `flush_workers` never ends: after any steps of the
  -- workers they are not all paused.
  pub flush_workers_hangs :
      (s s' : Group) (i : ℕ)
      → i < length s.workers
      → (get_or s.workers i new_worker).phase ≡ waiting
      → (get_or s.workers i new_worker).shutdown ≡ false
      → WorkersRun gts apply_update_batch
          (begin_flush gts apply_update_batch (resume_workers gts apply_update_batch s))
          s'
      → all_paused s'.workers ≡ false
  unfolding begin_flush resume_workers unpause_workers
  flush_workers_hangs s s' i h waits_still running run =
      let start = Asleep-group s.workers i h waits_still running in
      let (a, size) = stays-Asleep i (omega (arith, length-both s.workers)) start run in
      one_silent s'.workers i (omega (arith, size, length-both s.workers)) a.silent
