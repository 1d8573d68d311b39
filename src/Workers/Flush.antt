-- ===== src/Workers/Flush.antt =====
-- `WorkerThreadGroup::flush_workers` (include/worker_thread_group.h): when its loop ends, all that
-- the guttering system was given has been applied.
use graph_streaming_cc.Prelude.{
  ℕ, zero, suc, ◌+◌, ◌≡◌, ◌≢◌, ◌<◌, refl, sym, ap, ◌∙◌, inl, inr, arith, true, false, ◌&&◌, List,
  [], ◌∷◌, ◌++◌, ◌%◌, ◌^◌, map, get_or, length, Bool-cases,
}
use graph_streaming_cc.Workers.{
  GutteringSystem, WorkerThread, new_worker, pause, all_paused, begin_flush, WorkersRun, no_step,
  then_step,
}
use graph_streaming_cc.Workers.Count.{
  in_phase, in_flight, Calm, Log, times_in, size_of, times_in-append, size_of-append, applied,
  applied-append, Group, worker_at, Empty, Kept, worker_step-Kept,
}

all_paused-cons :
    (w : WorkerThread) (ws : List WorkerThread)
    → all_paused (w ∷ ws) ≡ true
    → (w.paused ≡ true) × (all_paused ws ≡ true)
unfolding all_paused
all_paused-cons w ws h = elim (Bool-cases w.paused) [
  | inl p ↦ (p, sym (ap (λ t. t && all_paused ws) p) ∙ h)
  | inr n ↦ absurd (false≢true (sym (ap (λ t. t && all_paused ws) n) ∙ h))
]
  where
    false≢true : false ≢ true
    false≢true q = cc

-- Workers that wait hold nothing.
none_in_flight :
    (E : Type 0) (v x : ℕ) (ws : List WorkerThread)
    → ((j : ℕ) → Calm E (get_or ws j new_worker))
    → all_paused ws ≡ true
    → in_flight v x ws ≡ 0
unfolding in_flight in_phase
none_in_flight E v x [] calm h = refl
none_in_flight E v x (w ∷ ws) calm h =
    let (p, rest) = all_paused-cons w ws h in
    omega (
      arith,
      ap (in_phase v x) ((calm 0).waits_paused p),
      none_in_flight E v x ws (λ j. calm (suc j)) rest,
    )

length-pause : (ws : List WorkerThread) → length (map pause ws) ≡ length ws
length-pause [] = refl
length-pause (w ∷ ws) = ap suc (length-pause ws)

in_flight-pause :
    (v x : ℕ) (ws : List WorkerThread) → in_flight v x (map pause ws) ≡ in_flight v x ws
unfolding in_flight pause
in_flight-pause v x [] = refl
in_flight-pause v x (w ∷ ws) = ap (λ t. in_phase v x w.phase + t) (in_flight-pause v x ws)

Calm-pause :
    (E : Type 0) (ws : List WorkerThread)
    → ((j : ℕ) → Calm E (get_or ws j new_worker))
    → (j : ℕ) → Calm E (get_or (map pause ws) j new_worker)
unfolding pause
Calm-pause E [] calm j = calm j
Calm-pause E (w ∷ ws) calm zero = record {
  waits_paused = (calm 0).waits_paused;
  empty_paused = (calm 0).empty_paused;
  empty_false = (calm 0).empty_false;
}
Calm-pause E (w ∷ ws) calm (suc j) = Calm-pause E ws (λ k. calm (suc k)) j

first_paused :
    {E : Type 0} (ws : List WorkerThread)
    → 0 < length ws
    → ((j : ℕ) → Calm E (get_or ws j new_worker))
    → all_paused ws ≡ true
    → E
first_paused [] h calm stopped = absurd (omega arith)
first_paused (w ∷ ws) h calm stopped = (calm 0).empty_paused (all_paused-cons w ws stopped).0

module _ (gts : GutteringSystem) {A : Type 0} (apply_update_batch : A → ℕ → ℕ → List ℕ → A) where
  open gts use {pending}

  -- Two runs, one after the other.
  Kept-trans :
      (s t u : Group gts apply_update_batch)
      → Kept gts apply_update_batch s t
      → Kept gts apply_update_batch t u
      → Kept gts apply_update_batch s u
  Kept-trans s t u k l = record {
    log = k.log ++ l.log;
    alg =
        l.alg
        ∙ ap (λ a. applied gts apply_update_batch a l.log) k.alg
        ∙ sym (applied-append gts apply_update_batch s.sketching_alg k.log l.log);
    counted = omega (arith, k.counted, l.counted, size_of-append k.log l.log);
    conserved =
        λ v x. omega (arith, k.conserved v x, l.conserved v x, times_in-append v x k.log l.log);
    same_workers = l.same_workers ∙ k.same_workers;
    calm = l.calm;
  }

  run-Kept :
      {start s : Group gts apply_update_batch}
      → ((j : ℕ)
          → Calm
              (Empty gts apply_update_batch start.gutters)
              (worker_at gts apply_update_batch start j))
      → WorkersRun gts apply_update_batch start s
      → Kept gts apply_update_batch start s
  unfolding applied times_in size_of
  run-Kept {start} calm no_step = record {
    log = [];
    alg = refl;
    counted = ap (λ t. t % 2 ^ 64) (omega arith);
    conserved = λ v x. omega arith;
    same_workers = refl;
    calm = calm;
  }
  run-Kept calm (then_step s s' i before h step) =
      let k = run-Kept calm before in
      Kept-trans _ s s' k (worker_step-Kept gts apply_update_batch s i h k.calm s' step)

  -- After a flush: the gutters are empty, and the calls of `batch_callback` since its beginning have
  -- applied each update as often as the gutters and the workers had it.
  pub record Flushed (s s' : Group gts apply_update_batch) : Type 0 where
    pub empty : Empty gts apply_update_batch s'.gutters
    pub log : Log
    pub alg : s'.sketching_alg ≡ applied gts apply_update_batch s.sketching_alg log
    pub counted : s'.total_updates % 2 ^ 64 ≡ (s.total_updates + size_of log) % 2 ^ 64
    pub all_applied : (v x : ℕ) → times_in v x log ≡ in_flight v x s.workers + pending s.gutters v x

  -- In a group with a worker, where every paused worker waits, and the gutters are empty if a worker
  -- is paused or has a false result of `get_data` in hand: when the loop of `flush_workers` ends,
  -- after whatever steps of the workers, the gutters are empty, and the calls of `batch_callback`
  -- since its beginning have given the sketching algorithm every update that was in the gutters or
  -- in the hands of a worker, exactly as often as it was there, and have counted them, modulo 2 ^ 64.
  pub flush_workers_lem :
      (s s' : Group gts apply_update_batch)
      → ((j : ℕ)
          → Calm (Empty gts apply_update_batch s.gutters) (worker_at gts apply_update_batch s j))
      → 0 < length s.workers
      → WorkersRun gts apply_update_batch (begin_flush gts apply_update_batch s) s'
      → all_paused s'.workers ≡ true
      → Flushed s s'
  unfolding begin_flush
  flush_workers_lem s s' calm some_worker run stopped =
      let k = run-Kept (Calm-pause (Empty gts apply_update_batch s.gutters) s.workers calm) run in
      let empty =
        first_paused s'.workers (omega (arith, k.same_workers, length-pause s.workers)) k.calm
          stopped in
      record {
        empty = empty;
        log = k.log;
        alg = k.alg;
        counted = k.counted;
        all_applied = λ v x. omega (
          arith,
          k.conserved v x,
          in_flight-pause v x s.workers,
          empty v x,
          none_in_flight (Empty gts apply_update_batch s'.gutters) v x s'.workers k.calm stopped,
        );
      }
