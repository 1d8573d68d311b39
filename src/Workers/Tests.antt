-- ===== src/Workers/Tests.antt =====
-- Runs of include/worker_thread_group.h with two workers and a list of batches for the gutters.
use graph_streaming_cc.Prelude.{
  ℕ, zero, suc, ◌+◌, ◌≡◌, refl, sym, ap, ap₂, Bool, true, false, List, [], ◌∷◌, ◌++◌, arith,
}
use graph_streaming_cc.Workers.{
  UpdateBatch, updates_in, Got, valid, invalid, waits, GutteringSystem, Phase, getting, working,
  waiting, WorkerThread, new_worker, pause, unpause, all_paused, WorkerThreadGroup, got_false,
  not_shutdown, pausing, check_shutdown, check_pause, set_paused, apply_batch, with_worker, got,
  batch_callback, phase_step, worker_step, begin_flush, unpause_workers, resume_workers, WorkersRun,
  no_step, then_step,
}
use graph_streaming_cc.Workers.Count.{has_false, Calm, Empty, worker_at}
use graph_streaming_cc.Workers.Flush.{Flushed, flush_workers_lem}
use graph_streaming_cc.Workers.Hang.{flush_workers_hangs}
use graph_streaming_cc.Workers.Stale.{flush_workers_skips}

held : List (List UpdateBatch) → (v x : ℕ) → ℕ
held [] v x = 0
held (bs ∷ rest) v x = updates_in v x bs + held rest v x

take : List (List UpdateBatch) → Bool → Got (List (List UpdateBatch))
take [] true = invalid []
take [] false = waits
take (bs ∷ rest) nb = valid bs rest

first_batch : {A : Type 0} → List UpdateBatch → Got A → List UpdateBatch
first_batch d (valid bs g) = bs
first_batch d (invalid g) = d
first_batch d waits = d

state_after : {A : Type 0} → A → Got A → A
state_after d (valid bs g) = g
state_after d (invalid g) = g
state_after d waits = d

held_valid :
    (g : List (List UpdateBatch)) (nb : Bool) (bs : List UpdateBatch) (g' : List (List UpdateBatch))
    → take g nb ≡ valid bs g'
    → (v x : ℕ) → held g v x ≡ updates_in v x bs + held g' v x
unfolding take held first_batch state_after
held_valid [] true bs g' e v x = cc
held_valid [] false bs g' e v x = cc
held_valid (b ∷ rest) nb bs g' e v x =
    ap₂ (λ y z. updates_in v x y + held z v x) (ap (first_batch []) e) (ap (state_after []) e)

held_invalid :
    (g : List (List UpdateBatch)) (nb : Bool) (g' : List (List UpdateBatch))
    → take g nb ≡ invalid g'
    → (v x : ℕ) → (held g v x ≡ 0) × (held g' v x ≡ 0)
unfolding take held state_after
held_invalid [] true g' e v x = (refl, sym (ap (λ g. held g v x) (ap (state_after []) e)))
held_invalid [] false g' e v x = cc
held_invalid (b ∷ rest) nb g' e v x = cc

-- A queue in memory.
abbrev queue : GutteringSystem
queue = record {
  G = List (List UpdateBatch);
  pending = held;
  get_data = take;
  valid_law = held_valid;
  invalid_law = held_invalid;
}

-- The destinations that the algorithm is given, the latest first.
abbrev received : List ℕ → ℕ → ℕ → List ℕ → List ℕ
received a thr src dsts = dsts ++ a

abbrev TestGroup : Type 0
TestGroup = WorkerThreadGroup queue received

abbrev group : List WorkerThread → List (List UpdateBatch) → ℕ → Bool → List ℕ → TestGroup
group ws g total nb a = record {
  workers = ws;
  gutters = g;
  non_block = nb;
  total_updates = total;
  sketching_alg = a;
}

abbrev told : Phase → Bool → WorkerThread
told ph paused = record { phase = ph; shutdown = false; do_pause = true; paused = paused }

abbrev one_batch : List UpdateBatch
one_batch = record { node_idx = 4; upd_vec = 6 ∷ 9 ∷ [] } ∷ []

-- One worker takes a batch, applies it, finds the gutters empty and pauses.
abbrev before : TestGroup
before = group (new_worker ∷ []) (one_batch ∷ []) 0 false []

abbrev given : List ℕ
given = 6 ∷ 9 ∷ []

abbrev after : TestGroup
after = group (told waiting true ∷ []) [] 2 true given

flush_run : WorkersRun queue received (begin_flush queue received before) after
unfolding begin_flush pause worker_step phase_step got with_worker apply_batch batch_callback
    check_shutdown check_pause set_paused take
flush_run =
    then_step (group (told pausing false ∷ []) [] 2 true given) after 0
      (then_step (group (told not_shutdown false ∷ []) [] 2 true given)
        (group (told pausing false ∷ []) [] 2 true given) 0
        (then_step (group (told got_false false ∷ []) [] 2 true given)
          (group (told not_shutdown false ∷ []) [] 2 true given) 0
          (then_step (group (told getting false ∷ []) [] 2 true given)
            (group (told got_false false ∷ []) [] 2 true given) 0
            (then_step (group (told (working []) false ∷ []) [] 2 true given)
              (group (told getting false ∷ []) [] 2 true given) 0
              (then_step (group (told (working one_batch) false ∷ []) [] 0 true [])
                (group (told (working []) false ∷ []) [] 2 true given) 0
                (then_step (begin_flush queue received before)
                  (group (told (working one_batch) false ∷ []) [] 0 true []) 0 no_step (omega arith)
                  refl)
                (omega arith) refl)
              (omega arith) refl)
            (omega arith) refl)
          (omega arith) refl)
        (omega arith) refl)
      (omega arith) refl

new-Calm : (E : Type 0) → Calm E new_worker
unfolding has_false
new-Calm E = record {
  waits_paused = λ p. absurd (false≢true p);
  empty_paused = λ p. absurd (false≢true p);
  empty_false = λ p. absurd (false≢true p);
}
  where
    false≢true : ¬ (false ≡ true)
    false≢true q = cc

before-Calm :
    (j : ℕ) → Calm (Empty queue received before.gutters) (worker_at queue received before j)
before-Calm zero = new-Calm (Empty queue received before.gutters)
before-Calm (suc j) = new-Calm (Empty queue received before.gutters)

all_stopped : all_paused after.workers ≡ true
unfolding all_paused
all_stopped = refl

flush_workers_lem_example : Flushed queue received before after
flush_workers_lem_example =
    flush_workers_lem queue received before after before-Calm (omega arith) flush_run all_stopped

-- A worker that still waits from a flush, and another that is paused again.
abbrev resting : TestGroup
resting = group (told waiting true ∷ new_worker ∷ []) [] 0 true []

abbrev still_resting : TestGroup
still_resting = group (told waiting false ∷ told waiting true ∷ []) [] 0 true []

abbrev other : Phase → TestGroup
other ph = group (told waiting false ∷ told ph false ∷ []) [] 0 true []

second_pauses :
    WorkersRun queue received
      (begin_flush queue received (resume_workers queue received resting))
      still_resting
unfolding begin_flush resume_workers unpause_workers pause unpause worker_step phase_step got
    with_worker check_shutdown check_pause set_paused take
second_pauses =
    then_step (other pausing) still_resting 1
      (then_step (other not_shutdown) (other pausing) 1
        (then_step (other got_false) (other not_shutdown) 1
          (then_step (begin_flush queue received (resume_workers queue received resting))
            (other got_false) 1 no_step (omega arith) refl)
          (omega arith) refl)
        (omega arith) refl)
      (omega arith) refl

flush_workers_hangs_example : all_paused still_resting.workers ≡ false
flush_workers_hangs_example =
    flush_workers_hangs queue received resting still_resting 0 (omega arith) refl refl second_pauses

-- A worker that waits at the end of a flush.
abbrev flushed_group : TestGroup
flushed_group = group (told waiting true ∷ []) [] 0 true []

flush_workers_skips_example :
    (stale : TestGroup) × WorkersRun queue received
      (unpause_workers queue received flushed_group)
      stale
    × (s' : TestGroup) × WorkersRun queue received
        (begin_flush queue received (record stale { non_block = false; gutters = one_batch ∷ [] }))
        s'
    × (all_paused s'.workers ≡ true)
    × (s'.gutters ≡ one_batch ∷ [])
    × (s'.sketching_alg ≡ [])
unfolding take
flush_workers_skips_example =
    flush_workers_skips queue received flushed_group [] (one_batch ∷ []) refl refl
