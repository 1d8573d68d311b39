-- ===== src/Workers/Count.antt =====
-- Where the updates are that the guttering system has been given: applied, in the hands of a
-- worker thread (include/worker_thread_group.h), or still in the gutters.
use graph_streaming_cc.Prelude.{
  ℕ, zero, suc, ◌+◌, ◌%◌, ◌^◌, ◌≡◌, ◌≢◌, ◌<◌, refl, sym, ap, ◌∙◌, inl, inr, arith, Bool, true,
  false, if◌then◌else◌, Option, none, some, List, [], ◌∷◌, ◌++◌, get_or, set, length, length-set,
  ltb, Bool-cases, ltb-false→le, get_or-set_self, get_or-set_ne, eq-or-ne, subst, ◌==◌,
}
use mathlib.Core.Option
use graph_streaming_cc.Workers.{
  UpdateBatch, times, batch_times, updates_in, Got, valid, invalid, waits, GutteringSystem, Phase,
  getting, working, got_false, not_shutdown, pausing, waiting, ended, WorkerThread, new_worker,
  check_shutdown, check_pause, set_paused, wakes, WorkerThreadGroup, with_worker, got,
  batch_callback, apply_batch, phase_step, worker_step,
}

unfoldable pub in_phase : (v x : ℕ) → Phase → ℕ
in_phase v x (working bs) = updates_in v x bs
in_phase v x _ = 0

unfoldable pub in_flight : (v x : ℕ) → List WorkerThread → ℕ
in_flight v x [] = 0
in_flight v x (w ∷ ws) = in_phase v x w.phase + in_flight v x ws

in_flight-set :
    (v x : ℕ) (ws : List WorkerThread) (i : ℕ) (w : WorkerThread)
    → i < length ws
    → in_flight v x (set ws i w) + in_phase v x (get_or ws i new_worker).phase
      ≡ in_flight v x ws + in_phase v x w.phase
unfolding in_flight
in_flight-set v x [] i w h = absurd (omega arith)
in_flight-set v x (y ∷ ws) zero w h = omega arith
in_flight-set v x (y ∷ ws) (suc i) w h = omega (arith, in_flight-set v x ws i w (omega arith))

-- Whether a thread is between a false result of `get_data` and the wait.
unfoldable pub has_false : Phase → Bool
has_false got_false = true
has_false not_shutdown = true
has_false pausing = true
has_false _ = false

-- A paused worker waits, and the gutters are empty; they are also empty while a worker has a false
-- result of `get_data` in hand.
pub record Calm (Empty : Type 0) (w : WorkerThread) : Type 0 where
  pub waits_paused : w.paused ≡ true → w.phase ≡ waiting
  pub empty_paused : w.paused ≡ true → Empty
  pub empty_false : has_false w.phase ≡ true → Empty

-- The calls of `batch_callback`, the first one first.
abbrev pub Log : Type 0
Log = List (ℕ × UpdateBatch)

unfoldable pub times_in : (v x : ℕ) → Log → ℕ
times_in v x [] = 0
times_in v x ((id, b) ∷ log) = batch_times v x b + times_in v x log

unfoldable pub size_of : Log → ℕ
size_of [] = 0
size_of ((id, b) ∷ log) = length b.upd_vec + size_of log

pub times_in-append :
    (v x : ℕ) (l k : Log) → times_in v x (l ++ k) ≡ times_in v x l + times_in v x k
unfolding times_in
times_in-append v x [] k = omega arith
times_in-append v x ((id, b) ∷ l) k = omega (arith, times_in-append v x l k)

pub size_of-append : (l k : Log) → size_of (l ++ k) ≡ size_of l + size_of k
unfolding size_of
size_of-append [] k = omega arith
size_of-append ((id, b) ∷ l) k = omega (arith, size_of-append l k)

-- What an empty batch has.
times_nil : (x : ℕ) (xs : List ℕ) → length xs ≡ 0 → times x xs ≡ 0
unfolding times
times_nil x [] h = refl
times_nil x (y ∷ ys) h = absurd (omega arith)

batch_times_nil : (v x : ℕ) (b : UpdateBatch) → length b.upd_vec ≡ 0 → batch_times v x b ≡ 0
unfolding batch_times
batch_times_nil v x b h = branch (b.node_idx == v)
  where
    branch : (t : Bool) → (if t then times x b.upd_vec else 0) ≡ ◌+◌ 0 0
    branch true = times_nil x b.upd_vec h
    branch false = refl

module _ (gts : GutteringSystem) {A : Type 0} (apply_update_batch : A → ℕ → ℕ → List ℕ → A) where
  open gts use {pending, get_data, valid_law, invalid_law}

  abbrev pub Group : Type 0
  Group = WorkerThreadGroup gts apply_update_batch

  -- The state after the calls.
  unfoldable pub applied : A → Log → A
  applied a [] = a
  applied a ((id, b) ∷ log) = applied (apply_update_batch a id b.node_idx b.upd_vec) log

  pub applied-append : (a : A) (l k : Log) → applied a (l ++ k) ≡ applied (applied a l) k
  unfolding applied
  applied-append a [] k = refl
  applied-append a ((id, b) ∷ l) k =
      applied-append (apply_update_batch a id b.node_idx b.upd_vec) l k

  abbrev pub worker_at : Group → ℕ → WorkerThread
  worker_at s i = get_or s.workers i new_worker

  abbrev pub Empty : gts.G → Type 0
  Empty g = (v x : ℕ) → pending g v x ≡ 0

  -- Between two states: the calls of `batch_callback` were `log`, they applied what was in the
  -- gutters and in the hands of workers and is so no longer, and the workers are calm.
  pub record Kept (s s' : Group) : Type 0 where
    pub log : Log
    pub alg : s'.sketching_alg ≡ applied s.sketching_alg log
    pub counted : s'.total_updates % 2 ^ 64 ≡ (s.total_updates + size_of log) % 2 ^ 64
    pub conserved :
        (v x : ℕ)
        → times_in v x log + in_flight v x s'.workers + pending s'.gutters v x
          ≡ in_flight v x s.workers + pending s.gutters v x
    pub same_workers : length s'.workers ≡ length s.workers
    pub calm : (j : ℕ) → Calm (Empty s'.gutters) (worker_at s' j)

  module _ (s : Group) (i : ℕ) (h : i < length s.workers)
      (calm : (j : ℕ) → Calm (Empty s.gutters) (worker_at s j)) where
    abbrev w : WorkerThread
    w = worker_at s i

    -- The state with another worker `i`, other gutters, another counter and algorithm.
    change : (w' : WorkerThread) → gts.G → ℕ → A → Group
    change w' g total a = record s {
      workers = set s.workers i w';
      gutters = g;
      total_updates = total;
      sketching_alg = a;
    }

    change-Kept :
        (w' : WorkerThread) (g : gts.G) (total : ℕ) (a : A) (log : Log)
        → a ≡ applied s.sketching_alg log
        → total % 2 ^ 64 ≡ (s.total_updates + size_of log) % 2 ^ 64
        → ((v x : ℕ)
            → times_in v x log + in_phase v x w'.phase + pending g v x
              ≡ in_phase v x w.phase + pending s.gutters v x)
        → (Empty s.gutters → Empty g)
        → Calm (Empty g) w'
        → Kept s (change w' g total a)
    unfolding change
    change-Kept w' g total a log state count sum empty own = record {
      log = log;
      alg = state;
      counted = count;
      conserved = λ v x. omega (arith, in_flight-set v x s.workers i w' h, sum v x);
      same_workers = length-set s.workers i w';
      calm = λ j. elim (eq-or-ne i j) [
        | inl e ↦
            subst (λ z. Calm (Empty g) (get_or (set s.workers i w') z new_worker)) e
              (subst (Calm (Empty g)) (sym (get_or-set_self s.workers i w' new_worker h)) own)
        | inr ne ↦
            subst (Calm (Empty g)) (sym (get_or-set_ne s.workers i j w' new_worker ne)) (record {
              waits_paused = (calm j).waits_paused;
              empty_paused = λ p. empty ((calm j).empty_paused p);
              empty_false = λ p. empty ((calm j).empty_false p);
            })
      ];
    }

    -- A worker that does not wait is not paused.
    not_paused : ¬ (w.phase ≡ waiting) → ¬ (w.paused ≡ true)
    not_paused no_wait p = no_wait ((calm i).waits_paused p)

    -- The new phase of a worker that is not paused.
    to_phase :
        (ph : Phase) (g : gts.G)
        → ¬ (w.phase ≡ waiting)
        → (has_false ph ≡ true → Empty g)
        → Calm (Empty g) (record w { phase = ph })
    to_phase ph g no_wait stale = record {
      waits_paused = λ p. absurd (not_paused no_wait p);
      empty_paused = λ p. absurd (not_paused no_wait p);
      empty_false = stale;
    }

    -- A step that applies nothing and leaves the gutters.
    moves :
        (ph ph' : Phase)
        → w.phase ≡ ph
        → ¬ (ph ≡ waiting)
        → ((v x : ℕ) → in_phase v x ph ≡ 0)
        → ((v x : ℕ) → in_phase v x ph' ≡ 0)
        → (has_false ph' ≡ true → Empty s.gutters)
        → Kept s (with_worker gts apply_update_batch s i (record w { phase = ph' }))
    unfolding with_worker change applied size_of times_in
    moves ph ph' e no_wait zero_before zero_after stale =
        change-Kept (record w { phase = ph' }) s.gutters s.total_updates s.sketching_alg [] refl
          (ap (λ t. t % 2 ^ 64) (omega arith))
          (λ v x. omega (arith, zero_after v x, zero_before v x, ap (in_phase v x) e)) (λ z. z)
          (to_phase ph' s.gutters (λ q. no_wait (sym e ∙ q)) stale)

    got_valid :
        (bs : List UpdateBatch) (g : gts.G)
        → w.phase ≡ getting
        → get_data s.gutters s.non_block ≡ valid bs g
        → Kept s (
            with_worker gts apply_update_batch
              (record s { gutters = g })
              i
              (record w { phase = working bs }))
    unfolding with_worker change applied size_of times_in in_phase has_false
    got_valid bs g e runs =
        let law = valid_law s.gutters s.non_block bs g runs in
        change-Kept (record w { phase = working bs }) g s.total_updates s.sketching_alg [] refl
          (ap (λ t. t % 2 ^ 64) (omega arith)) (λ v x. omega (arith, law v x, ap (in_phase v x) e))
          (λ z v x. omega (arith, law v x, z v x))
          (to_phase (working bs) g (λ q. getting≢waiting (sym e ∙ q)) (λ q. absurd (false≢true q)))
      where
        getting≢waiting : getting ≢ waiting
        getting≢waiting q = cc

        false≢true : false ≢ true
        false≢true q = cc

    got_invalid :
        (g : gts.G)
        → w.phase ≡ getting
        → get_data s.gutters s.non_block ≡ invalid g
        → Kept s (
            with_worker gts apply_update_batch
              (record s { gutters = g })
              i
              (record w { phase = got_false }))
    unfolding with_worker change applied size_of times_in in_phase
    got_invalid g e runs =
        let law = invalid_law s.gutters s.non_block g runs in
        change-Kept (record w { phase = got_false }) g s.total_updates s.sketching_alg [] refl
          (ap (λ t. t % 2 ^ 64) (omega arith))
          (λ v x. omega (arith, (law v x).0, (law v x).1, ap (in_phase v x) e))
          (λ z v x. (law v x).1)
          (to_phase got_false g (λ q. getting≢waiting (sym e ∙ q)) (λ _ v x. (law v x).1))
      where
        getting≢waiting : getting ≢ waiting
        getting≢waiting q = cc

    got-Kept :
        (r : Got gts.G) (s' : Group)
        → get_data s.gutters s.non_block ≡ r
        → w.phase ≡ getting
        → got gts apply_update_batch s i w r ≡ some s'
        → Kept s s'
    unfolding got
    got-Kept (valid bs g) s' runs e step =
        subst (Kept s) (Option.some_inj.0 step) (got_valid bs g e runs)
    got-Kept (invalid g) s' runs e step =
        subst (Kept s) (Option.some_inj.0 step) (got_invalid g e runs)
    got-Kept waits s' runs e step = cc

    -- Of one batch: all its updates are applied, in one call or, of none, in no call.
    apply-Kept :
        (b : UpdateBatch) (bs : List UpdateBatch)
        → w.phase ≡ working (b ∷ bs)
        → Kept s (
            with_worker gts apply_update_batch
              (apply_batch gts apply_update_batch s i b)
              i
              (record w { phase = working bs }))
    unfolding with_worker change apply_batch batch_callback in_phase updates_in applied size_of
        times_in has_false
    apply-Kept b bs e = elim (Bool-cases (ltb 0 (length b.upd_vec))) [
      | inl some_update ↦ rw some_update (
          change-Kept (record w { phase = working bs }) s.gutters
            ((s.total_updates + length b.upd_vec) % 2 ^ 64)
            (apply_update_batch s.sketching_alg i b.node_idx b.upd_vec) ((i, b) ∷ []) refl
            (omega arith) (λ v x. omega (arith, ap (in_phase v x) e)) (λ z. z)
            (to_phase (working bs) s.gutters no_wait (λ q. absurd (false≢true q))))
      | inr no_update ↦ rw no_update (
          change-Kept (record w { phase = working bs }) s.gutters s.total_updates s.sketching_alg []
            refl (ap (λ t. t % 2 ^ 64) (omega arith))
            (λ v x. omega (
              arith,
              ap (in_phase v x) e,
              batch_times_nil v x b (omega (arith, ltb-false→le 0 (length b.upd_vec) no_update)),
            ))
            (λ z. z) (to_phase (working bs) s.gutters no_wait (λ q. absurd (false≢true q))))
    ]
      where
        false≢true : false ≢ true
        false≢true q = cc

        no_wait : ¬ (w.phase ≡ waiting)
        no_wait q = working≢waiting (sym e ∙ q)
          where
            working≢waiting : working (b ∷ bs) ≢ waiting
            working≢waiting q = cc

    woken-Kept :
        w.phase ≡ waiting
        → Kept s
            (with_worker gts apply_update_batch s i (record w { phase = getting; paused = false }))
    unfolding with_worker change in_phase applied size_of times_in has_false
    woken-Kept e =
        change-Kept (record w { phase = getting; paused = false }) s.gutters s.total_updates
          s.sketching_alg [] refl (ap (λ t. t % 2 ^ 64) (omega arith))
          (λ v x. omega (arith, ap (in_phase v x) e)) (λ z. z)
          (record {
            waits_paused = λ p. absurd (false≢true p);
            empty_paused = λ p. absurd (false≢true p);
            empty_false = λ p. absurd (false≢true p);
          })
      where
        false≢true : false ≢ true
        false≢true h = cc

    paused-Kept : w.phase ≡ pausing → Kept s (with_worker gts apply_update_batch s i (set_paused w))
    unfolding with_worker change in_phase applied size_of times_in set_paused has_false
    paused-Kept e =
        change-Kept (set_paused w) s.gutters s.total_updates s.sketching_alg [] refl
          (ap (λ t. t % 2 ^ 64) (omega arith)) (λ v x. omega (arith, ap (in_phase v x) e)) (λ z. z)
          (record {
            waits_paused = λ p. refl;
            empty_paused = λ p. (calm i).empty_false (ap has_false e);
            empty_false = λ p. absurd (false≢true p);
          })
      where
        false≢true : false ≢ true
        false≢true h = cc

    wait-Kept :
        (s' : Group)
        → w.phase ≡ waiting
        → phase_step gts apply_update_batch s i w waiting ≡ some s'
        → Kept s s'
    unfolding phase_step
    wait-Kept s' e step = elim (Bool-cases (wakes w)) [
      | inl up ↦ subst (Kept s) (Option.some_inj.0 (sym (ap after_wait up) ∙ step)) (woken-Kept e)
      | inr down ↦ absurd (none≢some (sym (ap after_wait down) ∙ step))
    ]
      where
        after_wait : Bool → Option Group
        after_wait t =
            if t
            then some (
                with_worker gts apply_update_batch s i
                  (record w { phase = getting; paused = false }))
            else none

        none≢some : {s' : Group} → none ≢ some s'
        none≢some q = cc

    false-Empty : (ph : Phase) → w.phase ≡ ph → has_false ph ≡ true → Empty s.gutters
    false-Empty ph e q = (calm i).empty_false (ap has_false e ∙ q)

    -- The two tests.
    shutdown-Kept :
        w.phase ≡ got_false → Kept s (with_worker gts apply_update_batch s i (check_shutdown w))
    unfolding check_shutdown has_false
    shutdown-Kept e =
        moves got_false (if w.shutdown then ended else not_shutdown) e got_false≢waiting
          (λ v x. unfold in_phase in refl) (λ v x. counts v x w.shutdown)
          (λ _. false-Empty got_false e refl)
      where
        got_false≢waiting : got_false ≢ waiting
        got_false≢waiting q = cc

        counts : (v x : ℕ) (t : Bool) → in_phase v x (if t then ended else not_shutdown) ≡ ◌+◌ 0 0
        counts v x true = unfold in_phase in refl
        counts v x false = unfold in_phase in refl

    pause-Kept :
        w.phase ≡ not_shutdown → Kept s (with_worker gts apply_update_batch s i (check_pause w))
    unfolding check_pause has_false
    pause-Kept e =
        moves not_shutdown (if w.do_pause then pausing else getting) e not_shutdown≢waiting
          (λ v x. unfold in_phase in refl) (λ v x. counts v x w.do_pause)
          (λ _. false-Empty not_shutdown e refl)
      where
        not_shutdown≢waiting : not_shutdown ≢ waiting
        not_shutdown≢waiting q = cc

        counts : (v x : ℕ) (t : Bool) → in_phase v x (if t then pausing else getting) ≡ ◌+◌ 0 0
        counts v x true = unfold in_phase in refl
        counts v x false = unfold in_phase in refl

    step-Kept :
        (ph : Phase) (s' : Group)
        → w.phase ≡ ph
        → phase_step gts apply_update_batch s i w ph ≡ some s'
        → Kept s s'
    unfolding phase_step
    step-Kept getting s' e step = got-Kept (get_data s.gutters s.non_block) s' refl e step
    step-Kept (working (b ∷ bs)) s' e step =
        subst (Kept s) (Option.some_inj.0 step) (apply-Kept b bs e)
    step-Kept (working []) s' e step = subst (Kept s) (Option.some_inj.0 step) (
        moves (working []) getting e working≢waiting (λ v x. unfold in_phase updates_in in refl)
          (λ v x. unfold in_phase in refl) (λ q. absurd (unfold has_false in false≢true q)))
      where
        working≢waiting : working [] ≢ waiting
        working≢waiting q = cc

        false≢true : false ≢ true
        false≢true h = cc
    step-Kept got_false s' e step = subst (Kept s) (Option.some_inj.0 step) (shutdown-Kept e)
    step-Kept not_shutdown s' e step = subst (Kept s) (Option.some_inj.0 step) (pause-Kept e)
    step-Kept pausing s' e step = subst (Kept s) (Option.some_inj.0 step) (paused-Kept e)
    step-Kept waiting s' e step = wait-Kept s' e step
    step-Kept ended s' e step = cc

    pub worker_step-Kept :
        (s' : Group) → worker_step gts apply_update_batch s i ≡ some s' → Kept s s'
    unfolding worker_step
    worker_step-Kept s' step = step-Kept w.phase s' refl step
