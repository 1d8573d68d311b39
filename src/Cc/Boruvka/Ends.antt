-- ===== src/Cc/Boruvka/Ends.antt =====
-- The loop of `boruvka_emulation` (src/cc_sketch_alg.cpp) ends after at most as many rounds as the
-- sketches have samples, and what the lock and the flags are then.
use graph_streaming_cc.Prelude.{
  ℕ, zero, suc, ◌+◌, ◌≤◌, ◌<◌, ◌≡◌, ◌≢◌, refl, sym, subst, ◌∙◌, inl, inr, arith, Bool, true, false,
  Option, none, some, List, replicate, Bool-cases, leb, Always, no_result, result, Always-any,
}
use graph_streaming_cc.Bucket.{Hashes}
use graph_streaming_cc.Sketch.Update.{Algorithm}
use graph_streaming_cc.Dsu.{Dsu}
use graph_streaming_cc.Cc.{CcSketchAlg, empty_sketch}
use graph_streaming_cc.Cc.Query.{start_boruvka, reset_samples}
use graph_streaming_cc.Cc.Query.Flags.{
  SameFlags, SameFlags-refl, SameFlags-trans, start_boruvka-num_samples, start_boruvka-empty_sketch,
  reset_samples-flags, reset_samples-rounds,
}
use graph_streaming_cc.Cc.Query.Rounds.{Each, each, no_more}
use graph_streaming_cc.Cc.Partition.{MergeInstr}
use graph_streaming_cc.Cc.Round.{GlobalMergeData, Shared, new_global}
use graph_streaming_cc.Cc.Round.Late.{Shaped, Late, perform_boruvka_round-Late}
use graph_streaming_cc.Cc.Boruvka.{
  Choices, Query, returned, thrown, no_result, if_result, by_modified, by_except, boruvka_loop,
  boruvka_emulation, end_boruvka, first_instructions, reset_after,
}

-- A query that returns or throws, or has no result: `R` of the state when it returns, `T` of the
-- state when it throws.
pub data Outcome {ℓ} {A : Type ℓ} (R T : CcSketchAlg → Type 0) : Query A → Type ℓ where
  ends : (c : CcSketchAlg) (a : A) → R c → Outcome R T (returned c a)
  throws : (c : CcSketchAlg) → T c → Outcome R T (thrown c)
  undefined : Outcome R T no_result

pub if_result-Outcome {ℓ κ κ'} :
    {A : Type ℓ} {B : Type κ} {P : A → Type κ'} {R T : CcSketchAlg → Type 0} (f : A → Query B)
    (o : Option A)
    → Always P o
    → ((a : A) → P a → Outcome R T (f a))
    → Outcome R T (if_result f o)
unfolding if_result
if_result-Outcome f none no_result k = undefined
if_result-Outcome f (some a) (result _ p) k = k a p

-- After `boruvka_emulation` has returned.
pub record Answered (c c' : CcSketchAlg) : Type 0 where
  pub unlocked : c'.update_locked ≡ false
  pub valid : c'.dsu_valid ≡ true
  pub shared_valid : c'.shared_dsu_valid ≡ true
  pub rounds : c'.last_query_rounds ≤ c.num_samples + 1

module _ (hashes : Hashes) (alg : Algorithm) (choices : Choices) (c : CcSketchAlg) where
  replicate-Shaped :
      (n : ℕ) → Shaped hashes alg c (replicate n (new_global (empty_sketch hashes alg c)))
  unfolding new_global
  replicate-Shaped zero = no_more
  replicate-Shaped (suc n) = each _ _ refl (replicate-Shaped n)

  same_blank :
      (c' : CcSketchAlg) → SameFlags c c' → empty_sketch hashes alg c ≡ empty_sketch hashes alg c'
  same_blank c' f = rw (f.vertices, f.seeds, f.samples) refl

  Shaped-flags :
      (c' : CcSketchAlg) (gs : List GlobalMergeData)
      → SameFlags c c'
      → Shaped hashes alg c gs
      → Shaped hashes alg c' gs
  Shaped-flags c' gs f h =
      subst (λ s. Each (λ (m : GlobalMergeData). m.sketch.shape ≡ s.shape) gs) (same_blank c' f) h

  -- The rounds that follow round `k`, in a state whose members are those of `c`.
  GoesOn : ℕ → (CcSketchAlg → List MergeInstr → List GlobalMergeData → Query (Unit {0})) → Type 0
  GoesOn k go_on =
      (c' : CcSketchAlg) (instrs : List MergeInstr) (gs : List GlobalMergeData)
      → SameFlags c c'
      → Shaped hashes alg c gs
      → Outcome (Answered c) (SameFlags c) (go_on c' instrs gs)

  module _ (k : ℕ) (bound : k ≤ suc c.num_samples) (c' : CcSketchAlg) (f : SameFlags c c')
      (instrs : List MergeInstr)
      (go_on : CcSketchAlg → List MergeInstr → List GlobalMergeData → Query (Unit {0}))
      (next : k ≤ c.num_samples → GoesOn k go_on) (sh : Shared)
      (late : Late hashes alg c' k sh) where
    -- A round that modified something is not past the last sample.
    more_samples : sh.modified ≡ true → k ≤ c.num_samples
    more_samples m = elim (Bool-cases (leb k c.num_samples)) [
      | inl e ↦ ground arith
      | inr e ↦ absurd (
          true≢false
            (sym m ∙ late.still (omega (arith, past e)) (omega (arith, past e, f.samples))))
    ]
      where
        past : leb k c.num_samples ≡ false → c.num_samples < k
        past e = ground arith

        true≢false : true ≢ false
        true≢false h = cc

    by_modified-Outcome :
        (b : Bool)
        → sh.modified ≡ b
        → Outcome (Answered c) (SameFlags c) (by_modified hashes alg choices go_on k instrs sh b)
    unfolding by_modified end_boruvka GoesOn
    by_modified-Outcome false e = ends _ tt (record {
      unlocked = refl;
      valid = refl;
      shared_valid = refl;
      rounds = omega (arith, bound);
    })
    by_modified-Outcome true e =
        if_result-Outcome _ _ (Always-any _) (λ (p : Dsu × List MergeInstr) _.
          next (more_samples e) (record sh.state { dsu = p.0 }) p.1 sh.global_merges
            (SameFlags-trans f (
              SameFlags-trans late.flags (record {
                locked = refl;
                valid = refl;
                shared_valid = refl;
                vertices = refl;
                seeds = refl;
                samples = refl;
              })))
            (subst (λ s. Each (λ (m : GlobalMergeData). m.sketch.shape ≡ s.shape) sh.global_merges)
              (sym (same_blank c' f)) late.shaped))

    by_except-Outcome :
        (b : Bool)
        → Outcome (Answered c) (SameFlags c) (by_except hashes alg choices go_on k instrs sh b)
    unfolding by_except
    by_except-Outcome true = throws _ (SameFlags-trans f late.flags)
    by_except-Outcome false = by_modified-Outcome sh.modified refl

  loop-Outcome :
      (fuel k : ℕ)
      → k + fuel ≡ suc (suc c.num_samples)
      → k ≤ suc c.num_samples
      → GoesOn k (boruvka_loop hashes alg choices fuel k)
  unfolding boruvka_loop GoesOn
  loop-Outcome zero k e h c' instrs gs f shaped = absurd (omega arith)
  loop-Outcome (suc fuel) k e h c' instrs gs f shaped =
      if_result-Outcome _ _
        (perform_boruvka_round-Late hashes alg choices.threads k instrs gs c' (choices.schedule k)
          (Shaped-flags c' gs f shaped))
        (λ sh late.
          by_except-Outcome k h c' f instrs (boruvka_loop hashes alg choices fuel (suc k))
            (λ more. loop-Outcome fuel (suc k) (omega arith) (omega arith)) sh late sh.except)

-- The rounds of `boruvka_emulation` are no more than its fuel, whatever the number of threads, their
-- schedules and the state; a step of a round may still have no result, when it reads out of bounds
-- or its find_root does not end. When it returns, the lock is free, both flags say
-- that the answer is cached and there were at most as many rounds as samples, and one. When it
-- throws, the lock is still held and the flags are as before.
pub boruvka_emulation_lem :
    (hashes : Hashes) (alg : Algorithm) (choices : Choices) (c : CcSketchAlg)
    → Outcome
        (Answered (start_boruvka c))
        (SameFlags (start_boruvka c))
        (boruvka_emulation hashes alg choices c)
unfolding boruvka_emulation GoesOn
boruvka_emulation_lem hashes alg choices c =
    subst
      (λ n. Outcome (Answered (start_boruvka c)) (SameFlags (start_boruvka c)) (
        boruvka_loop hashes alg choices (suc (suc n)) 0 (start_boruvka c)
          (first_instructions c.num_vertices)
          (replicate choices.threads (new_global (empty_sketch hashes alg c)))))
      (start_boruvka-num_samples c)
      (loop-Outcome hashes alg choices (start_boruvka c) (suc (suc (start_boruvka c).num_samples)) 0
        (omega arith) (omega arith) (start_boruvka c) (first_instructions c.num_vertices)
        (replicate choices.threads (new_global (empty_sketch hashes alg c)))
        (SameFlags-refl (start_boruvka c))
        (subst (λ s. Shaped hashes alg (start_boruvka c) (replicate choices.threads (new_global s)))
          (start_boruvka-empty_sketch hashes alg c)
          (replicate-Shaped hashes alg choices (start_boruvka c) choices.threads)))

-- Whatever the query, it ends in the same way.
pub reset_after-Outcome {ℓ} :
    {A : Type ℓ} {c c0 : CcSketchAlg} (q : Query A)
    → Outcome (Answered c) (SameFlags c0) q
    → Outcome (Answered c) (SameFlags c0) (reset_after q)
unfolding reset_after
reset_after-Outcome q (ends c a h) =
    let f = reset_samples-flags c in
    ends (reset_samples c) a (record {
      unlocked = f.locked ∙ h.unlocked;
      valid = f.valid ∙ h.valid;
      shared_valid = f.shared_valid ∙ h.shared_valid;
      rounds = omega (arith, reset_samples-rounds c, h.rounds);
    })
reset_after-Outcome q (throws c h) =
    throws (reset_samples c) (SameFlags-trans h (reset_samples-flags c))
reset_after-Outcome q undefined = undefined
