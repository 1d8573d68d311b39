-- ===== src/Cc/Boruvka/Locked.antt =====
-- How the queries of src/cc_sketch_alg.cpp end: `connected_components` and `point_query` free the
-- lock when they return, and hold it on when they throw.
use graph_streaming_cc.Prelude.{ℕ, ◌≡◌, refl, subst, ◌∙◌, Bool, true, false, List, Always-any}
use graph_streaming_cc.Bucket.{Hashes}
use graph_streaming_cc.Sketch.Update.{Algorithm}
use graph_streaming_cc.Cc.{CcSketchAlg, apply_update_batch, update_locked_exception}
use graph_streaming_cc.Cc.Ingest.{apply_update_batch_locked}
use graph_streaming_cc.Cc.Query.{start_boruvka}
use graph_streaming_cc.Cc.Query.Flags.{start_boruvka-locked}
use graph_streaming_cc.Components.{new_components}
use graph_streaming_cc.Cc.Boruvka.{
  Choices, Query, returned, thrown, no_result, then_query, reset_after, make_valid,
  boruvka_emulation, connected_components, same_root, point_query,
}
use graph_streaming_cc.Cc.Boruvka.Ends.{
  Outcome, ends, throws, undefined, if_result-Outcome, Answered, boruvka_emulation_lem,
  reset_after-Outcome,
}

pub then_query-Outcome {ℓ κ} :
    {A : Type ℓ} {B : Type κ} {R R' T : CcSketchAlg → Type 0} (f : CcSketchAlg → A → Query B)
    (q : Query A)
    → Outcome R T q
    → ((c : CcSketchAlg) (a : A) → R c → Outcome R' T (f c a))
    → Outcome R' T (then_query f q)
unfolding then_query
then_query-Outcome f q (ends c a h) k = k c a h
then_query-Outcome f q (throws c h) k = throws c h
then_query-Outcome f q undefined k = undefined

Outcome-weaken {ℓ} :
    {A : Type ℓ} {R R' T T' : CcSketchAlg → Type 0} (q : Query A)
    → Outcome R T q
    → ((c : CcSketchAlg) → R c → R' c)
    → ((c : CcSketchAlg) → T c → T' c)
    → Outcome R' T' q
Outcome-weaken q (ends c a h) k k' = ends c a (k c h)
Outcome-weaken q (throws c h) k k' = throws c (k' c h)
Outcome-weaken q undefined k k' = undefined

-- The lock is free; it is held.
abbrev pub Free : CcSketchAlg → Type 0
Free c = c.update_locked ≡ false

abbrev pub Held : CcSketchAlg → Type 0
Held c = c.update_locked ≡ true

thrown_inj {ℓ} :
    {A : Type ℓ} {c c' : CcSketchAlg} → ◌≡◌ {A = Query A} (thrown c) (thrown c') → c ≡ c'
thrown_inj e = cc

returned≢thrown {ℓ} : {A : Type ℓ} {c c' : CcSketchAlg} {a : A} → ¬ (returned c a ≡ thrown c')
returned≢thrown e = cc

undefined≢thrown {ℓ} : {A : Type ℓ} {c' : CcSketchAlg} → ¬ (◌≡◌ {A = Query A} no_result (thrown c'))
undefined≢thrown e = cc

throws-Held {ℓ} :
    {A : Type ℓ} {R : CcSketchAlg → Type 0} (q : Query A) (c' : CcSketchAlg)
    → Outcome R Held q
    → q ≡ thrown c'
    → Held c'
throws-Held q c' (ends c a h) e = absurd (returned≢thrown e)
throws-Held q c' (throws c h) e = subst Held (thrown_inj e) h
throws-Held q c' undefined e = absurd (undefined≢thrown e)

module _ (hashes : Hashes) (alg : Algorithm) (choices : Choices) where
  -- With the flag that the query looks at.
  make_valid-Outcome :
      (flag : CcSketchAlg → Bool) (c : CcSketchAlg) (valid : Bool)
      → flag c ≡ valid
      → ((c' : CcSketchAlg) → Answered (start_boruvka c) c' → flag c' ≡ true)
      → Free c
      → Outcome (λ c'. Free c' × (flag c' ≡ true)) Held (make_valid hashes alg choices valid c)
  unfolding make_valid
  make_valid-Outcome flag c true is k free = ends c tt (free, is)
  make_valid-Outcome flag c false is k free =
      Outcome-weaken (reset_after (boruvka_emulation hashes alg choices c))
        (reset_after-Outcome (boruvka_emulation hashes alg choices c)
          (boruvka_emulation_lem hashes alg choices c))
        (λ c' h. (h.unlocked, k c' h)) (λ c' h. h.locked ∙ start_boruvka-locked c)

  -- When the lock is free and `connected_components` returns, the lock is free again and the answer
  -- is cached for other threads; when it throws, the lock stays held.
  connected_components_lem :
      (order : List ℕ) (c : CcSketchAlg)
      → c.update_locked ≡ false
      → Outcome
          (λ c'. (c'.update_locked ≡ false) × (c'.shared_dsu_valid ≡ true))
          (λ c'. c'.update_locked ≡ true)
          (connected_components hashes alg choices order c)
  unfolding connected_components
  connected_components_lem order c free =
      then_query-Outcome _ _
        (make_valid-Outcome (λ d. d.shared_dsu_valid) c c.shared_dsu_valid refl
          (λ c' h. h.shared_valid) free)
        (λ c' _ h.
          if_result-Outcome _ _ (Always-any (new_components c'.num_vertices c'.dsu order))
            (λ p _. ends _ p.1 h))

  -- When the lock is free and `point_query` returns, the lock is free again and the answer is cached; when it throws, the lock stays held.
  pub point_query_lem :
      (a b : ℕ) (c : CcSketchAlg)
      → c.update_locked ≡ false
      → Outcome
          (λ c'. (c'.update_locked ≡ false) × (c'.dsu_valid ≡ true))
          (λ c'. c'.update_locked ≡ true)
          (point_query hashes alg choices a b c)
  unfolding point_query
  point_query_lem a b c free =
      then_query-Outcome _ _
        (make_valid-Outcome (λ d. d.dsu_valid) c c.dsu_valid refl (λ c' h. h.valid) free)
        (λ c' _ h. if_result-Outcome _ _ (Always-any (same_root c'.dsu a b)) (λ p _. ends _ p.1 h))

  -- When the lock is free and `connected_components` throws, every later batch of updates throws as
  -- well, and changes nothing.
  pub connected_components_locks :
      (order : List ℕ) (c c' : CcSketchAlg) (thr src : ℕ) (dsts : List ℕ)
      → c.update_locked ≡ false
      → connected_components hashes alg choices order c ≡ thrown c'
      → apply_update_batch hashes alg c' thr src dsts ≡ update_locked_exception
  connected_components_locks order c c' thr src dsts free e =
      apply_update_batch_locked hashes alg c' thr src dsts (
        throws-Held (connected_components hashes alg choices order c) c'
          (connected_components_lem order c free) e)
