-- ===== src/Cc/Direct.antt =====
-- The calls of `CCSketchAlg` (src/cc_sketch_alg.cpp) that go around the worker threads: `update`
-- and `apply_raw_buckets_update`.
use graph_streaming_cc.Prelude.{
  ℕ, ◌<◌, ◌≡◌, ◌≢◌, refl, sym, ap, ◌∙◌, subst, arith, Bool, true, false, List, [], ◌∷◌, inl, inr,
  get_or, modify, length, length-modify, get_or-modify_self, get_or-modify_ne, eq-or-ne, eq→==,
  ne→==-false, ==→eq, ◌==◌, ◌||◌, if◌then◌else◌,
}
use graph_streaming_cc.Util.{Edge, concat_pairing_fn}
use graph_streaming_cc.Bucket.{Hashes}
use graph_streaming_cc.Sketch.{Sketch, merge_raw_bucket_buffer}
use graph_streaming_cc.Sketch.Merge.{merge_raw_bucket_buffer-merge}
use graph_streaming_cc.Sketch.Update
use graph_streaming_cc.Sketch.Update.{Algorithm, update_all}
use graph_streaming_cc.Sketch.Update.Linear.{IsFresh}
use graph_streaming_cc.Sketch.Update.Streams.{merge-update_all}
use graph_streaming_cc.Cc.{CcSketchAlg, empty_sketch, update_ends, apply_raw_buckets_update}
use graph_streaming_cc.Cc.Ingest.{Fits, sketch_at}

-- A change of one element, seen at every index.
modify-at :
    (xs : List Sketch) (v w : ℕ) (f : Sketch → Sketch) (blank : Sketch)
    → v < length xs
    → get_or (modify xs v f) w blank ≡ (if v == w then f (get_or xs w blank) else get_or xs w blank)
modify-at xs v w f blank h = elim (eq-or-ne v w) [
  | inl e ↦ rw (eq→== v w e) (
      subst (λ z. get_or (modify xs v f) z blank ≡ f (get_or xs z blank)) e
        (get_or-modify_self xs v f blank h))
  | inr ne ↦ rw (ne→==-false v w ne) (get_or-modify_ne xs v w f blank ne)
]

module _ (hashes : Hashes) (alg : Algorithm) where
  -- When every sketch of the graph fits, the buckets of a sketch of the graph's shape, which was
  -- fresh before a stream, have the effect of the stream on the vertex's sketch, and leave the
  -- others as they are.
  pub apply_raw_buckets_update_lem :
      (c : CcSketchAlg) (v : ℕ) (d : Sketch) (xs : List ℕ)
      → Fits hashes alg c
      → v < length c.sketches
      → IsFresh d
      → d.shape ≡ (empty_sketch hashes alg c).shape
      → (w : ℕ)
      → sketch_at hashes alg
          (apply_raw_buckets_update hashes alg c v (update_all hashes alg d xs).buckets)
          w
        ≡ (if v == w
            then update_all hashes alg (sketch_at hashes alg c w) xs
            else sketch_at hashes alg c w)
  unfolding apply_raw_buckets_update
  apply_raw_buckets_update_lem c v d xs fits h fresh shaped w =
      let s = sketch_at hashes alg c w in
      modify-at c.sketches v w (λ s. merge_raw_bucket_buffer s (update_all hashes alg d xs).buckets)
        (empty_sketch hashes alg c) h
      ∙ ap (λ t. if v == w then t else s)
          (merge_raw_bucket_buffer-merge s (update_all hashes alg d xs)
            ∙ merge-update_all hashes alg s d xs (fits.formed w) fresh
                (shaped ∙ sym (fits.shaped w)))

  -- The two sketch updates of an edge between two different vertices of the graph: the sketches of
  -- its ends get the edge's index once each, and every other sketch stays as it is.
  pub update_ends_lem :
      (c : CcSketchAlg) (edge : Edge)
      → edge.src < length c.sketches
      → edge.dst < length c.sketches
      → edge.src ≢ edge.dst
      → (w : ℕ)
      → sketch_at hashes alg (update_ends hashes alg edge c) w ≡ (
          if edge.dst == w || edge.src == w
          then update_all hashes alg
              (sketch_at hashes alg c w)
              (concat_pairing_fn edge.src edge.dst ∷ [])
          else sketch_at hashes alg c w)
  unfolding update_ends update_all
  update_ends_lem c edge hs hd ne w =
      let f : Sketch → Sketch =
        λ s. Update.update hashes alg s (concat_pairing_fn edge.src edge.dst) in
      let blank = empty_sketch hashes alg c in
      let once = modify c.sketches edge.src f in
      modify-at once edge.dst w f blank (omega (arith, length-modify c.sketches edge.src f))
      ∙ ap (λ t. if edge.dst == w then f t else t) (modify-at c.sketches edge.src w f blank hs)
      ∙ not_twice (edge.dst == w) (edge.src == w) f (get_or c.sketches w blank)
          (λ p q. ne (==→eq edge.src w q ∙ sym (==→eq edge.dst w p)))
    where
      not_twice :
          (p q : Bool) (f : Sketch → Sketch) (s : Sketch)
          → (p ≡ true → q ≡ true → ⊥)
          → (if p then f (if q then f s else s) else (if q then f s else s))
            ≡ (if p || q then f s else s)
      not_twice true true f s no_both = absurd (no_both refl refl)
      not_twice true false f s no_both = refl
      not_twice false true f s no_both = refl
      not_twice false false f s no_both = refl
