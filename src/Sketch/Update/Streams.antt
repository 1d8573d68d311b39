-- ===== src/Sketch/Update/Streams.antt =====
-- What a sketch of a stream depends on, and what merging two of them gives.
use mathlib.Core.Quot
use mathlib.Core.Quot.{Quot}
use graph_streaming_cc.Prelude.{ℕ, ◌<◌, ◌≡◌, refl, sym, ap, ◌∙◌, arith, List, [], ◌∷◌, ◌++◌, length}
use graph_streaming_cc.Bucket.{Hashes}
use graph_streaming_cc.Bucket.Group.{◌⊕◌}
use graph_streaming_cc.Sketch.{Shape, Sketch, bucket_at, merge}
use graph_streaming_cc.Sketch.Merge.{bucket_at-merge, length-merge, shape-merge, sample_idx-merge}
use graph_streaming_cc.Sketch.Update.{Algorithm, update, update_all}
use graph_streaming_cc.Sketch.Update.Cells.{WellFormed}
use graph_streaming_cc.Sketch.Update.Contents.{
  total, sketch_ext, update_all-WellFormed, bucket_at-update_all,
}
use graph_streaming_cc.Sketch.Update.Linear.{SameVector, total-SameVector, IsFresh, bucket_at-fresh}

abbrev pub Vector : Type 0
Vector = Quot SameVector

Sketch-set : IsSet Sketch
Sketch-set = hlevel

module _ (hashes : Hashes) (alg : Algorithm) where
  -- Updates change buckets only.
  pub shape-update_all :
      (s : Sketch) (stream : List ℕ) → (update_all hashes alg s stream).shape ≡ s.shape
  unfolding update_all update
  shape-update_all s [] = refl
  shape-update_all s (x ∷ xs) = shape-update_all (update hashes alg s x) xs

  pub sample_idx-update_all :
      (s : Sketch) (stream : List ℕ) → (update_all hashes alg s stream).sample_idx ≡ s.sample_idx
  unfolding update_all update
  sample_idx-update_all s [] = refl
  sample_idx-update_all s (x ∷ xs) = sample_idx-update_all (update hashes alg s x) xs

  pub length-update_all :
      (s : Sketch) (stream : List ℕ)
      → WellFormed s
      → length (update_all hashes alg s stream).buckets ≡ s.num_buckets
  length-update_all s stream w =
      (update_all-WellFormed hashes alg s stream w).sized
      ∙ ap (λ (t : Shape). t.num_buckets) (shape-update_all s stream)

  pub update_all-append :
      (s : Sketch) (xs ys : List ℕ)
      → update_all hashes alg s (xs ++ ys) ≡ update_all hashes alg (update_all hashes alg s xs) ys
  unfolding update_all
  update_all-append s [] ys = refl
  update_all-append s (x ∷ xs) ys = update_all-append (update hashes alg s x) xs ys

  -- Applied to a well-formed sketch, two streams of one vector give the same sketch: neither the
  -- order of the updates nor pairs that cancel are seen in it.
  pub update_all-SameVector :
      (s : Sketch) (xs ys : List ℕ)
      → WellFormed s
      → SameVector xs ys
      → update_all hashes alg s xs ≡ update_all hashes alg s ys
  update_all-SameVector s xs ys w same =
      sketch_ext (update_all hashes alg s xs) (update_all hashes alg s ys)
        (shape-update_all s xs ∙ sym (shape-update_all s ys))
        (sample_idx-update_all s xs ∙ sym (sample_idx-update_all s ys))
        (length-update_all s xs w ∙ sym (length-update_all s ys w))
        (λ j h.
          let lt : j < s.num_buckets = omega (arith, length-update_all s xs w) in
          bucket_at-update_all hashes alg s xs j w lt
          ∙ ap (λ t. bucket_at s j ⊕ t) (total-SameVector hashes alg s.shape j xs ys same)
          ∙ sym (bucket_at-update_all hashes alg s ys j w lt))

  -- Merging a sketch that started empty is applying its stream.
  pub merge-update_all :
      (s d : Sketch) (xs : List ℕ)
      → WellFormed s
      → IsFresh d
      → d.shape ≡ s.shape
      → merge s (update_all hashes alg d xs) ≡ update_all hashes alg s xs
  merge-update_all s d xs w f e =
      sketch_ext (merge s sketch) (update_all hashes alg s xs)
        (shape-merge s sketch ∙ sym (shape-update_all s xs))
        (sample_idx-merge s sketch ∙ sym (sample_idx-update_all s xs))
        (length-merge s sketch ∙ w.sized ∙ sym (length-update_all s xs w))
        (λ j h.
          let lt : j < s.num_buckets = omega (arith, length-merge s sketch, w.sized) in
          bucket_at-merge s sketch j (omega (arith, w.sized)) lt
          ∙ ap (λ t. bucket_at s j ⊕ t)
              (bucket_at-fresh hashes alg d xs j f
                  (omega (arith, ap (λ (t : Shape). t.num_buckets) e))
                ∙ ap (λ t. total hashes alg t xs j) e)
          ∙ sym (bucket_at-update_all hashes alg s xs j w lt))
    where
      sketch : Sketch
      sketch = update_all hashes alg d xs

  -- The merge of the sketches of two streams, each applied to one fresh sketch, is the sketch of the
  -- one stream followed by the other.
  pub merge-append :
      (s : Sketch) (xs ys : List ℕ)
      → IsFresh s
      → merge (update_all hashes alg s xs) (update_all hashes alg s ys)
        ≡ update_all hashes alg s (xs ++ ys)
  merge-append s xs ys f =
      merge-update_all (update_all hashes alg s xs) s ys
        (update_all-WellFormed hashes alg s xs f.formed) f (sym (shape-update_all s xs))
      ∙ sym (update_all-append s xs ys)

  -- The vectors over the two-element field, as streams of which the order and the pairs that
  -- cancel are forgotten, and the sketch as a function of the vector.
  pub sketch_of : (s : Sketch) → WellFormed s → Vector → Sketch
  sketch_of s w =
      Quot.lift Sketch-set (update_all hashes alg s)
        (λ xs ys same. update_all-SameVector s xs ys w same)
