-- ===== src/Sketch/Binary.antt =====
-- `serialize` of src/sketch.cpp, and the constructor that reads a serialized sketch. A bucket is
-- packed: eight bytes of `alpha`, then those of `gamma`.
use graph_streaming_cc.Prelude.{
  ℕ, zero, suc, ◌+◌, ◌*◌, ◌^◌, ◌<◌, ◌≡◌, refl, sym, ap, subst, ◌∙◌, ◌>>=◌, Option, some, List, [],
  ◌∷◌, ◌++◌, length,
}
use graph_streaming_cc.Binary.{capacity, write_word, read_word, read-write_word, capacity_8}
use graph_streaming_cc.Bucket.{Bucket}
use graph_streaming_cc.Sketch.{Shape, Sketch, shape_of, calc_bkt_per_col, copy_sketch}
use graph_streaming_cc.Sketch.Update.Cells.{WellFormed}

-- `hash_bytes` is the size of `vec_hash_t`.
module _ (hash_bytes : ℕ) where
  pub write_buckets : List Bucket → List ℕ
  write_buckets [] = []
  write_buckets (b ∷ bs) =
      write_word 8 b.alpha ++ (write_word hash_bytes b.gamma ++ write_buckets bs)

  -- The array has `num_buckets` buckets.
  pub serialize : Sketch → List ℕ
  unfolding write_buckets
  serialize s = write_buckets s.buckets

  pub read_buckets : ℕ → List ℕ → Option (List Bucket × List ℕ)
  read_buckets zero input = some ([], input)
  read_buckets (suc n) input = do
    (alpha, input) ← read_word 8 input
    (gamma, input) ← read_word hash_bytes input
    (bs, input) ← read_buckets n input
    some (record { alpha = alpha; gamma = gamma } ∷ bs, input)

  -- With what is left of the stream. At its end the code leaves the rest of the array undetermined,
  -- and the model gives `none`.
  pub read_sketch : (vector_len seed samples cols : ℕ) → List ℕ → Option (Sketch × List ℕ)
  unfolding read_buckets
  read_sketch vector_len seed samples cols input = do
    (buckets, rest) ← read_buckets (samples * cols * calc_bkt_per_col vector_len + 1) input
    some (
      record { shape = shape_of vector_len seed samples cols; sample_idx = 0; buckets = buckets },
      rest,
    )

  -- Buckets whose members fit their words.
  pub data Words : List Bucket → Type 0 where
    no_bucket : Words []
    bucket :
        (b : Bucket) (bs : List Bucket)
        → b.alpha < 2 ^ 64
        → b.gamma < capacity hash_bytes
        → Words bs
        → Words (b ∷ bs)

  pub append_assoc : (xs ys zs : List ℕ) → (xs ++ ys) ++ zs ≡ xs ++ (ys ++ zs)
  append_assoc [] ys zs = refl
  append_assoc (x ∷ xs) ys zs = ap (λ t. x ∷ t) (append_assoc xs ys zs)

  read-write_buckets :
      (bs : List Bucket) (rest : List ℕ)
      → Words bs
      → read_buckets (length bs) (write_buckets bs ++ rest) ≡ some (bs, rest)
  unfolding read_buckets write_buckets
  read-write_buckets [] rest no_bucket = refl
  read-write_buckets (b ∷ bs) rest (bucket _ _ alpha gamma more) =
      rw
        (
          append_assoc (write_word 8 b.alpha) (write_word hash_bytes b.gamma ++ write_buckets bs)
              rest,
          append_assoc (write_word hash_bytes b.gamma) (write_buckets bs) rest,
          read-write_word 8 b.alpha (write_word hash_bytes b.gamma ++ (write_buckets bs ++ rest))
              (subst (λ t. b.alpha < t) (sym capacity_8) alpha),
          read-write_word hash_bytes b.gamma (write_buckets bs ++ rest) gamma,
          read-write_buckets bs rest more,
        )
        refl

  pub read_sketch-serialize :
      (vector_len seed samples cols : ℕ) (s : Sketch) (rest : List ℕ)
      → s.shape ≡ shape_of vector_len seed samples cols
      → WellFormed s
      → Words s.buckets
      → read_sketch vector_len seed samples cols (serialize s ++ rest) ≡ some (copy_sketch s, rest)
  unfolding read_sketch serialize copy_sketch
  read_sketch-serialize vector_len seed samples cols s rest shaped formed words =
      let count : length s.buckets ≡ samples * cols * calc_bkt_per_col vector_len + 1 =
        formed.sized ∙ ap (λ (z : Shape). z.num_buckets) shaped in
      let reads : read_buckets (samples * cols * calc_bkt_per_col vector_len + 1)
            (write_buckets s.buckets ++ rest)
          ≡ some (s.buckets, rest) =
        subst (λ k. read_buckets k (write_buckets s.buckets ++ rest) ≡ some (s.buckets, rest)) count
          (read-write_buckets s.buckets rest words) in
      rw reads (
        ap (λ (z : Shape). some (record { shape = z; sample_idx = 0; buckets = s.buckets }, rest))
          (sym shaped))
