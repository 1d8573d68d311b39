-- ===== src/Sketch/Sample/Window.antt =====
-- A sample reads the deterministic bucket and the columns of its own number, and nothing else.
use native.Mathlib.Nat.{add-mul, mul-le-mul_right}
use graph_streaming_cc.Prelude.{
  ℕ, zero, suc, ◌+◌, ◌-◌, ◌*◌, ◌≤◌, ◌<◌, ◌≡◌, refl, ap, ◌∙◌, arith, List, get_or, range_from,
}
use graph_streaming_cc.Bucket.{Hashes, Bucket, empty_bucket}
use graph_streaming_cc.Sketch.{Sketch, bucket_at}
use graph_streaming_cc.Sketch.Sample.{scan_column, scan_columns, query}

-- Two sketches that look alike to sample number k.
pub record AgreeAt (k : ℕ) (s t : Sketch) : Type 0 where
  pub shapes : s.shape ≡ t.shape
  pub last : bucket_at s (s.num_buckets - 1) ≡ bucket_at t (s.num_buckets - 1)
  pub window :
      (j : ℕ)
      → k * s.cols_per_sample * s.bkt_per_col ≤ j
      → j < k * s.cols_per_sample * s.bkt_per_col + s.cols_per_sample * s.bkt_per_col
      → bucket_at s j ≡ bucket_at t j

-- Row j of column i of the sample lies in its window.
in_window :
    (first cols rows i j : ℕ)
    → i < cols
    → j < rows
    → (first * rows ≤ (i + first) * rows + j)
      × ((i + first) * rows + j < first * rows + cols * rows)
in_window first cols rows i j p q =
    let below : (i + 1) * rows ≤ cols * rows = mul-le-mul_right rows (omega arith) in
    omega (arith, add-mul i first rows, add-mul i 1 rows, below)

abbrev with_buckets : Sketch → ℕ → List Bucket → Sketch
with_buckets s idx bs = record { shape = s.shape; sample_idx = idx; buckets = bs }

module _ (hashes : Hashes) (k : ℕ) (s : Sketch) (idx : ℕ) (bs : List Bucket)
    (window : (j : ℕ)
      → k * s.cols_per_sample * s.bkt_per_col ≤ j
      → j < k * s.cols_per_sample * s.bkt_per_col + s.cols_per_sample * s.bkt_per_col
      → bucket_at s j ≡ get_or bs j empty_bucket) where
  abbrev t : Sketch
  t = with_buckets s idx bs

  same_row :
      (i j : ℕ)
      → i < s.cols_per_sample
      → j < s.bkt_per_col
      → bucket_at s ((i + k * s.cols_per_sample) * s.bkt_per_col + j)
        ≡ bucket_at t ((i + k * s.cols_per_sample) * s.bkt_per_col + j)
  same_row i j p q =
      let (low, high) = in_window (k * s.cols_per_sample) s.cols_per_sample s.bkt_per_col i j p q in
      window ((i + k * s.cols_per_sample) * s.bkt_per_col + j) low high

  scan_column-agree :
      (i lo n : ℕ)
      → i < s.cols_per_sample
      → lo + n ≤ s.bkt_per_col
      → scan_column hashes s (i + k * s.cols_per_sample) (range_from lo n)
        ≡ scan_column hashes t (i + k * s.cols_per_sample) (range_from lo n)
  unfolding scan_column
  scan_column-agree i lo zero p q = refl
  scan_column-agree i lo (suc n) p q =
      rw (same_row i lo p (omega arith), scan_column-agree i (suc lo) n p (omega arith))

  scan_columns-agree :
      (lo n : ℕ)
      → lo + n ≤ s.cols_per_sample
      → scan_columns hashes s (k * s.cols_per_sample) (range_from lo n)
        ≡ scan_columns hashes t (k * s.cols_per_sample) (range_from lo n)
  unfolding scan_columns
  scan_columns-agree lo zero p = refl
  scan_columns-agree lo (suc n) p = rw (
    scan_column-agree lo 0 s.bkt_per_col (omega arith) (omega arith),
    scan_columns-agree (suc lo) n (omega arith),
  )

  query-with_buckets :
      bucket_at s (s.num_buckets - 1) ≡ get_or bs (s.num_buckets - 1) empty_bucket
      → query hashes s k ≡ query hashes t k
  unfolding query
  query-with_buckets last = rw (last, scan_columns-agree 0 s.cols_per_sample (omega arith))

pub query-AgreeAt :
    (hashes : Hashes) (k : ℕ) (s t : Sketch) → AgreeAt k s t → query hashes s k ≡ query hashes t k
query-AgreeAt hashes k s t a =
    query-with_buckets hashes k s t.sample_idx t.buckets a.window a.last
    ∙ ap
        (λ z. query hashes (record { shape = z; sample_idx = t.sample_idx; buckets = t.buckets }) k)
        a.shapes
