-- ===== src/Sketch/Fresh.antt =====
-- The sketches of the constructor and of `zero_contents` hold the empty vector.
use graph_streaming_cc.Prelude.{
  ℕ, ◌+◌, ◌*◌, ◌≡◌, ◌<◌, arith, refl, ◌∙◌, arith, length-replicate, get_or-replicate,
}
use graph_streaming_cc.Bucket.{empty_bucket}
use graph_streaming_cc.Sketch.{
  bucket_at, Sketch, new_sketch, calc_bkt_per_col, zero_contents, merge,
}
use graph_streaming_cc.Sketch.Merge.{zero_contents_lem, length-merge}
use graph_streaming_cc.Sketch.Update.Cells.{WellFormed}
use graph_streaming_cc.Sketch.Update.Linear.{IsFresh}

pub new_sketch-IsFresh : (len seed samples cols : ℕ) → IsFresh (new_sketch len seed samples cols)
unfolding new_sketch calc_bkt_per_col
new_sketch-IsFresh len seed samples cols =
    let buckets : ℕ = samples * cols * calc_bkt_per_col len + 1 in
    record {
      formed = record {
        columns = refl;
        rows = omega arith;
        total = refl;
        sized = length-replicate buckets empty_bucket;
      };
      unused = refl;
      zeroed = λ j. get_or-replicate buckets j empty_bucket;
    }

pub zero_contents-IsFresh : (s : Sketch) → WellFormed s → IsFresh (zero_contents s)
zero_contents-IsFresh s w = rw (zero_contents_lem s w.sized) (record {
  formed = record {
    columns = w.columns;
    rows = w.rows;
    total = w.total;
    sized = length-replicate s.num_buckets empty_bucket;
  };
  unused = refl;
  zeroed = λ j. get_or-replicate s.num_buckets j empty_bucket;
})

pub shape-zero_contents : (s : Sketch) → (zero_contents s).shape ≡ s.shape
unfolding zero_contents
shape-zero_contents s = refl

pub merge-WellFormed : (s t : Sketch) → WellFormed s → WellFormed (merge s t)
unfolding merge
merge-WellFormed s t w = record {
  columns = w.columns;
  rows = w.rows;
  total = w.total;
  sized = length-merge s t ∙ w.sized;
}

pub num_samples-new_sketch :
    (len seed samples cols : ℕ) → (new_sketch len seed samples cols).num_samples ≡ samples
unfolding new_sketch
num_samples-new_sketch len seed samples cols = refl

pub num_buckets-new_sketch :
    (len seed samples cols : ℕ) → 0 < (new_sketch len seed samples cols).num_buckets
unfolding new_sketch
num_buckets-new_sketch len seed samples cols = omega arith

pub bucket_at-new_sketch :
    (len seed samples cols i : ℕ) → bucket_at (new_sketch len seed samples cols) i ≡ empty_bucket
unfolding new_sketch
bucket_at-new_sketch len seed samples cols i =
    get_or-replicate (samples * cols * calc_bkt_per_col len + 1) i empty_bucket

pub seed-new_sketch : (len seed samples cols : ℕ) → (new_sketch len seed samples cols).seed ≡ seed
unfolding new_sketch
seed-new_sketch len seed samples cols = refl
