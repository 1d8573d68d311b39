-- ===== src/Sketch.antt =====
-- include/sketch.h and src/sketch.cpp: a linear sketch of a vector over the two-element field, as
-- an array of buckets. Array sizes do not wrap, since such an array could not be allocated.
pub mod Tests
pub mod Update
pub mod Sample
pub mod Merge
pub mod Fresh
pub mod Binary
use graph_streaming_cc.Prelude.{
  ℕ, suc, ◌+◌, ◌-◌, ◌*◌, ◌/◌, ◌%◌, ◌^◌, Bool, true, false, ◌&&◌, ltb, leb, ◌==◌, if◌then◌else◌,
  Option, none, some, List, [], ◌∷◌, foldl, get_or, modify, replicate, range_from,
}
use graph_streaming_cc.Bucket.{
  Hashes, Bucket, empty_bucket, get_index_depth, get_index_hash, is_good,
}
use graph_streaming_cc.Bucket
use graph_streaming_cc.Bucket.Group.{◌⊕◌}

-- The members that the constructors set once.
pub record Shape : Type 0 where
  pub seed : ℕ
  pub num_samples : ℕ
  pub cols_per_sample : ℕ
  pub num_columns : ℕ
  pub bkt_per_col : ℕ
  pub num_buckets : ℕ

pub record Sketch : Type 0 where
  pub shape : Shape
  pub open shape use *
  pub sample_idx : ℕ
  pub buckets : List Bucket

pub data SampleResult : Type 0 where
  good zero fail : SampleResult

pub record SketchSample : Type 0 where
  pub idx : ℕ
  pub result : SampleResult

pub record ExhaustiveSketchSample : Type 0 where
  pub idxs : List ℕ
  pub result : SampleResult

-- A call that returns, or throws `OutOfSamplesException`.
pub data Sampled {ℓ} (A : Type ℓ) : Type ℓ where
  returned : A → Sampled A
  out_of_samples : (seed num_samples sample_idx : ℕ) → Sampled A

-- The seed of a column is a 64-bit word; that of the checksums is the sketch's own.
abbrev pub column_seed : Shape → ℕ → ℕ
column_seed s column_idx = (s.seed + column_idx * 5) % 2 ^ 64

abbrev pub checksum_seed : Shape → ℕ
checksum_seed s = s.seed

abbrev pub bucket_at : Sketch → ℕ → Bucket
bucket_at s i = get_or s.buckets i empty_bucket

-- `ceil(log2(n))`: the least number of doublings of 1 that reach n, which is at least 1.
unfoldable pub ceil_log2_from : ℕ → ℕ → ℕ → ℕ
ceil_log2_from ℕ.zero power n = 0
ceil_log2_from (suc fuel) power n =
    let rest = suc (ceil_log2_from fuel (2 * power) n) in if leb n power then 0 else rest

-- Of the length 0, the logarithm of which is infinite and whose conversion C++ leaves undefined, it
-- is 1.
unfoldable pub calc_bkt_per_col : ℕ → ℕ
unfolding ceil_log2_from
calc_bkt_per_col n = ceil_log2_from 64 1 n + 1

-- A whole number as a double: of 53 bits, in units of a power of two, to the nearest and halves to
-- even. 11 doublings reach the unit of any 64-bit number.
pub to_nearest : (unit x : ℕ) → ℕ
to_nearest unit x =
    let q = x / unit in
    let r = x % unit in
    if ltb (2 * r) unit
    then q * unit
    else if ltb unit (2 * r)
    then (q + 1) * unit
    else (q + q % 2) * unit

pub to_double : (fuel unit x : ℕ) → ℕ
unfolding to_nearest
to_double ℕ.zero unit x = to_nearest unit x
to_double (suc fuel) unit x =
    let rest = to_double fuel (2 * unit) x in
    if ltb x (2 ^ 53 * unit) then to_nearest unit x else rest

-- `ceil(num_vertices * (num_vertices - 1) / 2)`: the product is a double, its half is exact.
unfoldable pub calc_vector_length : ℕ → ℕ
unfolding to_double
calc_vector_length num_vertices = (to_double 11 1 (num_vertices * (num_vertices - 1)) + 1) / 2

abbrev pub shape_of : ℕ → ℕ → ℕ → ℕ → Shape
shape_of vector_len seed samples cols = record {
  seed = seed;
  num_samples = samples;
  cols_per_sample = cols;
  num_columns = samples * cols;
  bkt_per_col = calc_bkt_per_col vector_len;
  num_buckets = samples * cols * calc_bkt_per_col vector_len + 1;
}

-- The constructor: every bucket is zero.
pub new_sketch : (vector_len seed samples cols : ℕ) → Sketch
new_sketch vector_len seed samples cols =
    let shape = shape_of vector_len seed samples cols in
    record {
      shape = shape;
      sample_idx = 0;
      buckets = replicate (samples * cols * calc_bkt_per_col vector_len + 1) empty_bucket;
    }

-- The copy constructor. The new object's `sample_idx` starts at 0.
pub copy_sketch : Sketch → Sketch
copy_sketch s = record s { sample_idx = 0 }

unfoldable pub reset_sample_state : Sketch → Sketch
reset_sample_state s = record s { sample_idx = 0 }

pub zero_contents : Sketch → Sketch
unfolding reset_sample_state
zero_contents s = reset_sample_state (record s {
  buckets = foldl (λ bs i. modify bs i (λ _. empty_bucket)) s.buckets (range_from 0 s.num_buckets);
})

-- `buckets[i] ^= other[i]` for the indices of a loop.
pub absorb : List Bucket → List Bucket → List ℕ → List Bucket
unfolding ◌⊕◌
absorb other = foldl (λ bs i. modify bs i (λ b. b ⊕ get_or other i empty_bucket))

pub merge : Sketch → Sketch → Sketch
unfolding absorb
merge s other = record s { buckets = absorb other.buckets s.buckets (range_from 0 s.num_buckets) }

-- A buffer of raw buckets in place of another sketch.
pub merge_raw_bucket_buffer : Sketch → List Bucket → Sketch
unfolding absorb
merge_raw_bucket_buffer s raw_buckets = record s {
  buckets = absorb raw_buckets s.buckets (range_from 0 s.num_buckets);
}

-- Built with NDEBUG, as a release is: past the last sample the sketch is put into a fail state.
pub range_merge : Sketch → Sketch → ℕ → ℕ → Sketch
unfolding absorb
range_merge s other start_sample n_samples =
    if ltb s.num_samples (start_sample + n_samples)
    then record s { sample_idx = s.num_samples }
    else record s {
      sample_idx = if ltb s.sample_idx start_sample then start_sample else s.sample_idx;
      buckets = absorb other.buckets (absorb other.buckets s.buckets ((s.num_buckets - 1) ∷ [])) (
          range_from (start_sample * s.cols_per_sample * s.bkt_per_col)
            (n_samples * s.cols_per_sample * s.bkt_per_col));
    }

-- `operator==`
pub same_buckets : List Bucket → List Bucket → List ℕ → Bool
same_buckets xs ys [] = true
same_buckets xs ys (i ∷ is) =
    let rest = same_buckets xs ys is in
    let a = get_or xs i empty_bucket in
    let b = get_or ys i empty_bucket in
    if a.alpha == b.alpha && a.gamma == b.gamma then rest else false

pub sketch_eq : Sketch → Sketch → Bool
unfolding same_buckets
sketch_eq s t =
    if s.num_buckets == t.num_buckets && s.seed == t.seed
    then same_buckets s.buckets t.buckets (range_from 0 s.num_buckets)
    else false
