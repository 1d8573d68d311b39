-- ===== src/Sketch/Merge.antt =====
-- Merging one sketch into another, bucket by bucket: `merge`, `merge_raw_bucket_buffer`,
-- `range_merge` and `zero_contents` of src/sketch.cpp.
pub mod Range
use graph_streaming_cc.Prelude.{
  ℕ, zero, suc, ◌+◌, ◌-◌, ◌*◌, [], ◌∷◌, modify-All, ◌≤◌, ◌<◌, Bool-cases, ltb, ltb→lt, ltb-false→le,
  get_or_beyond, ◌≡◌, refl, sym, ap, ◌∙◌, ◌⊎◌, inl, inr, arith, eq-or-ne, List, foldl, get_or,
  modify, length, length-modify, replicate, get_or-modify_self, get_or-modify_ne, range_from,
  get_or_ext, length-replicate, get_or-replicate,
}
use graph_streaming_cc.Bucket.{Bucket, empty_bucket}
use graph_streaming_cc.Bucket.Group.{◌⊕◌}
use graph_streaming_cc.Sketch.{
  Sketch, bucket_at, absorb, merge, merge_raw_bucket_buffer, zero_contents, range_merge,
}

module _ (other : List Bucket) where
  abbrev other_at : ℕ → Bucket
  other_at i = get_or other i empty_bucket

  pub length-absorb :
      (lo n : ℕ) (bs : List Bucket) → length (absorb other bs (range_from lo n)) ≡ length bs
  unfolding absorb
  length-absorb lo zero bs = refl
  length-absorb lo (suc n) bs =
      length-absorb (suc lo) n (modify bs lo (λ b. b ⊕ other_at lo))
      ∙ length-modify bs lo (λ b. b ⊕ other_at lo)

  pub absorb_outside :
      (lo n j : ℕ) (bs : List Bucket)
      → (j < lo) ⊎ (lo + n ≤ j)
      → get_or (absorb other bs (range_from lo n)) j empty_bucket ≡ get_or bs j empty_bucket
  unfolding absorb
  absorb_outside lo zero j bs out = refl
  absorb_outside lo (suc n) j bs out =
      absorb_outside (suc lo) n j (modify bs lo (λ b. b ⊕ other_at lo)) (omega arith)
      ∙ get_or-modify_ne bs lo j (λ b. b ⊕ other_at lo) empty_bucket (omega arith)

  absorb_at :
      (i j : ℕ) (bs : List Bucket)
      → i ≡ j
      → j < length bs
      → get_or (modify bs i (λ b. b ⊕ other_at i)) j empty_bucket
        ≡ get_or bs j empty_bucket ⊕ get_or other j empty_bucket
  absorb_at i j bs e h = rw e (get_or-modify_self bs j (λ b. b ⊕ other_at j) empty_bucket h)

  pub absorb_inside :
      (lo n j : ℕ) (bs : List Bucket)
      → j < length bs
      → lo ≤ j
      → j < lo + n
      → get_or (absorb other bs (range_from lo n)) j empty_bucket
        ≡ get_or bs j empty_bucket ⊕ get_or other j empty_bucket
  unfolding absorb
  absorb_inside lo zero j bs h p q = absurd (omega arith)
  absorb_inside lo (suc n) j bs h p q = elim (eq-or-ne lo j) [
    | inl e ↦
        absorb_outside (suc lo) n j (modify bs lo (λ b. b ⊕ other_at lo)) (omega arith)
        ∙ absorb_at lo j bs e h
    | inr ne ↦
        absorb_inside (suc lo) n j (modify bs lo (λ b. b ⊕ other_at lo))
          (omega (arith, length-modify bs lo (λ b. b ⊕ other_at lo))) (omega arith) (omega arith)
        ∙ ap (λ t. t ⊕ get_or other j empty_bucket)
            (get_or-modify_ne bs lo j (λ b. b ⊕ other_at lo) empty_bucket ne)
  ]

-- Every bucket after a merge.
pub bucket_at-merge :
    (s o : Sketch) (j : ℕ)
    → j < length s.buckets
    → j < s.num_buckets
    → bucket_at (merge s o) j ≡ bucket_at s j ⊕ bucket_at o j
unfolding merge
bucket_at-merge s o j h lt =
    absorb_inside o.buckets 0 s.num_buckets j s.buckets h (omega arith) (omega arith)

pub length-merge : (s o : Sketch) → length (merge s o).buckets ≡ length s.buckets
unfolding merge
length-merge s o = length-absorb o.buckets 0 s.num_buckets s.buckets

pub shape-merge : (s o : Sketch) → (merge s o).shape ≡ s.shape
unfolding merge
shape-merge s o = refl

pub sample_idx-merge : (s o : Sketch) → (merge s o).sample_idx ≡ s.sample_idx
unfolding merge
sample_idx-merge s o = refl

-- A raw buffer is merged as the sketch that holds it would be.
pub merge_raw_bucket_buffer-merge : (s o : Sketch) → merge_raw_bucket_buffer s o.buckets ≡ merge s o
unfolding merge_raw_bucket_buffer merge
merge_raw_bucket_buffer-merge s o = refl

-- The loop of `zero_contents`.
zeros : (lo n : ℕ) (bs : List Bucket) → List Bucket
zeros lo n bs = foldl (λ bs i. modify bs i (λ _. empty_bucket)) bs (range_from lo n)

length-zeros : (lo n : ℕ) (bs : List Bucket) → length (zeros lo n bs) ≡ length bs
unfolding zeros
length-zeros lo zero bs = refl
length-zeros lo (suc n) bs =
    length-zeros (suc lo) n (modify bs lo (λ _. empty_bucket))
    ∙ length-modify bs lo (λ _. empty_bucket)

zeros_outside :
    (lo n j : ℕ) (bs : List Bucket)
    → j < lo
    → get_or (zeros lo n bs) j empty_bucket ≡ get_or bs j empty_bucket
unfolding zeros
zeros_outside lo zero j bs out = refl
zeros_outside lo (suc n) j bs out =
    zeros_outside (suc lo) n j (modify bs lo (λ _. empty_bucket)) (omega arith)
    ∙ get_or-modify_ne bs lo j (λ _. empty_bucket) empty_bucket (omega arith)

zeros_inside :
    (lo n j : ℕ) (bs : List Bucket)
    → j < length bs
    → lo ≤ j
    → j < lo + n
    → get_or (zeros lo n bs) j empty_bucket ≡ empty_bucket
unfolding zeros
zeros_inside lo zero j bs h p q = absurd (omega arith)
zeros_inside lo (suc n) j bs h p q = elim (eq-or-ne lo j) [
  | inl e ↦
      zeros_outside (suc lo) n j (modify bs lo (λ _. empty_bucket)) (omega arith)
      ∙ rw e (get_or-modify_self bs j (λ _. empty_bucket) empty_bucket h)
  | inr ne ↦
      zeros_inside (suc lo) n j (modify bs lo (λ _. empty_bucket))
        (omega (arith, length-modify bs lo (λ (_ : Bucket). empty_bucket))) (omega arith)
        (omega arith)
]

-- `zero_contents` of a sketch that has its number of buckets leaves zero in every bucket, the shape
-- as it was and no sample taken.
pub zero_contents_lem :
    (s : Sketch)
    → length s.buckets ≡ s.num_buckets
    → zero_contents s
      ≡ record { shape = s.shape; sample_idx = 0; buckets = replicate s.num_buckets empty_bucket }
unfolding zero_contents zeros
zero_contents_lem s h = λ i. record {
  shape = s.shape;
  sample_idx = 0;
  buckets =
      get_or_ext empty_bucket (zeros 0 s.num_buckets s.buckets)
        (replicate s.num_buckets empty_bucket)
        (length-zeros 0 s.num_buckets s.buckets
          ∙ h
          ∙ sym (length-replicate s.num_buckets empty_bucket))
        (λ j lt.
          zeros_inside 0 s.num_buckets j s.buckets
            (omega (arith, length-zeros 0 s.num_buckets s.buckets)) (omega arith)
            (omega (arith, length-zeros 0 s.num_buckets s.buckets))
          ∙ sym (get_or-replicate s.num_buckets j empty_bucket))
        i;
}

-- The deterministic bucket of a zeroed sketch.
pub zero_contents_last :
    (s : Sketch)
    → 0 < s.num_buckets
    → bucket_at (zero_contents s) (s.num_buckets - 1) ≡ empty_bucket
unfolding zero_contents zeros
zero_contents_last s h = elim (Bool-cases (ltb (s.num_buckets - 1) (length s.buckets))) [
  | inl inside ↦
      zeros_inside 0 s.num_buckets (s.num_buckets - 1) s.buckets (ltb→lt _ _ inside) (omega arith)
        (omega arith)
  | inr beyond ↦
      get_or_beyond (zeros 0 s.num_buckets s.buckets) (s.num_buckets - 1) empty_bucket
        (omega (arith, ltb-false→le _ _ beyond, length-zeros 0 s.num_buckets s.buckets))
]

-- A property of buckets that the merges keep.
module _ {ℓ} (P : Bucket → Type ℓ) where
  zeros-All :
      (lo n : ℕ) (bs : List Bucket)
      → P empty_bucket
      → ((j : ℕ) → P (get_or bs j empty_bucket))
      → (j : ℕ) → P (get_or (zeros lo n bs) j empty_bucket)
  unfolding zeros
  zeros-All lo zero bs e all = all
  zeros-All lo (suc n) bs e all =
      zeros-All (suc lo) n (modify bs lo (λ _. empty_bucket)) e
        (modify-All P bs lo (λ _. empty_bucket) empty_bucket (λ _ _. e) all)

  pub zero_contents-All :
      (s : Sketch)
      → P empty_bucket
      → ((j : ℕ) → P (bucket_at s j))
      → (j : ℕ) → P (bucket_at (zero_contents s) j)
  unfolding zero_contents zeros
  zero_contents-All s e all = zeros-All 0 s.num_buckets s.buckets e all

  absorb-All :
      (other : List Bucket) (is : List ℕ) (bs : List Bucket)
      → ((a b : Bucket) → P a → P b → P (a ⊕ b))
      → ((j : ℕ) → P (get_or other j empty_bucket))
      → ((j : ℕ) → P (get_or bs j empty_bucket))
      → (j : ℕ) → P (get_or (absorb other bs is) j empty_bucket)
  unfolding absorb
  absorb-All other [] bs sum others all = all
  absorb-All other (i ∷ is) bs sum others all =
      absorb-All other is (modify bs i (λ b. b ⊕ get_or other i empty_bucket)) sum others (
        modify-All P bs i (λ b. b ⊕ get_or other i empty_bucket) empty_bucket
          (λ a p. sum a (get_or other i empty_bucket) p (others i)) all)

  pub range_merge-All :
      (s other : Sketch) (start n : ℕ)
      → ((a b : Bucket) → P a → P b → P (a ⊕ b))
      → ((j : ℕ) → P (bucket_at s j))
      → ((j : ℕ) → P (bucket_at other j))
      → (j : ℕ) → P (bucket_at (range_merge s other start n) j)
  unfolding range_merge
  range_merge-All s other start n sum all others j =
      elim (Bool-cases (ltb s.num_samples (start + n))) [
        | inl e ↦ rw e (all j)
        | inr e ↦ rw e (
            absorb-All other.buckets
              (range_from (start * s.cols_per_sample * s.bkt_per_col)
                (n * s.cols_per_sample * s.bkt_per_col))
              (absorb other.buckets s.buckets ((s.num_buckets - 1) ∷ [])) sum others
              (absorb-All other.buckets ((s.num_buckets - 1) ∷ []) s.buckets sum others all) j)
      ]
