-- ===== src/Sketch/Update/Linear.antt =====
-- A sketch is a linear map of the vector that the stream of updates describes: an index is in the
-- vector when it occurs an odd number of times.
use graph_streaming_cc.Prelude.{
  ℕ, zero, suc, ◌≤◌, ◌<◌, ◌≡◌, refl, sym, ap, ◌∙◌, arith, Bool, true, false, not, ◌==◌,
  if◌then◌else◌, Bool-cases, inl, inr, List, [], ◌∷◌, ◌++◌, length, ==→eq,
}
use graph_streaming_cc.Bucket.{Hashes, empty_bucket}
use graph_streaming_cc.Bucket.Group.{
  ◌⊕◌, empty-⊕, ⊕_assoc, ⊕_left_comm, self-⊕_cancel, eq_of_⊕-empty,
}
use graph_streaming_cc.Sketch.{Shape, Sketch, bucket_at}
use graph_streaming_cc.Sketch.Update.{Algorithm, update_all}
use graph_streaming_cc.Sketch.Update.Cells.{WellFormed}
use graph_streaming_cc.Sketch.Update.Contents.{contribution, total, bucket_at-update_all}

-- Whether an index is in the vector of a stream.
unfoldable pub parity : ℕ → List ℕ → Bool
parity x [] = false
parity x (y ∷ ys) = if y == x then not (parity x ys) else parity x ys

-- Two streams of one vector.
abbrev pub SameVector : List ℕ → List ℕ → Type 0
SameVector xs ys = (x : ℕ) → parity x xs ≡ parity x ys

pub parity-append :
    (x : ℕ) (xs ys : List ℕ)
    → parity x (xs ++ ys) ≡ (if parity x xs then not (parity x ys) else parity x ys)
unfolding parity
parity-append x [] ys = refl
parity-append x (y ∷ xs) ys = ground (arith, parity-append x xs ys)

parity_twice : (xs ys : List ℕ) → SameVector xs ys → SameVector (xs ++ ys) []
unfolding parity
parity_twice xs ys same x = ground (arith, parity-append x xs ys, same x)

-- The stream without the first x.
remove_one : ℕ → List ℕ → List ℕ
remove_one x [] = []
remove_one x (y ∷ ys) = if y == x then ys else y ∷ remove_one x ys

length-remove_one :
    (x : ℕ) (ys : List ℕ) → parity x ys ≡ true → suc (length (remove_one x ys)) ≡ length ys
unfolding remove_one parity
length-remove_one x [] h = ground arith
length-remove_one x (y ∷ ys) h = ground (arith, length-remove_one x ys)

parity-remove_one :
    (x z : ℕ) (ys : List ℕ)
    → parity x ys ≡ true
    → parity z ys
      ≡ (if x == z then not (parity z (remove_one x ys)) else parity z (remove_one x ys))
unfolding remove_one parity
parity-remove_one x z [] h = ground arith
parity-remove_one x z (y ∷ ys) h = ground (arith, parity-remove_one x z ys)

module _ (hashes : Hashes) (alg : Algorithm) (s : Shape) (j : ℕ) where
  pub total-append :
      (xs ys : List ℕ)
      → total hashes alg s (xs ++ ys) j ≡ total hashes alg s xs j ⊕ total hashes alg s ys j
  unfolding total
  total-append [] ys = sym (empty-⊕ (total hashes alg s ys j))
  total-append (x ∷ xs) ys =
      ap (λ t. contribution hashes alg s x j ⊕ t) (total-append xs ys)
      ∙ sym (
          ⊕_assoc (contribution hashes alg s x j) (total hashes alg s xs j)
            (total hashes alg s ys j))

  total-remove_one :
      (x : ℕ) (ys : List ℕ)
      → parity x ys ≡ true
      → total hashes alg s ys j
        ≡ contribution hashes alg s x j ⊕ total hashes alg s (remove_one x ys) j
  unfolding total remove_one parity
  total-remove_one x [] h = ground arith
  total-remove_one x (y ∷ ys) h = elim (Bool-cases (y == x)) [
    | inl e ↦ rw e (rw (==→eq y x e))
    | inr ne ↦ rw ne (
        ap (λ t. contribution hashes alg s y j ⊕ t) (total-remove_one x ys (rw ne at h))
        ∙ ⊕_left_comm (contribution hashes alg s y j) (contribution hashes alg s x j)
            (total hashes alg s (remove_one x ys) j))
  ]

  -- Updates that cancel leave nothing.
  total_even_below :
      (n : ℕ) (xs : List ℕ)
      → length xs ≤ n
      → SameVector xs []
      → total hashes alg s xs j ≡ empty_bucket
  unfolding total parity
  total_even_below n [] h even = refl
  total_even_below zero (x ∷ xs) h even = absurd (omega arith)
  total_even_below (suc n) (x ∷ xs) h even =
      let again : parity x xs ≡ true = ground (arith, even x) in
      ap (λ t. contribution hashes alg s x j ⊕ t) (total-remove_one x xs again)
      ∙ self-⊕_cancel (contribution hashes alg s x j) (total hashes alg s (remove_one x xs) j)
      ∙ total_even_below n (remove_one x xs) (omega (arith, length-remove_one x xs again))
          (λ z. ground (arith, even z, parity-remove_one x z xs again))

  -- So the total of a stream is a function of its vector.
  pub total-SameVector :
      (xs ys : List ℕ) → SameVector xs ys → total hashes alg s xs j ≡ total hashes alg s ys j
  total-SameVector xs ys same = eq_of_⊕-empty (total hashes alg s xs j) (total hashes alg s ys j) (
      sym (total-append xs ys)
      ∙ total_even_below (length (xs ++ ys)) (xs ++ ys) (omega arith) (parity_twice xs ys same))

-- A sketch whose buckets are all zero.
pub record IsFresh (s : Sketch) : Type 0 where
  pub formed : WellFormed s
  pub unused : s.sample_idx ≡ 0
  pub zeroed : (j : ℕ) → bucket_at s j ≡ empty_bucket

module _ (hashes : Hashes) (alg : Algorithm) where
  pub bucket_at-fresh :
      (s : Sketch) (stream : List ℕ) (j : ℕ)
      → IsFresh s
      → j < s.num_buckets
      → bucket_at (update_all hashes alg s stream) j ≡ total hashes alg s.shape stream j
  bucket_at-fresh s stream j f h =
      bucket_at-update_all hashes alg s stream j f.formed h
      ∙ ap (λ t. t ⊕ total hashes alg s.shape stream j) (f.zeroed j)
      ∙ empty-⊕ (total hashes alg s.shape stream j)
