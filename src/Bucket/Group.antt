-- ===== src/Bucket/Group.antt =====
-- Buckets under `^` form a commutative group in which each is its own inverse.
use graph_streaming_cc.Prelude.{
  ℕ, ◌≡◌, refl, ap, ◌∙◌, sym, bit_xor, bit_xor_comm, bit_xor_assoc, bit_xor-zero, bit_xor_self,
}
use graph_streaming_cc.Bucket.{Bucket, empty_bucket, update}

infixl 65 ◌⊕◌
unfoldable pub ◌⊕◌ : Bucket → Bucket → Bucket
a ⊕ b = record { alpha = bit_xor a.alpha b.alpha; gamma = bit_xor a.gamma b.gamma }

bucket_path : (a b : Bucket) → a.alpha ≡ b.alpha → a.gamma ≡ b.gamma → a ≡ b
bucket_path a b p q = λ i. record { alpha = p i; gamma = q i }

pub ⊕_comm : (a b : Bucket) → a ⊕ b ≡ b ⊕ a
unfolding ◌⊕◌
⊕_comm a b = bucket_path _ _ (bit_xor_comm a.alpha b.alpha) (bit_xor_comm a.gamma b.gamma)

pub ⊕_assoc : (a b c : Bucket) → (a ⊕ b) ⊕ c ≡ a ⊕ (b ⊕ c)
unfolding ◌⊕◌
⊕_assoc a b c =
    bucket_path _ _ (bit_xor_assoc a.alpha b.alpha c.alpha) (bit_xor_assoc a.gamma b.gamma c.gamma)

pub ⊕-empty : (a : Bucket) → a ⊕ empty_bucket ≡ a
unfolding ◌⊕◌
⊕-empty a = bucket_path _ _ (bit_xor-zero a.alpha) (bit_xor-zero a.gamma)

pub empty-⊕ : (a : Bucket) → empty_bucket ⊕ a ≡ a
empty-⊕ a = ⊕_comm empty_bucket a ∙ ⊕-empty a

pub ⊕_self : (a : Bucket) → a ⊕ a ≡ empty_bucket
unfolding ◌⊕◌
⊕_self a = bucket_path _ _ (bit_xor_self a.alpha) (bit_xor_self a.gamma)

-- (a + b) + c = (a + c) + b
pub ⊕_swap : (a b c : Bucket) → (a ⊕ b) ⊕ c ≡ (a ⊕ c) ⊕ b
⊕_swap a b c = ⊕_assoc a b c ∙ ap (λ t. a ⊕ t) (⊕_comm b c) ∙ sym (⊕_assoc a c b)

pub ⊕_cancel : (a b : Bucket) → (a ⊕ b) ⊕ b ≡ a
⊕_cancel a b = ⊕_assoc a b b ∙ ap (λ t. a ⊕ t) (⊕_self b) ∙ ⊕-empty a

pub eq_of_⊕-empty : (a b : Bucket) → a ⊕ b ≡ empty_bucket → a ≡ b
eq_of_⊕-empty a b h = sym (⊕_cancel a b) ∙ ap (λ t. t ⊕ b) h ∙ empty-⊕ b

pub update-as_⊕ :
    (b : Bucket) (idx hash : ℕ) → update b idx hash ≡ b ⊕ record { alpha = idx; gamma = hash }
unfolding update ◌⊕◌
update-as_⊕ b idx hash = refl

-- a + (b + c) = b + (a + c)
pub ⊕_left_comm : (a b c : Bucket) → a ⊕ (b ⊕ c) ≡ b ⊕ (a ⊕ c)
⊕_left_comm a b c = sym (⊕_assoc a b c) ∙ ap (λ t. t ⊕ c) (⊕_comm a b) ∙ ⊕_assoc b a c

pub self-⊕_cancel : (a b : Bucket) → a ⊕ (a ⊕ b) ≡ b
self-⊕_cancel a b = ⊕_comm a (a ⊕ b) ∙ ap (λ t. t ⊕ a) (⊕_comm a b) ∙ ⊕_cancel b a
