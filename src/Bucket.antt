-- ===== src/Bucket.antt =====
-- include/bucket.h: one cell of a sketch, its checksum and the depth of an index in a column.
-- The hash functions of the library xxhash are a parameter.
pub mod Tests
pub mod Group
pub mod Depth
use graph_streaming_cc.Prelude.{
  ℕ, zero, suc, ◌+◌, ◌/◌, ◌%◌, ◌^◌, Bool, ◌==◌, if◌then◌else◌, bit_xor, bit_or,
}

-- `vec_hash` is the checksum of an index, cut to `vec_hash_t`, a word of `hash_bytes` bytes;
-- `col_hash` is a 64-bit word. Both take the value that is hashed, then the seed.
pub record Hashes : Type 0 where
  pub vec_hash : ℕ → ℕ → ℕ
  pub col_hash : ℕ → ℕ → ℕ
  pub hash_bytes : ℕ

pub record Bucket : Type 0 where
  pub alpha : ℕ
  pub gamma : ℕ

abbrev pub empty_bucket : Bucket
empty_bucket = record { alpha = 0; gamma = 0 }

-- The number of 0 bits below the lowest 1. Of the word 0, whose count the compiler leaves
-- undefined, it is the width.
pub ctz : ℕ → ℕ → ℕ
ctz zero w = 0
ctz (suc width) w = let rest = suc (ctz width (w / 2)) in if w % 2 == 1 then 0 else rest

pub update : Bucket → ℕ → ℕ → Bucket
update bucket update_idx update_hash = record {
  alpha = bit_xor bucket.alpha update_idx;
  gamma = bit_xor bucket.gamma update_hash;
}

module _ (hashes : Hashes) where
  pub get_index_depth : ℕ → ℕ → ℕ → ℕ
  unfolding ctz
  get_index_depth update_idx seed_and_col max_depth =
      ctz 64 (bit_or (hashes.col_hash update_idx seed_and_col) (2 ^ max_depth % 2 ^ 64))

  unfoldable pub get_index_hash : ℕ → ℕ → ℕ
  get_index_hash index sketch_seed = hashes.vec_hash index sketch_seed

  unfoldable pub is_good : Bucket → ℕ → Bool
  is_good bucket sketch_seed = bucket.gamma == get_index_hash bucket.alpha sketch_seed
