-- ===== src/Bucket/Depth.antt =====
-- The depth of an index in a column: the trailing zeros of its hash, but `max_depth` at most.
use native.Mathlib.Nat.{pow-suc, one-le-pow, pow-le-pow_right}
use graph_streaming_cc.Prelude.{
  ℕ, zero, suc, ◌*◌, ◌/◌, ◌%◌, ◌^◌, ◌≤◌, ◌<◌, ◌≡◌, refl, ap, ◌⊎◌, inl, inr, ⊎_elim, arith, bit_or,
  bit_or_step,
}
use graph_streaming_cc.Bucket.{Hashes, ctz, get_index_depth}

-- `hash` is an odd number times 2 ^ depth; at the greatest depth, any number times it.
pub record IsDepth (hash max_depth depth : ℕ) : Type 0 where
  pub factor : ℕ
  pub product : hash ≡ factor * 2 ^ depth
  pub bounded : depth ≤ max_depth
  pub exact : (depth ≡ max_depth) ⊎ (factor % 2 ≡ 1)

ctz_stop : (width w : ℕ) → w % 2 ≡ 1 → ctz (suc width) w ≡ 0
unfolding ctz
ctz_stop width w e = ground arith

ctz_go : (width w : ℕ) → w % 2 ≡ 0 → ctz (suc width) w ≡ suc (ctz width (w / 2))
unfolding ctz
ctz_go width w e = ground arith

IsDepth-suc :
    {hash max_depth depth : ℕ}
    → hash % 2 ≡ 0
    → IsDepth (hash / 2) max_depth depth
    → IsDepth hash (suc max_depth) (suc depth)
IsDepth-suc {hash} {max_depth} {depth} even d = record {
  factor = d.factor;
  product = omega (arith, ap (λ (t : ℕ). d.factor * t) (pow-suc 2 depth), d.product);
  bounded = omega (arith, d.bounded);
  exact = ⊎_elim (λ e. inl (ap suc e)) inr d.exact;
}

or_parity : (w m : ℕ) → bit_or w (2 ^ suc m) % 2 ≡ w % 2
or_parity w m = omega (arith, bit_or_step w (2 ^ suc m), pow-suc 2 m)

or_half : (w m : ℕ) → bit_or w (2 ^ suc m) / 2 ≡ bit_or (w / 2) (2 ^ m)
or_half w m =
    let down : 2 ^ suc m / 2 ≡ 2 ^ m = omega (arith, pow-suc 2 m) in
    omega (arith, bit_or_step w (2 ^ suc m), pow-suc 2 m, ap (bit_or (w / 2)) down)

ctz-IsDepth :
    (width max_depth hash : ℕ)
    → max_depth < width
    → IsDepth hash max_depth (ctz width (bit_or hash (2 ^ max_depth)))
ctz-IsDepth zero m w h = absurd (omega arith)
ctz-IsDepth (suc width) zero w h =
    rw (ctz_stop width (bit_or w 1) (omega (arith, bit_or_step w 1)))
      (record { factor = w; product = omega arith; bounded = omega arith; exact = inl refl })
ctz-IsDepth (suc width) (suc m) w h =
    ⊎_elim
      (λ (even : w % 2 ≡ 0).
        rw (ctz_go width (bit_or w (2 ^ suc m)) (omega (arith, or_parity w m)), or_half w m)
          (IsDepth-suc even (ctz-IsDepth width m (w / 2) (omega arith))))
      (λ (odd : w % 2 ≡ 1).
        rw (ctz_stop width (bit_or w (2 ^ suc m)) (omega (arith, or_parity w m)))
          (record { factor = w; product = omega arith; bounded = omega arith; exact = inr odd }))
      (omega arith)

-- For a cut-off below the width of the word, the depth is at most the cut-off, and below it the
-- hash has exactly that many trailing zeros.
pub get_index_depth-IsDepth :
    (hashes : Hashes) (idx seed max_depth : ℕ)
    → max_depth < 64
    → IsDepth (hashes.col_hash idx seed) max_depth (get_index_depth hashes idx seed max_depth)
unfolding get_index_depth
get_index_depth-IsDepth hashes idx seed m h =
    let below : 2 ^ suc m ≤ 2 ^ 64 = pow-le-pow_right {n = 2} (omega arith) h in
    let cut : 2 ^ m % 2 ^ 64 ≡ 2 ^ m = omega (arith, below, pow-suc 2 m, one-le-pow m 2) in
    rw cut (ctz-IsDepth 64 m (hashes.col_hash idx seed) h)
