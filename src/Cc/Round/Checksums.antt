-- ===== src/Cc/Round/Checksums.antt =====
-- Sketches whose buckets hold edges of a graph, each index with its checksum: the rounds of a query
-- (src/cc_sketch_alg.cpp) keep them, and their good samples are edges, if no checksum is right by
-- chance.
use graph_streaming_cc.Prelude.{ℕ, ◌≡◌, sym, ap, subst, ◌∙◌, true}
use graph_streaming_cc.Util.{inv_concat_pairing_fn}
use graph_streaming_cc.Graph.{EdgeSet}
use graph_streaming_cc.Bucket.{Hashes, Bucket, empty_bucket, get_index_hash, is_good}
use graph_streaming_cc.Bucket.Group.{◌⊕◌, ⊕_swap, empty-⊕}
use graph_streaming_cc.Sketch.{Shape, Sketch, bucket_at}
use graph_streaming_cc.Sketch.Merge.{zero_contents-All, range_merge-All}
use graph_streaming_cc.Sketch.Fresh.{shape-zero_contents}
use graph_streaming_cc.Sketch.Merge.Range.{shape-range_merge}
use graph_streaming_cc.Sketch.Sample.{query}
use graph_streaming_cc.Sketch.Sample.Found.{query-Found}
use graph_streaming_cc.Sketch.Update.{Algorithm}
use graph_streaming_cc.Cc.Query.Rounds.{EdgeOf, Trusts}
use graph_streaming_cc.Cc.Round.Kept.{Merging}

module _ (hashes : Hashes) (alg : Algorithm) (g : EdgeSet) (seed n : ℕ) where
  -- A sum of edges of the graph.
  pub data Sum : Bucket → Type 0 where
    no_edge : Sum empty_bucket
    with_edge :
        (b : Bucket) (x : ℕ)
        → EdgeOf g n (inv_concat_pairing_fn x)
        → Sum b
        → Sum (b ⊕ record { alpha = x; gamma = get_index_hash hashes x seed })

  Sum-⊕ : (a b : Bucket) → Sum a → Sum b → Sum (a ⊕ b)
  Sum-⊕ a b no_edge s = subst Sum (sym (empty-⊕ b)) s
  Sum-⊕ a b (with_edge a' x e s') s =
      subst Sum (⊕_swap a' b (record { alpha = x; gamma = get_index_hash hashes x seed }))
        (with_edge (a' ⊕ b) x e (Sum-⊕ a' b s' s))

  -- A sketch with the seed and the number of vertices of the graph, all of whose buckets are such
  -- sums.
  pub record Checked (m : ℕ) (s : Sketch) : Type 0 where
    pub vertices : m ≡ n
    pub seeded : s.seed ≡ seed
    pub sums : (j : ℕ) → Sum (bucket_at s j)

  pub Checked-Merging : Merging Checked
  Checked-Merging = record {
    zeroed = λ m s q. record {
      vertices = q.vertices;
      seeded = ap (λ (z : Shape). z.seed) (shape-zero_contents s) ∙ q.seeded;
      sums = zero_contents-All Sum s no_edge q.sums;
    };
    merged = λ m s o k q r. record {
      vertices = q.vertices;
      seeded = ap (λ (z : Shape). z.seed) (shape-range_merge s o k 1) ∙ q.seeded;
      sums = range_merge-All Sum s o k 1 (λ a b. Sum-⊕ a b) q.sums r.sums;
    };
  }

  -- No sum of edges has a checksum that is right by chance: a good bucket holds one edge.
  abbrev pub NoChance : Type 0
  NoChance =
      (b : Bucket)
      → Sum b
      → is_good hashes b seed ≡ true
      → EdgeOf g n (inv_concat_pairing_fn b.alpha)

  pub Checked-Trusts : NoChance → Trusts hashes alg g Checked
  Checked-Trusts no_chance = record {
    good_edges = λ m s q k good.
        let f = query-Found hashes s k good in
        subst (λ z. EdgeOf g z (inv_concat_pairing_fn (query hashes s k).idx)) (sym q.vertices)
          (subst (λ a. EdgeOf g n (inv_concat_pairing_fn a)) f.index
            (no_chance (bucket_at s f.place) (q.sums f.place) (
              subst (λ z. is_good hashes (bucket_at s f.place) z ≡ true) q.seeded
                f.is_good_there)));
    any_idx = λ m s i q. record { vertices = q.vertices; seeded = q.seeded; sums = q.sums };
  }
