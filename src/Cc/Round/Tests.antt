-- ===== src/Cc/Round/Tests.antt =====
-- A round of src/cc_sketch_alg.cpp with two threads on four vertices, of which two have an edge.
use graph_streaming_cc.Prelude.{
  ℕ, zero, suc, ◌+◌, ◌-◌, ◌≤◌, ◌<◌, ◌≡◌, inl, inr, refl, sym, ap, subst, ◌∙◌, arith, Bool, true,
  ◌&&◌, ◌==◌, if◌then◌else◌, List, [], ◌∷◌, modify, modify-All, Returns, bit_xor, Bool-cases, ==→eq,
}
use graph_streaming_cc.Util.{inv_concat_pairing_fn, low_of, high_of}
use graph_streaming_cc.Graph.{EdgeSet}
use graph_streaming_cc.Bucket.{Hashes, Bucket, empty_bucket, get_index_hash, is_good}
use graph_streaming_cc.Bucket.Group.{◌⊕◌}
use graph_streaming_cc.Sketch.Update.{Algorithm}
use graph_streaming_cc.Sketch.{Sketch, bucket_at, calc_vector_length}
use graph_streaming_cc.Sketch.Fresh.{bucket_at-new_sketch, seed-new_sketch}
use graph_streaming_cc.Dsu.Sets.{n-new_dsu}
use graph_streaming_cc.Cc.{
  CcSketchAlg, new_cc, empty_sketch, vertex_sketch, default_cols_per_sample,
}
use graph_streaming_cc.Cc.Query.{start_boruvka}
use graph_streaming_cc.Cc.Query.Flags.{start_boruvka-num_vertices, start_boruvka-empty_sketch}
use graph_streaming_cc.Cc.Query.Rounds.{EdgeOf, Each, each, no_more, Trusts, Sound, start-Sound}
use graph_streaming_cc.Cc.Partition.{MergeInstr, instr_at, get_ith_partition, get_partition_idx}
use graph_streaming_cc.Cc.Partition.Tests.{halves, half_of}
use graph_streaming_cc.Cc.Round.Kept.{Plan, SharedOk}
use graph_streaming_cc.Cc.Round.Whole.{perform_boruvka_round_lem}
use graph_streaming_cc.Cc.Round.{GlobalMergeData, new_global, perform_boruvka_round}
use graph_streaming_cc.Cc.Round.Checksums.{
  Sum, no_edge, with_edge, NoChance, Checked, Checked-Merging, Checked-Trusts,
}

abbrev one_edge : EdgeSet
one_edge s d = s == 0 && d == 1

-- Whether an index is one of the edge.
abbrev is_edge : ℕ → Bool
is_edge x = let e = inv_concat_pairing_fn x in one_edge (low_of e.src e.dst) (high_of e.src e.dst)

-- A checksum that is right for the one edge only.
abbrev hashes : Hashes
hashes = record {
  vec_hash = λ x seed. if is_edge x then 1 else 2;
  col_hash = λ x seed. x + seed;
  hash_bytes = 4;
}

abbrev EdgeSum : Bucket → Type 0
EdgeSum = Sum hashes Algorithm.cube one_edge 5 4

index_of_edge : (x : ℕ) → is_edge x ≡ true → get_index_hash hashes x 5 ≡ 1
unfolding get_index_hash
index_of_edge x e = rw e refl

xor_one : (a : ℕ) → a < 2 → bit_xor a 1 < 2
xor_one zero h = omega arith
xor_one (suc zero) h = omega arith
xor_one (suc (suc a)) h = absurd (omega arith)

small_sum : (b : Bucket) → EdgeSum b → b.gamma < 2
unfolding ◌⊕◌
small_sum b no_edge = omega arith
small_sum b (with_edge b' x e s) =
    subst (λ h. bit_xor b'.gamma h < 2) (sym (index_of_edge x e.there))
      (xor_one b'.gamma (small_sum b' s))

edge_ends : (x : ℕ) → is_edge x ≡ true → EdgeOf one_edge 4 (inv_concat_pairing_fn x)
unfolding low_of high_of
edge_ends x h = record { src_vertex = ground arith; dst_vertex = ground arith; there = h }

no_chance : NoChance hashes Algorithm.cube one_edge 5 4
unfolding is_good get_index_hash
no_chance b s good = edge_ends b.alpha (elim (Bool-cases (is_edge b.alpha)) [
  | inl e ↦ e
  | inr e ↦ absurd (
      omega (
        arith,
        small_sum b s,
        ==→eq b.gamma 2 (ap (λ t. b.gamma == (if t then 1 else 2)) (sym e) ∙ good),
      ))
])

-- Three vertices of one root, which both threads share, and one of its own.
abbrev instrs : List MergeInstr
instrs =
    record { root = 1; child = 0 }
    ∷ record { root = 1; child = 1 }
    ∷ record { root = 1; child = 2 }
    ∷ record { root = 3; child = 3 }
    ∷ []

at_most_three : (i : ℕ) → (instr_at instrs i).root ≤ 3
at_most_three zero = omega arith
at_most_three (suc zero) = omega arith
at_most_three (suc (suc zero)) = omega arith
at_most_three (suc (suc (suc zero))) = omega arith
at_most_three (suc (suc (suc (suc i)))) = omega arith

instrs-Plan : Plan 4 2 instrs
instrs-Plan = record {
  vertices = refl;
  counted = omega arith;
  sorted = sorted;
  children = children;
  filled = filled;
  inside = inside;
  found = found;
}
  where
    sorted : (i j : ℕ) → i ≤ j → j < 4 → (instr_at instrs i).root ≤ (instr_at instrs j).root
    sorted zero zero h h' = omega arith
    sorted (suc i) zero h h' = absurd (omega arith)
    sorted zero (suc zero) h h' = omega arith
    sorted (suc zero) (suc zero) h h' = omega arith
    sorted (suc (suc i)) (suc zero) h h' = absurd (omega arith)
    sorted zero (suc (suc zero)) h h' = omega arith
    sorted (suc zero) (suc (suc zero)) h h' = omega arith
    sorted (suc (suc zero)) (suc (suc zero)) h h' = omega arith
    sorted (suc (suc (suc i))) (suc (suc zero)) h h' = absurd (omega arith)
    sorted i (suc (suc (suc zero))) h h' = at_most_three i
    sorted i (suc (suc (suc (suc j)))) h h' = absurd (omega arith)

    children : (i : ℕ) → (instr_at instrs i).child < 4
    children zero = omega arith
    children (suc zero) = omega arith
    children (suc (suc zero)) = omega arith
    children (suc (suc (suc zero))) = omega arith
    children (suc (suc (suc (suc i)))) = omega arith

    filled : (i : ℕ) → i < 2 → (get_ith_partition 4 i 2).0 < (get_ith_partition 4 i 2).1
    filled zero h = rw (halves.0) (omega arith)
    filled (suc zero) h = rw (halves.1) (omega arith)
    filled (suc (suc i)) h = absurd (omega arith)

    inside : (i : ℕ) → i < 2 → (get_ith_partition 4 i 2).1 ≤ 4
    inside zero h = rw (halves.0) (omega arith)
    inside (suc zero) h = rw (halves.1) (omega arith)
    inside (suc (suc i)) h = absurd (omega arith)

    found : (j : ℕ) → j < 4 → get_partition_idx 4 j 2 < 2
    found zero h = rw (half_of.0) (omega arith)
    found (suc zero) h = rw (half_of.1) (omega arith)
    found (suc (suc zero)) h = rw (half_of.2) (omega arith)
    found (suc (suc (suc zero))) h = rw (half_of.3) (omega arith)
    found (suc (suc (suc (suc j)))) h = absurd (omega arith)

abbrev query_start : CcSketchAlg
query_start = new_cc Algorithm.cube 4 5 2 (7 ∷ 9 ∷ 8 ∷ 6 ∷ [])

abbrev blank : Sketch
blank = empty_sketch hashes Algorithm.cube query_start

-- A sketch of the edge, in its deterministic bucket.
abbrev edge_sketch : Sketch
edge_sketch = record blank {
  buckets =
      modify blank.buckets (blank.num_buckets - 1)
        (λ b. b ⊕ record { alpha = 1; gamma = get_index_hash hashes 1 5 });
}

abbrev EdgeChecked : ℕ → Sketch → Type 0
EdgeChecked = Checked hashes Algorithm.cube one_edge 5 4

blank_sums : (j : ℕ) → EdgeSum (bucket_at blank j)
unfolding vertex_sketch new_cc
blank_sums j =
    subst EdgeSum
      (sym (
        bucket_at-new_sketch (calc_vector_length 4) 5 2 (default_cols_per_sample Algorithm.cube) j))
      no_edge

blank_seed : blank.seed ≡ 5
unfolding vertex_sketch new_cc
blank_seed = seed-new_sketch (calc_vector_length 4) 5 2 (default_cols_per_sample Algorithm.cube)

blank_Checked : EdgeChecked 4 blank
blank_Checked = record { vertices = refl; seeded = blank_seed; sums = blank_sums }

one_is_edge : is_edge 1 ≡ true
unfolding inv_concat_pairing_fn low_of high_of
one_is_edge = refl

edge_Checked : EdgeChecked 4 edge_sketch
edge_Checked = record {
  vertices = refl;
  seeded = blank_seed;
  sums =
      modify-All EdgeSum blank.buckets (blank.num_buckets - 1)
        (λ b. b ⊕ record { alpha = 1; gamma = get_index_hash hashes 1 5 }) empty_bucket
        (λ b s. with_edge b 1 (edge_ends 1 one_is_edge) s) blank_sums;
}

-- After the first lines of `boruvka_emulation`.
abbrev begun : CcSketchAlg
begun =
    start_boruvka (record query_start { sketches = edge_sketch ∷ edge_sketch ∷ blank ∷ blank ∷ [] })

abbrev trust : Trusts hashes Algorithm.cube one_edge EdgeChecked
trust = Checked-Trusts hashes Algorithm.cube one_edge 5 4 no_chance

four : query_start.num_vertices ≡ 4
unfolding new_cc
four = refl

items : query_start.dsu.n ≡ 4
unfolding new_cc
items = n-new_dsu (7 ∷ 9 ∷ 8 ∷ 6 ∷ []) 4

begun_Sound : Sound hashes Algorithm.cube one_edge EdgeChecked trust begun
begun_Sound =
    start-Sound hashes Algorithm.cube one_edge EdgeChecked trust
      (record query_start { sketches = edge_sketch ∷ edge_sketch ∷ blank ∷ blank ∷ [] })
      (items ∙ sym four) (sym four)
      (subst (λ n. Each (EdgeChecked n) (edge_sketch ∷ edge_sketch ∷ blank ∷ blank ∷ [])) (sym four)
        (each _ _ edge_Checked
          (each _ _ edge_Checked (each _ _ blank_Checked (each _ _ blank_Checked no_more)))))

abbrev globals : List GlobalMergeData
globals = new_global blank ∷ new_global blank ∷ []

abbrev schedule : List (ℕ × List Bool)
schedule = (1, []) ∷ (0, []) ∷ (1, true ∷ []) ∷ (0, []) ∷ []

-- A later round with two threads, in the steps of the schedule.
round_of_two_threads :
    Returns
      (SharedOk hashes Algorithm.cube one_edge EdgeChecked trust
        (Checked-Merging hashes Algorithm.cube one_edge 5 4)
        4
        2
        instrs
        instrs-Plan)
      (perform_boruvka_round hashes Algorithm.cube 2 1 instrs globals begun schedule)
unfolding new_global
round_of_two_threads =
    perform_boruvka_round_lem hashes Algorithm.cube one_edge EdgeChecked trust
      (Checked-Merging hashes Algorithm.cube one_edge 5 4) 4 2 instrs instrs-Plan 1 begun globals
      schedule begun_Sound (start_boruvka-num_vertices _ ∙ four)
      (subst (EdgeChecked 4) (sym (start_boruvka-empty_sketch hashes Algorithm.cube _))
        blank_Checked)
      refl globals_Checked visits
  where
    globals_Checked : Each (λ (m : GlobalMergeData). EdgeChecked 4 m.sketch) globals
    globals_Checked = each _ _ blank_Checked (each _ _ blank_Checked no_more)

    visits : Each (λ (p : ℕ × List Bool). p.0 < 4) schedule
    visits =
        each _ _ (omega arith)
          (each _ _ (omega arith) (each _ _ (omega arith) (each _ _ (omega arith) no_more)))
