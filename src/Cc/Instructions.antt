-- ===== src/Cc/Instructions.antt =====
-- `CCSketchAlg::create_merge_instructions` of src/cc_sketch_alg.cpp. Its barriers cut it into phases;
-- within a phase the threads touch different memory, except for the claims of room in `cc_prefix`,
-- which are atomic, and for `find_root`, which changes no root.
pub mod Tests
use graph_streaming_cc.Prelude.{
  ◌>>=◌, ℕ, zero, suc, ◌+◌, ◌-◌, ◌%◌, ◌^◌, Bool, ltb, ◌==◌, if◌then◌else◌, Option, none, some, List,
  [], ◌∷◌, ◌++◌, foldl, get_or, set, modify, map, length, replicate, range_from,
}
use mathlib.Core.Option
use graph_streaming_cc.Dsu.{Dsu, find_root}
use graph_streaming_cc.Cc.Partition.{MergeInstr, instr_at, get_ith_partition}

-- An entry of `local_ccs`.
pub record LocalCc : Type 0 where
  pub root : ℕ
  pub vertices : List ℕ

-- An entry of `local_ccs` and the one of `local_cc_idx` in its place.
pub record Claim : Type 0 where
  pub cc : LocalCc
  pub idx : ℕ

-- A thread that claims room: what its loop over `local_ccs` has before it and behind it.
pub record Claimant : Type 0 where
  pub ahead : List LocalCc
  pub claims : List Claim

-- `local_ccs[root].push_back(child)`
pub add_child : List LocalCc → (root child : ℕ) → List LocalCc
add_child [] root child = record { root = root; vertices = child ∷ [] } ∷ []
add_child (cc ∷ ccs) root child =
    let rest = add_child ccs root child in
    if cc.root == root
    then record { root = root; vertices = cc.vertices ++ (child ∷ []) } ∷ ccs
    else cc ∷ rest

-- The loop of one thread over the indices of its range. `none` is a read out of bounds.
pub collect_ccs : List MergeInstr → Dsu → List LocalCc → List ℕ → Option (Dsu × List LocalCc)
unfolding add_child
collect_ccs merge_instr d local_ccs [] = some (d, local_ccs)
collect_ccs merge_instr d local_ccs (i ∷ is) =
    let child = (instr_at merge_instr i).child in
    if ltb i (length merge_instr)
    then (if ltb child d.n then find_root d child else none)
      >>= (λ found. collect_ccs merge_instr found.0 (add_child local_ccs found.1 child) is)
    else none

-- The indices of a thread's range.
pub range_of : ℕ → (num_threads thr_id : ℕ) → List ℕ
range_of num_vertices num_threads thr_id =
    let partition = get_ith_partition num_vertices thr_id num_threads in
    range_from partition.0 (partition.1 - partition.0)

-- All threads. `iterate` is the order in which a hash map lists its entries.
pub collect_all :
    (List LocalCc → List LocalCc)
    → List MergeInstr
    → (num_vertices num_threads : ℕ) → Dsu
    → List ℕ
    → Option (Dsu × List Claimant)
unfolding collect_ccs range_of
collect_all iterate merge_instr num_vertices num_threads d [] = some (d, [])
collect_all iterate merge_instr num_vertices num_threads d (thr ∷ thrs) = do
  p ← collect_ccs merge_instr d [] (range_of num_vertices num_threads thr)
  Option.map (λ (q : Dsu × List Claimant). (q.0, record { ahead = iterate p.1; claims = [] } ∷ q.1))
      (collect_all iterate merge_instr num_vertices num_threads p.0 thrs)

-- The atomic capture, in 32 bits: the place that a component gets, after which the next one starts.
pub claim_next : List ℕ → List Claim → List LocalCc → List ℕ × Claimant
claim_next cc_prefix claims [] = (cc_prefix, record { ahead = []; claims = claims })
claim_next cc_prefix claims (cc ∷ ccs) = (
  modify cc_prefix cc.root (λ x. (x + length cc.vertices) % 2 ^ 32),
  record {
    ahead = ccs;
    claims = claims ++ (record { cc = cc; idx = get_or cc_prefix cc.root 0 } ∷ []);
  },
)

pub claim : List ℕ → Claimant → List ℕ × Claimant
unfolding claim_next
claim cc_prefix t = claim_next cc_prefix t.claims t.ahead

-- The claim of the thread in place `i`.
pub claim_at : List ℕ → List Claimant → ℕ → List ℕ × List Claimant
unfolding claim
claim_at cc_prefix [] i = (cc_prefix, [])
claim_at cc_prefix (t ∷ ts) zero = let p = claim cc_prefix t in (p.0, p.1 ∷ ts)
claim_at cc_prefix (t ∷ ts) (suc i) = let p = claim_at cc_prefix ts i in (p.0, t ∷ p.1)

pub claims_in_order : List ℕ → List ℕ × List Claimant → List ℕ × List Claimant
unfolding claim_at
claims_in_order order p = foldl (λ q i. claim_at q.0 q.1 i) p order

-- The order of the claims, and then those that it leaves out.
pub left_over : ℕ → List Claimant → List ℕ
left_over i [] = []
left_over i (t ∷ ts) = map (λ _. i) t.ahead ++ left_over (suc i) ts

pub all_claims : List ℕ → List ℕ → List Claimant → List ℕ × List Claimant
unfolding claims_in_order left_over
all_claims order cc_prefix ts =
    let p = claims_in_order order (cc_prefix, ts) in claims_in_order (left_over 0 p.1) p

-- `cc_prefix[i] += cc_prefix[i-1]` from the second index of a range on.
pub prefix_range : List ℕ → List ℕ → List ℕ
prefix_range cc_prefix is =
    foldl (λ xs i. modify xs i (λ x. (x + get_or xs (i - 1) 0) % 2 ^ 32)) cc_prefix is

pub rest_of_range : ℕ → (num_threads thr_id : ℕ) → List ℕ
rest_of_range num_vertices num_threads thr_id =
    let partition = get_ith_partition num_vertices thr_id num_threads in
    range_from (partition.0 + 1) (partition.1 - (partition.0 + 1))

-- `range_sums`, of which the first entry is 0; `sums` is read from its last entry.
pub next_range_sum : ℕ → ℕ → List ℕ → List ℕ → ℕ → List ℕ
next_range_sum num_vertices num_threads cc_prefix sums t =
    let cur = (get_ith_partition num_vertices (t - 1) num_threads).1 - 1 in
    sums ++ (((get_or cc_prefix cur 0 + get_or sums (t - 1) 0) % 2 ^ 32) ∷ [])

pub range_sums : (num_vertices num_threads : ℕ) → List ℕ → List ℕ
unfolding next_range_sum
range_sums num_vertices num_threads cc_prefix =
    foldl (next_range_sum num_vertices num_threads cc_prefix) (0 ∷ [])
      (range_from 1 (num_threads - 1))

-- `cc_prefix[i] += range_sums[thr_id]`
pub add_range_sum : (num_vertices num_threads : ℕ) → List ℕ → List ℕ → ℕ → List ℕ
unfolding range_of
add_range_sum num_vertices num_threads sums cc_prefix thr_id =
    foldl (λ xs i. modify xs i (λ x. (x + get_or sums thr_id 0) % 2 ^ 32)) cc_prefix
      (range_of num_vertices num_threads thr_id)

-- The phases on `cc_prefix` after the claims.
pub finish_prefix : (num_vertices num_threads : ℕ) → List ℕ → List ℕ
unfolding prefix_range rest_of_range range_sums add_range_sum
finish_prefix num_vertices num_threads cc_prefix =
    let summed =
      foldl (λ xs thr. prefix_range xs (rest_of_range num_vertices num_threads thr)) cc_prefix
        (range_from 0 num_threads) in
    foldl (add_range_sum num_vertices num_threads (range_sums num_vertices num_threads summed))
      summed (range_from 1 (num_threads - 1))

-- The vertices of a component, from their place on.
pub write_vertices : ℕ → ℕ → List ℕ → List MergeInstr → Option (List MergeInstr)
write_vertices root place [] merge_instr = some merge_instr
write_vertices root place (v ∷ vs) merge_instr =
    if ltb place (length merge_instr)
    then write_vertices root (suc place) vs
        (set merge_instr place (record { root = root; child = v }))
    else none

pub write_claims : List ℕ → List Claim → List MergeInstr → Option (List MergeInstr)
unfolding write_vertices
write_claims cc_prefix [] merge_instr = some merge_instr
write_claims cc_prefix (c ∷ cs) merge_instr =
    let before = if ltb 0 c.cc.root then get_or cc_prefix (c.cc.root - 1) 0 else 0 in
    write_vertices c.cc.root ((c.idx + before) % 2 ^ 32) c.cc.vertices merge_instr
    >>= write_claims cc_prefix cs

pub claims_of : List Claimant → List Claim
claims_of [] = []
claims_of (t ∷ ts) = t.claims ++ claims_of ts

-- `create_merge_instructions`, with the disjoint sets that its calls of `find_root` leave.
pub create_merge_instructions :
    (List LocalCc → List LocalCc)
    → (num_threads : ℕ) → List ℕ
    → (num_vertices : ℕ) → Dsu
    → List MergeInstr
    → Option (Dsu × List MergeInstr)
unfolding collect_all all_claims finish_prefix write_claims claims_of
create_merge_instructions iterate num_threads order num_vertices d merge_instr = do
  collected ← collect_all iterate merge_instr num_vertices num_threads d (range_from 0 num_threads)
  let claimed = all_claims order (replicate num_vertices 0) collected.1 in
      Option.map (λ instrs. (collected.0, instrs))
        (write_claims (finish_prefix num_vertices num_threads claimed.0) (claims_of claimed.1)
          merge_instr)
