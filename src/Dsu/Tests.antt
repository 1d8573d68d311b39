-- ===== src/Dsu/Tests.antt =====
-- Runs of the disjoint sets of include/dsu.h on three items.
use graph_streaming_cc.Prelude.{ℕ, ◌<◌, ◌≡◌, refl, true, some, List, [], ◌∷◌, arith}
use graph_streaming_cc.Dsu.{
  Dsu, DsuMergeRet, new_dsu, merge_mt, merge, find_root, find_loop, order_edge,
}
use graph_streaming_cc.Dsu.Sets.{IsDsu, HasRoot, KeepsRoots, find_root_lem, new_dsu_lem}
use graph_streaming_cc.Dsu.Merge.{Merged}
use graph_streaming_cc.Dsu.Merge.Calls.{merge_lem}
use graph_streaming_cc.Dsu.Merge.Weak.{merge_mt_lem}

abbrev priorities : List ℕ
priorities = 7 ∷ 9 ∷ 8 ∷ []

abbrev three : Dsu
three = record { n = 3; parent = 0 ∷ 1 ∷ 2 ∷ []; priority = priorities }

three-IsDsu : IsDsu three
unfolding new_dsu
three-IsDsu = new_dsu_lem priorities 3

merge_runs :
    merge three 0 2
    ≡ some (
      record { n = 3; parent = 2 ∷ 1 ∷ 2 ∷ []; priority = priorities },
      record { merged = true; root = 2; child = 0 },
    )
unfolding merge find_root find_loop order_edge
merge_runs = refl

find_root_lem_example :
    (e : Dsu) × (r : ℕ) × (find_root three 1 ≡ some (e, r))
    × KeepsRoots three e
    × HasRoot three r 1
    × (r < 3)
find_root_lem_example = find_root_lem three 1 three-IsDsu (omega arith)

merge_lem_example :
    (e : Dsu) × (ret : DsuMergeRet) × (merge three 0 2 ≡ some (e, ret)) × Merged three 0 2 e ret
merge_lem_example = merge_lem three 0 2 three-IsDsu (omega arith) (omega arith)

-- Two attempts that fail without a cause.
merge_mt_lem_example :
    (e : Dsu) × (ret : DsuMergeRet) × (merge_mt (true ∷ true ∷ []) three 0 2 ≡ some (e, ret))
    × Merged three 0 2 e ret
merge_mt_lem_example =
    merge_mt_lem (true ∷ true ∷ []) three 0 2 three-IsDsu (omega arith) (omega arith)
