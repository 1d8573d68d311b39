-- ===== src/Dsu.antt =====
-- include/dsu.h: disjoint sets as a forest of parent pointers, with random priorities. The priority
-- of each item, which the constructor draws from `std::mt19937_64`, is an argument.
pub mod Tests
pub mod Order
pub mod Forest
pub mod Find
pub mod Link
pub mod Sets
pub mod Merge
pub mod Copies
use graph_streaming_cc.Prelude.{
  ◌>>=◌, ℕ, zero, suc, ◌+◌, Bool, true, false, ◌&&◌, ◌||◌, ltb, ◌==◌, if◌then◌else◌, Option, none,
  some, List, [], ◌∷◌, map, get_or, set, range_from,
}

-- `DSUMergeRet`
pub record DsuMergeRet : Type 0 where
  pub merged : Bool
  pub root : ℕ
  pub child : ℕ

pub record Dsu : Type 0 where
  pub n : ℕ
  pub parent : List ℕ
  pub priority : List ℕ

-- No index out of range is read; one would be its own parent.
abbrev pub at : List ℕ → ℕ → ℕ
at p u = get_or p u u

-- The test that both swaps of `order_edge` amount to: whether a is the root of the two.
abbrev pub outranks : List ℕ → ℕ → ℕ → Bool
outranks prio a b =
    ltb (get_or prio b 0) (get_or prio a 0) || (get_or prio a 0 == get_or prio b 0 && ltb a b)

abbrev pub swap_if : Bool → ℕ × ℕ → ℕ × ℕ
swap_if true (a, b) = (b, a)
swap_if false (a, b) = (a, b)

-- The root first, then its new child.
unfoldable pub order_edge : List ℕ → ℕ → ℕ → ℕ × ℕ
order_edge prio a b =
    let (a', b') = swap_if (get_or prio a 0 == get_or prio b 0 && ltb b a) (a, b) in
    swap_if (ltb (get_or prio a' 0) (get_or prio b' 0)) (a', b')

-- The constructor, on `n` drawn priorities.
unfoldable pub new_dsu : List ℕ → ℕ → Dsu
new_dsu prio n = record { n = n; parent = range_from 0 n; priority = prio }

unfoldable pub reset : Dsu → Dsu
reset d = record d { parent = range_from 0 d.n }

-- The copy constructor.
pub copy_dsu : Dsu → Dsu
copy_dsu oth = record {
  n = oth.n;
  parent = map (λ i. get_or oth.parent i 0) (range_from 0 oth.n);
  priority = map (λ i. get_or oth.priority i 0) (range_from 0 oth.n);
}

-- The move constructor of `DisjointSetUnion`: the new object, and what the old one is then.
pub move_dsu : Dsu → Dsu × Dsu
move_dsu oth = (oth, record { n = 0; parent = []; priority = [] })

-- The loop of `find_root`, with fuel; it halves the path that it climbs.
unfoldable pub find_loop : ℕ → List ℕ → ℕ → Option (List ℕ × ℕ)
find_loop zero p u = none
find_loop (suc fuel) p u =
    let halved = set p u (at p (at p u)) in
    let rest = find_loop fuel halved (at halved u) in
    if at p (at p u) == at p u then some (p, at p u) else rest

-- There are `n` items, so a path has fewer than `n` steps.
unfoldable pub find_root : Dsu → ℕ → Option (Dsu × ℕ)
find_root d u = do (p, r) ← find_loop (suc d.n) d.parent u; some (record d { parent = p }, r)

abbrev not_merged : DsuMergeRet
not_merged = record { merged = false; root = 0; child = 0 }

-- `parent[b] = a` for the ordered pair.
pub link : Dsu → ℕ × ℕ → Dsu × DsuMergeRet
link d (a, b) =
    (record d { parent = set d.parent b a }, record { merged = true; root = a; child = b })

-- `DisjointSetUnion::merge`
pub merge : Dsu → ℕ → ℕ → Option (Dsu × DsuMergeRet)
unfolding link
merge d u v = do
  (d', a) ← find_root d u
  (d'', b) ← find_root d' v
  some (if a == b then (d'', not_merged) else link d'' (order_edge d.priority a b))

-- `DisjointSetUnion_MT::merge`, run by one thread. `compare_exchange_weak` may fail though the
-- value is as expected; the list says which of the next attempts do, and any later one succeeds.
unfoldable pub merge_mt : List Bool → Dsu → ℕ → ℕ → Option (Dsu × DsuMergeRet)
unfolding link
merge_mt [] d u v = do
  (d', a) ← find_root d u
  (d'', b) ← find_root d' v
  some (if a == b then (d'', not_merged) else link d'' (order_edge d.priority a b))
merge_mt (failed ∷ later) d u v = do
  (d', a) ← find_root d u
  (d'', b) ← find_root d' v
  let ordered = order_edge d.priority a b
  let again = merge_mt later d'' ordered.0 ordered.1
  if a == b then some (d'', not_merged) else if failed then again else some (link d'' ordered)
