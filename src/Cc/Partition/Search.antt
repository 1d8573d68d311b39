-- ===== src/Cc/Partition/Search.antt =====
-- The binary search of `find_last_partition_of_root` (src/cc_sketch_alg.cpp) finds the last
-- instruction of a root.
use graph_streaming_cc.Prelude.{
  ℕ, zero, suc, ◌+◌, ◌-◌, ◌/◌, ◌%◌, ◌^◌, ◌≤◌, ◌<◌, ◌≡◌, ◌⊎◌, refl, ap, ◌∙◌, inl, inr, ⊎_elim, arith,
  true, false, ltb, ◌==◌, if◌then◌else◌, List, length, Bool-cases, eq-or-ne, eq→==, ne→==-false,
  lt→ltb, le→ltb-false, ltb→lt, ltb-false→le,
}
use graph_streaming_cc.Cc.Partition.{
  MergeInstr, instr_less, instr_at, search_loop, last_of_root, find_last_partition_of_root,
  get_partition_idx,
}

-- Instructions in the order of their roots, of which `last` is the last one of `root`; their
-- number and their children are those of a graph whose vertices are 32-bit numbers.
pub record LastOf (instrs : List MergeInstr) (root last : ℕ) : Type 0 where
  pub inside : last < length instrs
  pub own : (instr_at instrs last).root ≡ root
  pub up_to : (i : ℕ) → i ≤ last → (instr_at instrs i).root ≤ root
  pub after : (i : ℕ) → last < i → i < length instrs → root < (instr_at instrs i).root
  pub counted : length instrs < 2 ^ 32
  pub vertices : (i : ℕ) → (instr_at instrs i).child < 2 ^ 32 - 1

module _ (instrs : List MergeInstr) (root last : ℕ) (l : LastOf instrs root last) where
  abbrev target : MergeInstr
  target = record { root = root; child = 2 ^ 32 - 1 }

  less_up_to : (i : ℕ) → i ≤ last → instr_less (instr_at instrs i) target ≡ true
  unfolding instr_less
  less_up_to i h = elim (eq-or-ne (instr_at instrs i).root root) [
    | inl e ↦
        rw (eq→== (instr_at instrs i).root root e)
          (lt→ltb (instr_at instrs i).child (2 ^ 32 - 1) (l.vertices i))
    | inr ne ↦
        rw (ne→==-false (instr_at instrs i).root root ne)
          (lt→ltb (instr_at instrs i).root root (omega (arith, l.up_to i h, ne)))
  ]

  not_less_after :
      (i : ℕ) → last < i → i < length instrs → instr_less (instr_at instrs i) target ≡ false
  unfolding instr_less
  not_less_after i h h' =
      rw (ne→==-false (instr_at instrs i).root root (omega (arith, l.after i h h')))
        (le→ltb-false (instr_at instrs i).root root (omega (arith, l.after i h h')))

  -- Where the loop ends: one past the last of the root, or at the end of the list.
  abbrev Ends : ℕ → Type 0
  Ends t = ((t ≡ last + 1) × (t < length instrs)) ⊎ ((t ≡ last) × (last + 1 ≡ length instrs))

  loop-Ends :
      (t : ℕ)
      → Ends t
      → (fuel min max : ℕ) → max < length instrs
      → max - min ≤ fuel
      → min ≤ t
      → t ≤ max
      → search_loop fuel instrs target min max ≡ t
  unfolding search_loop
  loop-Ends t ends zero min max h enough low high = omega arith
  loop-Ends t ends (suc fuel) min max h enough low high = elim (Bool-cases (ltb min max)) [
    | inr stops ↦ rw stops (omega (arith, ltb-false→le min max stops))
    | inl goes ↦
        let mid = min + (max - min) / 2 in
        let apart = ltb→lt min max goes in
        elim (split mid) [
          | inl below ↦
              rw (goes, less_up_to mid below)
                (loop-Ends t ends fuel (mid + 1) max h (omega arith)
                  (⊎_elim (λ c. omega (arith, c.0)) (λ c. omega (arith, c.0, c.1)) ends) high)
          | inr above ↦
              rw (goes, not_less_after mid above (omega arith))
                (loop-Ends t ends fuel min mid (omega arith) (omega arith) low
                  (⊎_elim (λ c. omega (arith, c.0)) (λ c. omega (arith, c.0, c.1)) ends))
        ]
  ]
    where
      split : (i : ℕ) → (i ≤ last) ⊎ (last < i)
      split i = omega arith

  -- The test of the root that was found.
  abbrev settled : ℕ → ℕ
  settled m = if (instr_at instrs m).root == root then m else (m + 2 ^ 32 - 1) % 2 ^ 32

  settled_lem : (m : ℕ) → Ends m → settled m ≡ last
  settled_lem m (inl (past, inside)) =
      rw
        (ne→==-false (instr_at instrs m).root root
          (omega (arith, l.after m (omega (arith, past)) inside)))
        (omega (arith, past, inside, l.counted))
  settled_lem m (inr (at_last, _)) =
      rw (eq→== (instr_at instrs m).root root (ap (λ k. (instr_at instrs k).root) at_last ∙ l.own))
        at_last

  last_of_root_lem :
      (min_hint t : ℕ) → min_hint ≤ last → Ends t → last_of_root instrs root min_hint ≡ last
  unfolding last_of_root
  last_of_root_lem min_hint t hint ends =
      let bound : (last ≤ t) × (t < length instrs) =
        ⊎_elim (λ c. (omega (arith, c.0), c.1)) (λ c. (omega (arith, c.0), omega (arith, c.0, c.1)))
          ends in
      ap settled (
        loop-Ends t ends (length instrs) min_hint (length instrs - 1) (omega (arith, l.inside))
          (omega arith) (omega (arith, bound.0)) (omega (arith, bound.1)))
      ∙ settled_lem t ends

  pub find_last_partition_of_root_lem :
      (min_hint num_threads : ℕ)
      → min_hint ≤ last
      → find_last_partition_of_root instrs root min_hint num_threads
        ≡ get_partition_idx (length instrs) last num_threads % 2 ^ 32
  unfolding find_last_partition_of_root
  find_last_partition_of_root_lem min_hint num_threads hint =
      ap (λ i. get_partition_idx (length instrs) i num_threads % 2 ^ 32)
        (elim (Bool-cases (ltb (last + 1) (length instrs))) [
          | inl more ↦
              last_of_root_lem min_hint (last + 1) hint
                (inl (refl, ltb→lt (last + 1) (length instrs) more))
          | inr end ↦
              last_of_root_lem min_hint last hint
                (inr (refl, omega (arith, l.inside, ltb-false→le (last + 1) (length instrs) end)))
        ])
