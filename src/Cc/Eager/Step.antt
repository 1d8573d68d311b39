-- ===== src/Cc/Eager/Step.antt =====
-- One call of `CCSketchAlg::pre_insert` on a forest that tracks the graph.
use graph_streaming_cc.Prelude.{
  ℕ, ◌<◌, ◌≡◌, ◌≢◌, sym, ap, ◌∙◌, inl, inr, arith, true, false, not, List, ◌∷◌, length, Bool-cases,
}
use graph_streaming_cc.Util.{Edge, low_of, high_of}
use graph_streaming_cc.Graph.{
  EdgeSet, present, present-cons, Linked, hit-or-miss, toggle-hit, Linked_trans, Linked_sym,
  Linked_mono, one_edge, low_le_high, low_of_lt, high_of_lt,
}
use graph_streaming_cc.Dsu.{Dsu, DsuMergeRet}
use graph_streaming_cc.Dsu.Sets.{SameSet, own, SameSet-stable}
use graph_streaming_cc.Dsu.Merge.{Merged}
use graph_streaming_cc.Cc.{CcSketchAlg, contains, forest_at, record_edge}
use graph_streaming_cc.Cc.Stored.{
  in_forest, with_edge, length-with_edge, with_edge_self, with_edge_old, with_edge_cases,
}
use graph_streaming_cc.Cc.Eager.{Tracks}

module _ (edges : List Edge) (e : Edge) (c : CcSketchAlg) (t : Tracks edges c) (d : Dsu)
    (ret : DsuMergeRet) (hs : e.src < c.num_vertices) (hd : e.dst < c.num_vertices)
    (m : Merged c.dsu (low_of e.src e.dst) (high_of e.src e.dst) d ret) where
  abbrev u : ℕ
  u = low_of e.src e.dst

  abbrev v : ℕ
  v = high_of e.src e.dst

  in_dsu : (x : ℕ) → x < c.num_vertices → x < c.dsu.n
  in_dsu x h = rw t.items h

  low_item : u < c.num_vertices
  low_item = low_of_lt e.src e.dst c.num_vertices hs hd

  high_item : v < c.num_vertices
  high_item = high_of_lt e.src e.dst c.num_vertices hs hd

  ends_joined : SameSet d u v
  ends_joined = (m.joins u v (in_dsu u low_item) (in_dsu v high_item)).1 (
      inr
        (inl (own c.dsu u t.forest (in_dsu u low_item), own c.dsu v t.forest (in_dsu v high_item))))

  kept : (x y : ℕ) → x < c.num_vertices → y < c.num_vertices → SameSet c.dsu x y → SameSet d x y
  kept x y hx hy s = (m.joins x y (in_dsu x hx) (in_dsu y hy)).1 (inl s)

  covers_after :
      (a b : ℕ)
      → present (e ∷ edges) a b ≡ true
      → (a < c.num_vertices) × (b < c.num_vertices) × SameSet d a b
  covers_after a b h = elim (hit-or-miss u v a b (present edges)) [
    | inl (p, q) ↦ (rw p low_item, rw q high_item, rw (p, q) ends_joined)
    | inr (_, same) ↦
        let (ha, hb, s) = t.covers a b (sym same ∙ sym (present-cons e edges a b) ∙ h) in
        (ha, hb, kept a b ha hb s)
  ]

  stays :
      (a b : ℕ) → ¬ ((a ≡ u) × (b ≡ v)) → present edges a b ≡ true → present (e ∷ edges) a b ≡ true
  stays a b miss h = elim (hit-or-miss u v a b (present edges)) [
    | inl hit ↦ absurd (miss hit)
    | inr (_, same) ↦ present-cons e edges a b ∙ same ∙ h
  ]

  -- What the joined sets are linked by.
  spans_by :
      (g : EdgeSet)
      → ((a b : ℕ) → in_forest c a b ≡ true → g a b ≡ true)
      → Linked g u v
      → (x y : ℕ) → x < c.num_vertices
      → y < c.num_vertices
      → SameSet d x y
      → Linked g x y
  spans_by g more link x y hx hy s = elim ((m.joins x y (in_dsu x hx) (in_dsu y hy)).0 s) [
    | inl same ↦ old x y hx hy same
    | inr (inl (p, q)) ↦
        Linked_trans (old x u hx low_item p)
          (Linked_trans link (Linked_sym (old y v hy high_item q)))
    | inr (inr (p, q)) ↦
        Linked_trans (old x v hx high_item p)
          (Linked_trans (Linked_sym link) (Linked_sym (old y u hy low_item q)))
  ]
    where
      old : (x y : ℕ) → x < c.num_vertices → y < c.num_vertices → SameSet c.dsu x y → Linked g x y
      old x y hx hy s = Linked_mono more (t.spans x y hx hy s)

  -- The end of an edge that joins nothing.
  not_in_forest :
      ret.merged ≡ false
      → contains (forest_at c u) v ≡ false
      → Tracks (e ∷ edges) (record c { dsu = d })
  not_in_forest unmerged outside = record {
    items = m.items ∙ t.items;
    sized = t.sized;
    forest = m.forest;
    stored = λ a b h.
        stays a b
          (λ hit. true≢false (
            sym h
            ∙ ap (λ z. contains (forest_at c z) b) hit.0
            ∙ ap (contains (forest_at c u)) hit.1
            ∙ outside))
          (t.stored a b h);
    covers = covers_after;
    spans = spans_by (in_forest c) (λ a b h. h) linked;
  }
    where
      true≢false : true ≢ false
      true≢false h = cc

      linked : Linked (in_forest c) u v
      linked = t.spans u v low_item high_item (
          SameSet-stable c.dsu u v t.forest (in_dsu u low_item) (in_dsu v high_item)
            (λ n. true≢false (sym (m.reports.1 n) ∙ unmerged)))

  abbrev grown : CcSketchAlg
  grown = record c { dsu = d; spanning_forest = with_edge c u v }

  stored_item : u < length c.spanning_forest
  stored_item = rw t.sized low_item

  -- An edge that joins two sets is new, and goes into the forest.
  in_forest_now : ret.merged ≡ true → Tracks (e ∷ edges) grown
  in_forest_now joined = record {
    items = m.items ∙ t.items;
    sized = length-with_edge c u v ∙ t.sized;
    forest = m.forest;
    stored = λ a b h. elim (hit-or-miss u v a b (present edges)) [
      | inl (p, q) ↦
          ap (λ z. present (e ∷ edges) z b) p
          ∙ ap (present (e ∷ edges) u) q
          ∙ present-cons e edges u v
          ∙ toggle-hit u v (present edges)
          ∙ ap not absent
      | inr (miss, same) ↦ elim (with_edge_cases c u v stored_item a b h) [
        | inl hit ↦ absurd (miss hit)
        | inr old ↦ stays a b miss (t.stored a b old)
      ]
    ];
    covers = covers_after;
    spans =
        spans_by (in_forest grown) (with_edge_old c u v stored_item)
          (one_edge u v (low_le_high e.src e.dst) (with_edge_self c u v stored_item));
  }
    where
      absent : present edges u v ≡ false
      absent = elim (Bool-cases (present edges u v)) [
        | inl there ↦ absurd (m.reports.0 joined (t.covers u v there).2)
        | inr gone ↦ gone
      ]

  false≢true : false ≢ true
  false≢true h = cc

  spoiled :
      ret.merged ≡ false
      → contains (forest_at c u) v ≡ true
      → (record_edge c u v (d, ret)).dsu_valid ≡ false
  unfolding record_edge
  spoiled unmerged inside = rw (unmerged, inside)

  -- Unless the call makes the answer invalid, the forest tracks the graph after it too.
  pub record_edge-Tracks :
      (record_edge c u v (d, ret)).dsu_valid ≡ true
      → c.dsu_valid ≡ true
      → Tracks (e ∷ edges) (record_edge c u v (d, ret))
  unfolding record_edge
  record_edge-Tracks valid before = elim (Bool-cases ret.merged) [
    | inl joined ↦ rw joined (in_forest_now joined)
    | inr unmerged ↦ elim (Bool-cases (contains (forest_at c u) v)) [
      | inl inside ↦ absurd (false≢true (sym (spoiled unmerged inside) ∙ valid))
      | inr outside ↦ rw (unmerged, outside) (not_in_forest unmerged outside)
    ]
  ]

  pub record_edge-num_vertices : (record_edge c u v (d, ret)).num_vertices ≡ c.num_vertices
  unfolding record_edge
  record_edge-num_vertices = ground arith

  pub record_edge-agree :
      c.shared_dsu_valid ≡ c.dsu_valid
      → (record_edge c u v (d, ret)).shared_dsu_valid ≡ (record_edge c u v (d, ret)).dsu_valid
  unfolding record_edge
  record_edge-agree h = ground arith
