-- ===== src/Cc/Query/Forest.antt =====
-- The rounds of a query of `CCSketchAlg` keep `dsu` and `spanning_forest` in step.
use graph_streaming_cc.Prelude.{
  ℕ, ◌<◌, ◌≡◌, ◌≢◌, sym, ap, subst, ◌∙◌, inl, inr, arith, true, false, length, Bool-cases,
}
use graph_streaming_cc.Util.{Edge, low_of, high_of}
use graph_streaming_cc.Graph.{
  EdgeSet, Linked, stop, go, Linked_trans, Linked_sym, Linked_mono, low_of_lt, high_of_lt,
  either_order,
}
use graph_streaming_cc.Sketch.{Sketch}
use graph_streaming_cc.Dsu.{Dsu, DsuMergeRet}
use graph_streaming_cc.Dsu.Sets.{IsDsu, SameSet, SameSet_sym, SameSet_trans, own, SameSet-stable}
use graph_streaming_cc.Dsu.Merge.{Merged}
use graph_streaming_cc.Cc.{CcSketchAlg}
use graph_streaming_cc.Cc.Stored.{
  in_forest, with_edge, length-with_edge, with_edge_self, with_edge_old, with_edge_cases,
}
use graph_streaming_cc.Cc.Query.{sampled_edge}

-- The sets of `dsu` are what the stored edges connect, and each stored edge joins vertices.
pub record InStep (c : CcSketchAlg) : Type 0 where
  pub items : c.dsu.n ≡ c.num_vertices
  pub sized : length c.spanning_forest ≡ c.num_vertices
  pub forest : IsDsu c.dsu
  pub joined :
      (s d : ℕ)
      → in_forest c s d ≡ true
      → (s < c.num_vertices) × (d < c.num_vertices) × SameSet c.dsu s d
  pub spans :
      (x y : ℕ)
      → x < c.num_vertices
      → y < c.num_vertices
      → SameSet c.dsu x y
      → Linked (in_forest c) x y

-- Walks over the stored edges stay in one set.
pub InStep-walk :
    {c : CcSketchAlg} (t : InStep c) {x y : ℕ}
    → x < c.num_vertices
    → Linked (in_forest c) x y
    → SameSet c.dsu x y
InStep-walk {c} t hx (stop x) = own c.dsu x t.forest (rw t.items hx)
InStep-walk {c} t hx (go x z y edge walk) =
    let (hl, hh, same) = t.joined _ _ edge in
    elim (either_order x z) [
      | inl (p, q) ↦
          SameSet_trans c.dsu x z y
            (subst (λ t. SameSet c.dsu t z) p (subst (SameSet c.dsu _) q same))
            (InStep-walk t (subst (λ t. t < c.num_vertices) q hh) walk)
      | inr (p, q) ↦
          SameSet_trans c.dsu x z y
            (SameSet_sym c.dsu z x
              (subst (λ t. SameSet c.dsu t x) p (subst (SameSet c.dsu _) q same)))
            (InStep-walk t (subst (λ t. t < c.num_vertices) p hl) walk)
    ]

-- Any vertices in place of the ends, for the walks.
link_ends : (g : EdgeSet) (x z : ℕ) → g (low_of x z) (high_of x z) ≡ true → Linked g x z
link_ends g x z e = go x z z e (stop z)

module _ (c : CcSketchAlg) (t : InStep c) (skt : Sketch) (e : Edge) (d : Dsu) (ret : DsuMergeRet)
    (hs : e.src < c.num_vertices) (hd : e.dst < c.num_vertices)
    (m : Merged c.dsu e.src e.dst d ret) where
  abbrev u : ℕ
  u = low_of e.src e.dst

  abbrev v : ℕ
  v = high_of e.src e.dst

  abbrev grown : CcSketchAlg
  grown = record c { dsu = d; spanning_forest = with_edge c u v }

  in_dsu : (x : ℕ) → x < c.num_vertices → x < c.dsu.n
  in_dsu x h = rw t.items h

  ends : SameSet d e.src e.dst
  ends = (m.joins e.src e.dst (in_dsu e.src hs) (in_dsu e.dst hd)).1 (
      inr (
        inl
          (own c.dsu e.src t.forest (in_dsu e.src hs), own c.dsu e.dst t.forest (in_dsu e.dst hd))))

  ends_joined : SameSet d u v
  ends_joined = elim (either_order e.src e.dst) [
    | inl (p, q) ↦ subst (λ z. SameSet d z v) (sym p) (subst (SameSet d e.src) (sym q) ends)
    | inr (p, q) ↦
        subst (λ z. SameSet d z v) (sym p)
          (subst (SameSet d e.dst) (sym q) (SameSet_sym d e.src e.dst ends))
  ]

  kept : (x y : ℕ) → x < c.num_vertices → y < c.num_vertices → SameSet c.dsu x y → SameSet d x y
  kept x y hx hy s = (m.joins x y (in_dsu x hx) (in_dsu y hy)).1 (inl s)

  spans_by :
      (g : EdgeSet)
      → ((a b : ℕ) → in_forest c a b ≡ true → g a b ≡ true)
      → Linked g e.src e.dst
      → (x y : ℕ) → x < c.num_vertices
      → y < c.num_vertices
      → SameSet d x y
      → Linked g x y
  spans_by g more link x y hx hy s = elim ((m.joins x y (in_dsu x hx) (in_dsu y hy)).0 s) [
    | inl same ↦ old x y hx hy same
    | inr (inl (p, q)) ↦
        Linked_trans (old x e.src hx hs p) (Linked_trans link (Linked_sym (old y e.dst hy hd q)))
    | inr (inr (p, q)) ↦
        Linked_trans (old x e.dst hx hd p)
          (Linked_trans (Linked_sym link) (Linked_sym (old y e.src hy hs q)))
  ]
    where
      old : (x y : ℕ) → x < c.num_vertices → y < c.num_vertices → SameSet c.dsu x y → Linked g x y
      old x y hx hy s = Linked_mono more (t.spans x y hx hy s)

  stored_item : u < length c.spanning_forest
  stored_item = rw t.sized (low_of_lt e.src e.dst c.num_vertices hs hd)

  joined_grown :
      (a b : ℕ)
      → in_forest grown a b ≡ true
      → (a < c.num_vertices) × (b < c.num_vertices) × SameSet d a b
  joined_grown a b h = elim (with_edge_cases c u v stored_item a b h) [
    | inl (p, q) ↦ (
      subst (λ z. z < c.num_vertices) (sym p) (low_of_lt e.src e.dst c.num_vertices hs hd),
      subst (λ z. z < c.num_vertices) (sym q) (high_of_lt e.src e.dst c.num_vertices hs hd),
      subst (λ z. SameSet d z b) (sym p) (subst (SameSet d u) (sym q) ends_joined),
    )
    | inr old ↦ let (ha, hb, s) = t.joined a b old in (ha, hb, kept a b ha hb s)
  ]

  grown-InStep : InStep grown
  grown-InStep = record {
    items = m.items ∙ t.items;
    sized = length-with_edge c u v ∙ t.sized;
    forest = m.forest;
    joined = joined_grown;
    spans =
        spans_by (in_forest grown) (with_edge_old c u v stored_item)
          (link_ends (in_forest grown) e.src e.dst (with_edge_self c u v stored_item));
  }

  -- A sample that joins nothing.
  same-InStep : ret.merged ≡ false → InStep (record c { dsu = d })
  same-InStep unmerged = record {
    items = m.items ∙ t.items;
    sized = t.sized;
    forest = m.forest;
    joined = λ a b h. let (ha, hb, s) = t.joined a b h in (ha, hb, kept a b ha hb s);
    spans =
        spans_by (in_forest c) (λ a b h. h)
          (t.spans e.src e.dst hs hd (
            SameSet-stable c.dsu e.src e.dst t.forest (in_dsu e.src hs) (in_dsu e.dst hd)
              (λ n. true≢false (sym (m.reports.1 n) ∙ unmerged))));
  }
    where
      true≢false : true ≢ false
      true≢false h = cc

  pub sampled_edge-InStep : InStep (sampled_edge c skt e (d, ret)).state
  unfolding sampled_edge
  sampled_edge-InStep = elim (Bool-cases ret.merged) [
    | inl joins ↦ rw joins grown-InStep
    | inr unmerged ↦ rw unmerged (same-InStep unmerged)
  ]

  pub sampled_edge-inside :
      (g : EdgeSet)
      → ((a b : ℕ) → in_forest c a b ≡ true → g a b ≡ true)
      → g u v ≡ true
      → (a b : ℕ) → in_forest (sampled_edge c skt e (d, ret)).state a b ≡ true
      → g a b ≡ true
  unfolding sampled_edge
  sampled_edge-inside g old new a b = elim (Bool-cases ret.merged) [
    | inl joins ↦ rw joins (λ h. elim (with_edge_cases c u v stored_item a b h) [
      | inl (p, q) ↦ ap (λ z. g z b) p ∙ ap (g u) q ∙ new
      | inr before ↦ old a b before
    ])
    | inr unmerged ↦ rw unmerged (old a b)
  ]

module _ (c : CcSketchAlg) (skt : Sketch) (e : Edge) (d : Dsu) (ret : DsuMergeRet) where
  pub sampled_edge-sketches : (sampled_edge c skt e (d, ret)).state.sketches ≡ c.sketches
  unfolding sampled_edge
  sampled_edge-sketches = ground arith

  pub sampled_edge-num_vertices :
      (sampled_edge c skt e (d, ret)).state.num_vertices ≡ c.num_vertices
  unfolding sampled_edge
  sampled_edge-num_vertices = ground arith

  pub sampled_edge-skt : (sampled_edge c skt e (d, ret)).skt ≡ skt
  unfolding sampled_edge
  sampled_edge-skt = ground arith
