-- ===== src/Cc/Eager/Calls.antt =====
-- Every call of `CCSketchAlg::pre_insert` (src/cc_sketch_alg.cpp) ends, and while the cached
-- answer is valid the sets of `dsu` are the components of the graph.
use graph_streaming_cc.Prelude.{
  ℕ, ◌<◌, ◌≡◌, ◌≢◌, refl, sym, ap, ◌∙◌, inl, inr, ◌↔◌, Bool, true, false, some, List, [], ◌∷◌,
  get_or-replicate, length-replicate, Bool-cases, subst,
}
use mathlib.Core.Option
use graph_streaming_cc.Util.{Edge, low_of, high_of}
use graph_streaming_cc.Graph.{
  present, present-nil, Linked, Linked_mono, go, stop, either_order, low_of_lt, high_of_lt,
}
use graph_streaming_cc.Dsu.Forest.{Root-of}
use graph_streaming_cc.Dsu.Sets.{
  SameSet, SameSet_sym, SameSet_trans, new_dsu_lem, new_dsu_alone, n-new_dsu,
}
use graph_streaming_cc.Dsu.Merge.Weak.{merge_mt_lem}
use graph_streaming_cc.Sketch.Update.{Algorithm}
use graph_streaming_cc.Cc.{
  CcSketchAlg, QueryCode, contains, record_edge, pre_insert, new_cc, has_cached_query,
}
use graph_streaming_cc.Cc.Stored.{in_forest}
use graph_streaming_cc.Cc.Eager.{Tracks, Eager, PreInserted, none_yet, pre_inserted}
use graph_streaming_cc.Cc.Eager.Step.{
  record_edge-Tracks, record_edge-num_vertices, record_edge-agree,
}

-- What one call gives.
pub record Called (edges : List Edge) (e : Edge) (c : CcSketchAlg) (failures : List Bool)
    : Type 0 where
  pub after : CcSketchAlg
  pub returns : pre_insert failures c e ≡ some after
  pub same_vertices : after.num_vertices ≡ c.num_vertices
  pub eager : Eager (e ∷ edges) after

pub call :
    (edges : List Edge) (e : Edge) (c : CcSketchAlg) (failures : List Bool)
    → Eager edges c
    → e.src < c.num_vertices
    → e.dst < c.num_vertices
    → Called edges e c failures
unfolding pre_insert
call edges e c failures eager hs hd = elim (Bool-cases c.dsu_valid) [
  | inr invalid ↦ record {
    after = c;
    returns = rw invalid refl;
    same_vertices = refl;
    eager = record {
      agree = eager.agree;
      tracks = λ valid. absurd (true≢false (sym valid ∙ invalid));
    };
  }
  | inl valid ↦
      let t = eager.tracks valid in
      let u = low_of e.src e.dst in
      let v = high_of e.src e.dst in
      let hu : u < c.num_vertices = low_of_lt e.src e.dst c.num_vertices hs hd in
      let hv : v < c.num_vertices = high_of_lt e.src e.dst c.num_vertices hs hd in
      let (d, ret, runs, m) =
        merge_mt_lem failures c.dsu u v t.forest (rw t.items hu) (rw t.items hv) in
      record {
        after = record_edge c u v (d, ret);
        returns = rw (valid, runs);
        same_vertices = record_edge-num_vertices edges e c t d ret hs hd m;
        eager = record {
          agree = record_edge-agree edges e c t d ret hs hd m eager.agree;
          tracks = λ after_valid. record_edge-Tracks edges e c t d ret hs hd m after_valid valid;
        };
      }
]
  where
    true≢false : true ≢ false
    true≢false h = cc

-- The state after the constructor.
new_cc-Tracks :
    (alg : Algorithm) (n seed samples : ℕ) (prio : List ℕ)
    → Tracks [] (new_cc alg n seed samples prio)
unfolding new_cc contains
new_cc-Tracks alg n seed samples prio = record {
  items = n-new_dsu prio n;
  sized = length-replicate n [];
  forest = new_dsu_lem prio n;
  stored =
      λ s d h. absurd (false≢true (sym (ap (λ z. contains z d) (get_or-replicate n s [])) ∙ h));
  covers = λ s d h. absurd (false≢true (sym (present-nil s d) ∙ h));
  spans = λ x y hx hy same. subst (Linked _ x) (new_dsu_alone prio n x y hx hy same) (stop x);
}
  where
    false≢true : false ≢ true
    false≢true h = cc

pub new_cc-Eager :
    (alg : Algorithm) (n seed samples : ℕ) (prio : List ℕ)
    → Eager [] (new_cc alg n seed samples prio)
new_cc-Eager alg n seed samples prio = record {
  agree = unfold new_cc in refl;
  tracks = λ _. new_cc-Tracks alg n seed samples prio;
}

-- After any calls.
record Kept (n : ℕ) (edges : List Edge) (c : CcSketchAlg) : Type 0 where
  eager : Eager edges c
  vertices : c.num_vertices ≡ n

PreInserted-Kept :
    {start c : CcSketchAlg} {edges : List Edge}
    → Eager [] start
    → PreInserted start edges c
    → Kept start.num_vertices edges c
PreInserted-Kept eager none_yet = record { eager = eager; vertices = refl }
PreInserted-Kept eager (pre_inserted edges c c' failures edge before hs hd runs) =
    let k = PreInserted-Kept eager before in
    let called = call edges edge c failures k.eager hs hd in
    let same : called.after ≡ c' = Option.some_inj.0 (sym called.returns ∙ runs) in
    subst (Kept _ (edge ∷ edges)) same
      (record { eager = called.eager; vertices = called.same_vertices ∙ k.vertices })

connected :
    {edges : List Edge} {c : CcSketchAlg} (t : Tracks edges c) {x y : ℕ}
    → x < c.num_vertices
    → Linked (present edges) x y
    → SameSet c.dsu x y
connected {c} t hx (stop x) = let (r, _, p) = Root-of t.forest x (rw t.items hx) in (r, p, p)
connected {c} t hx (go x z y edge walk) =
    let (hl, hh, same) = t.covers _ _ edge in
    elim (either_order x z) [
      | inl (p, q) ↦
          SameSet_trans c.dsu x z y
            (subst (λ t. SameSet c.dsu t z) p (subst (SameSet c.dsu _) q same))
            (connected t (subst (λ t. t < c.num_vertices) q hh) walk)
      | inr (p, q) ↦
          SameSet_trans c.dsu x z y
            (SameSet_sym c.dsu z x
              (subst (λ t. SameSet c.dsu t x) p (subst (SameSet c.dsu _) q same)))
            (connected t (subst (λ t. t < c.num_vertices) p hl) walk)
    ]

module _ (alg : Algorithm) (n seed samples : ℕ) (prio : List ℕ) (edges : List Edge)
    (c : CcSketchAlg) (run : PreInserted (new_cc alg n seed samples prio) edges c) where
  same_vertices : (new_cc alg n seed samples prio).num_vertices ≡ n
  unfolding new_cc
  same_vertices = refl

  after_calls : Kept n edges c
  after_calls =
      subst (λ t. Kept t edges c) same_vertices
        (PreInserted-Kept (new_cc-Eager alg n seed samples prio) run)

  -- After any calls of `pre_insert` from the constructor's state, a further call on vertices of the
  -- graph ends, whichever attempts of its merge fail without a cause.
  pub pre_insert_returns :
      (failures : List Bool) (edge : Edge)
      → edge.src < n
      → edge.dst < n
      → (c' : CcSketchAlg) × (pre_insert failures c edge ≡ some c')
        × PreInserted (new_cc alg n seed samples prio) (edge ∷ edges) c'
  pre_insert_returns failures edge hs hd =
      let hs' : edge.src < c.num_vertices = rw after_calls.vertices hs in
      let hd' : edge.dst < c.num_vertices = rw after_calls.vertices hd in
      let called = call edges edge c failures after_calls.eager hs' hd' in
      (
        called.after,
        called.returns,
        pre_inserted edges c called.after failures edge run hs' hd' called.returns,
      )

  module _ (cached : has_cached_query c QueryCode.connectivity ≡ true) where
    pub tracked : Tracks edges c
    unfolding has_cached_query
    tracked = after_calls.eager.tracks (sym after_calls.eager.agree ∙ cached)

    -- Both flags are set.
    pub cached_flags : (c.shared_dsu_valid ≡ true) × (c.dsu_valid ≡ true)
    unfolding has_cached_query
    cached_flags = (cached, sym after_calls.eager.agree ∙ cached)

    pub cached_vertices : c.num_vertices ≡ n
    cached_vertices = after_calls.vertices

    -- After any calls of `pre_insert` from the constructor's state, while the connectivity query is
    -- cached: two vertices are in one set of `dsu` if and only if they are connected in the graph
    -- of the updates.
    pub cached_components :
        (x y : ℕ) → x < n → y < n → SameSet c.dsu x y ↔ Linked (present edges) x y
    cached_components x y hx hy = (
      λ same.
          Linked_mono tracked.stored
            (tracked.spans x y (rw after_calls.vertices hx) (rw after_calls.vertices hy) same),
      λ walk. connected tracked (rw after_calls.vertices hx) walk,
    )

    -- After any calls of `pre_insert` from the constructor's state, while the connectivity query is
    -- cached: the stored edges connect the vertices that the graph connects, and no others.
    pub cached_forest :
        (x y : ℕ) → x < n → y < n → Linked (in_forest c) x y ↔ Linked (present edges) x y
    cached_forest x y hx hy = (
      λ walk. Linked_mono tracked.stored walk,
      λ walk.
          tracked.spans x y (rw after_calls.vertices hx) (rw after_calls.vertices hy)
            (connected tracked (rw after_calls.vertices hx) walk),
    )

    -- After any calls of `pre_insert` from the constructor's state, while the connectivity query is
    -- cached: every stored edge is an edge of the graph.
    cached_edge : (s d : ℕ) → in_forest c s d ≡ true → present edges s d ≡ true
    cached_edge = tracked.stored
