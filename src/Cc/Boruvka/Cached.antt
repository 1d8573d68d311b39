-- ===== src/Cc/Boruvka/Cached.antt =====
-- `connected_components` and `point_query` (src/cc_sketch_alg.cpp) while the eager forest holds the
-- answer: they read it off the disjoint sets, without a Boruvka round.
use graph_streaming_cc.Prelude.{
  ℕ, ◌<◌, ◌≡◌, refl, sym, subst, ◌∙◌, ◌↔◌, Bool, true, ◌==◌, some, List, eq→==, ==→eq,
}
use graph_streaming_cc.Util.{Edge}
use graph_streaming_cc.Graph.{present, Linked}
use graph_streaming_cc.Bucket.{Hashes}
use graph_streaming_cc.Sketch.Update.{Algorithm}
use graph_streaming_cc.Dsu.{Dsu}
use graph_streaming_cc.Dsu.Forest.{Root-unique}
use graph_streaming_cc.Dsu.Sets.{IsDsu, SameSet, HasRoot, find_root_lem, backward}
use graph_streaming_cc.Cc.{CcSketchAlg, QueryCode, new_cc, has_cached_query}
use graph_streaming_cc.Cc.Eager.{Tracks, PreInserted}
use graph_streaming_cc.Cc.Eager.Calls.{tracked, cached_flags, cached_vertices, cached_components}
use graph_streaming_cc.Components.{ConnectedComponents, new_components, is_connected}
use graph_streaming_cc.Components.Roots.{
  Mem, first, later, Below, no_item, below, new_components_lem, is_connected_lem,
}
use graph_streaming_cc.Cc.Boruvka.{
  Choices, returned, if_result, then_query, make_valid, connected_components, same_root,
  point_query,
}

Below-Mem : (n i : ℕ) (is : List ℕ) → Below n is → Mem i is → i < n
Below-Mem n i _ no_item m = elim m [ ]
Below-Mem n i _ (below _ is h hs) (first _) = h
Below-Mem n i _ (below _ is h hs) (later _ _ m) = Below-Mem n i is hs m

↔-trans : {A B C : Type 0} → A ↔ B → B ↔ C → A ↔ C
↔-trans p q = (λ a. q.0 (p.0 a), λ c. p.1 (q.1 c))

-- The end of `point_query` on valid disjoint sets.
same_root_lem :
    (d : Dsu) (a b : ℕ)
    → IsDsu d
    → a < d.n
    → b < d.n
    → (e : Dsu) × (same : Bool) × (same_root d a b ≡ some (e, same))
      × ((same ≡ true) ↔ SameSet d a b)
unfolding same_root
same_root_lem d a b forest ha hb =
    let (d', ra, runs_a, keeps_a, root_a, _) = find_root_lem d a forest ha in
    let (d'', rb, runs_b, keeps_b, root_b', _) =
      find_root_lem d' b keeps_a.forest (rw keeps_a.items hb) in
    let root_b = backward d d' forest keeps_a rb b hb root_b' in
    (
      d'',
      ra == rb,
      rw (runs_a, runs_b) refl,
      (
        λ h. (ra, root_a, subst (λ z. HasRoot d z b) (sym (==→eq _ _ h)) root_b),
        λ (s, p, q). eq→== _ _ (Root-unique root_a p ∙ Root-unique q root_b),
      ),
    )

-- A cached answer is read off.
connected_components_valid :
    (hashes : Hashes) (alg : Algorithm) (choices : Choices) (c : CcSketchAlg) (order : List ℕ)
    (d : Dsu) (answer : ConnectedComponents)
    → c.shared_dsu_valid ≡ true
    → new_components c.num_vertices c.dsu order ≡ some (d, answer)
    → connected_components hashes alg choices order c ≡ returned (record c { dsu = d }) answer
unfolding connected_components make_valid then_query if_result
connected_components_valid hashes alg choices c order d answer valid runs = rw (valid, runs) refl

module _ (hashes : Hashes) (alg : Algorithm) (choices : Choices) (n seed samples : ℕ)
    (prio : List ℕ) (edges : List Edge) (c : CcSketchAlg)
    (run : PreInserted (new_cc alg n seed samples prio) edges c)
    (cached : has_cached_query c QueryCode.connectivity ≡ true) where
  t : Tracks edges c
  t = tracked alg n seed samples prio edges c run cached

  vertices : c.num_vertices ≡ n
  vertices = cached_vertices alg n seed samples prio edges c run cached

  -- After any calls of `pre_insert` from the constructor's state, while the connectivity query is
  -- cached: `connected_components` returns, and any two vertices that the loop of the answer's
  -- constructor visits are connected in it if and only if the graph of the updates connects them.
  pub cached_connected_components :
      (order : List ℕ)
      → Below n order
      → (c' : CcSketchAlg) × (answer : ConnectedComponents) × (connected_components hashes alg
            choices order c
          ≡ returned c' answer)
        × ((x y : ℕ)
            → Mem x order
            → Mem y order
            → (is_connected answer x y ≡ true) ↔ Linked (present edges) x y)
  cached_connected_components order inside =
      let inside' : Below c.dsu.n order = rw (t.items, vertices) inside in
      let r = new_components_lem c.dsu order t.forest inside' in
      let runs : new_components c.num_vertices c.dsu order ≡ some (r.state, r.answer) =
        subst (λ z. new_components z c.dsu order ≡ some (r.state, r.answer)) t.items r.returns in
      (
        record c { dsu = r.state },
        r.answer,
        connected_components_valid hashes alg choices c order r.state r.answer
            (cached_flags alg n seed samples prio edges c run cached).0 runs,
        λ x y mx my.
            ↔-trans
              (is_connected_lem c.dsu r.state r.answer order t.forest inside' r.returns x y mx my)
              (cached_components alg n seed samples prio edges c run cached x y
                (Below-Mem n x order inside mx) (Below-Mem n y order inside my)),
      )

  -- After any calls of `pre_insert` from the constructor's state, while the connectivity query is
  -- cached: `point_query` of two vertices of the graph returns, and says that they are connected if
  -- and only if the graph of the updates connects them.
  pub cached_point_query :
      (a b : ℕ)
      → a < n
      → b < n
      → (c' : CcSketchAlg) × (same : Bool) × (point_query hashes alg choices a b c
          ≡ returned c' same)
        × ((same ≡ true) ↔ Linked (present edges) a b)
  unfolding point_query make_valid then_query if_result
  cached_point_query a b ha hb =
      let (e, same, runs, exactly) =
        same_root_lem c.dsu a b t.forest (rw (t.items, vertices) ha) (rw (t.items, vertices) hb) in
      (
        record c { dsu = e },
        same,
        rw ((cached_flags alg n seed samples prio edges c run cached).1, runs) refl,
        ↔-trans exactly (cached_components alg n seed samples prio edges c run cached a b ha hb),
      )
