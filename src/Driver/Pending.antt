-- ===== src/Driver/Pending.antt =====
-- What the gutters of include/graph_sketch_driver.h hold for a vertex, as indices, and what an
-- insertion and a batch change of it.
use graph_streaming_cc.Prelude.{
  ℕ, ◌≡◌, ◌≢◌, refl, sym, ap, ◌∙◌, inl, inr, Bool, true, false, not, ◌||◌, ◌==◌, if◌then◌else◌,
  some, List, [], ◌∷◌, ◌++◌, map, eq-or-ne, eq→==, ne→==-false,
}
use graph_streaming_cc.Util.{Edge, concat_pairing_fn}
use graph_streaming_cc.Util.Concat.{concat_comm}
use graph_streaming_cc.Sketch.Update.Linear.{parity, parity-append}
use graph_streaming_cc.Driver.{GutterBatch, Gutters}
use graph_streaming_cc.Driver.Shuffles.{
  parity-Shuffle, append-nil, Shuffle-nil, nil-Shuffle, map-append, or_else,
}

module _ (gutters : Gutters) where
  -- What the gutters hold for a vertex, as indices.
  unfoldable pub pending : gutters.G → ℕ → List ℕ
  pending g v = map (concat_pairing_fn v) (gutters.held g v)

  -- An insertion, in what is pending.
  pending-insert :
      (g : gutters.G) (src dst thr v x : ℕ)
      → let p = parity x (pending g v) in
        parity x (pending (gutters.insert g src dst thr) v)
        ≡ (if src == v then (if concat_pairing_fn v dst == x then not p else p) else p)
  unfolding pending parity
  pending-insert g src dst thr v x =
      parity-Shuffle (concat_pairing_fn v) x _ _ (gutters.insert_law g src dst thr v)
      ∙ branch (src == v)
    where
      branch :
          (b : Bool)
          → parity x
              (map (concat_pairing_fn v) (if b then dst ∷ gutters.held g v else gutters.held g v))
            ≡ (if b
                then (if concat_pairing_fn v dst == x
                    then not (parity x (map (concat_pairing_fn v) (gutters.held g v)))
                    else parity x (map (concat_pairing_fn v) (gutters.held g v)))
                else parity x (map (concat_pairing_fn v) (gutters.held g v)))
      branch true = refl
      branch false = refl

  -- Both insertions of an edge.
  pub pending-ends :
      (g : gutters.G) (e : Edge) (thr v x : ℕ)
      → e.src ≢ e.dst
      → let p = parity x (pending g v) in
        parity x (pending (gutters.insert (gutters.insert g e.src e.dst thr) e.dst e.src thr) v) ≡ (
          if e.src == v || e.dst == v
          then (if concat_pairing_fn e.src e.dst == x then not p else p)
          else p)
  pending-ends g e thr v x ne =
      pending-insert (gutters.insert g e.src e.dst thr) e.dst e.src thr v x
      ∙ ap (λ q. if e.dst == v then (if concat_pairing_fn v e.src == x then not q else q) else q)
          (pending-insert g e.src e.dst thr v x)
      ∙ elim (eq-or-ne e.src v) [
        | inl s ↦
            rw
              (
                eq→== e.src v s,
                ne→==-false e.dst v (λ d. ne (s ∙ sym d)),
                ap (λ z. concat_pairing_fn z e.dst) s,
              )
              refl
        | inr ns ↦ elim (eq-or-ne e.dst v) [
          | inl d ↦
              rw
                (
                  ne→==-false e.src v ns,
                  eq→== e.dst v d,
                  concat_comm e.src e.dst ∙ ap (λ z. concat_pairing_fn z e.src) d,
                )
                refl
          | inr nd ↦ rw (ne→==-false e.src v ns, ne→==-false e.dst v nd) refl
        ]
      ]

  pub held-insert :
      (g : gutters.G) (src dst thr v : ℕ)
      → src ≢ v
      → gutters.held g v ≡ []
      → gutters.held (gutters.insert g src dst thr) v ≡ []
  held-insert g src dst thr v ne e =
      Shuffle-nil _ _ (gutters.insert_law g src dst thr v) (rw (ne→==-false src v ne) e)

  -- What a batch adds to a vertex.
  unfoldable pub part : GutterBatch → ℕ → List ℕ
  part b v = if b.src_vertex == v then map (concat_pairing_fn b.src_vertex) b.dst_vertices else []

  pub pending-take :
      (g g' : gutters.G) (b : GutterBatch) (v x : ℕ)
      → gutters.take g ≡ some (b, g')
      → parity x (pending g v) ≡ or_else (parity x (part b v)) (parity x (pending g' v))
  unfolding pending part parity
  pending-take g g' b v x e =
      parity-Shuffle (concat_pairing_fn v) x _ _ (gutters.take_law g g' b v e)
      ∙ elim (eq-or-ne b.src_vertex v) [
        | inl s ↦ rw (eq→== b.src_vertex v s) (
            ap (parity x) (map-append (concat_pairing_fn v) b.dst_vertices (gutters.held g' v))
            ∙ parity-append x (map (concat_pairing_fn v) b.dst_vertices) _
            ∙ ap
                (λ z.
                  or_else (parity x (map (concat_pairing_fn z) b.dst_vertices))
                    (parity x (map (concat_pairing_fn v) (gutters.held g' v))))
                (sym s))
        | inr ns ↦ rw (ne→==-false b.src_vertex v ns) refl
      ]

  pub held-take :
      (g g' : gutters.G) (b : GutterBatch) (v : ℕ)
      → gutters.take g ≡ some (b, g')
      → gutters.held g v ≡ []
      → gutters.held g' v ≡ []
  held-take g g' b v e none_held =
      branch (b.src_vertex == v) (nil-Shuffle _ _ (gutters.take_law g g' b v e) none_held)
    where
      branch :
          (t : Bool)
          → (if t then b.dst_vertices ++ gutters.held g' v else gutters.held g' v) ≡ []
          → gutters.held g' v ≡ []
      branch true h = (append-nil b.dst_vertices (gutters.held g' v) h).1
      branch false h = h
