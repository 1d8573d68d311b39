-- ===== src/Driver/Incident.antt =====
-- What the sketch of a vertex is to hold, independent of the code: the indices of the edges at it.
-- A stream and a graph that leave the same edges give every vertex one vector.
use graph_streaming_cc.Prelude.{
  ℕ, ◌^◌, ◌<◌, ◌≡◌, ◌≢◌, refl, sym, ap, ap₂, subst, ◌∙◌, inl, inr, arith, Bool, true, false, not,
  ◌&&◌, ◌||◌, ◌==◌, if◌then◌else◌, List, [], ◌∷◌, eq→==, ne→==-false, ==→eq, ==-false→ne,
}
use graph_streaming_cc.Util.{Edge, low_of, high_of, concat_pairing_fn, inv_concat_pairing_fn}
use graph_streaming_cc.Util.Concat.{inv_concat-concat, concat-as_sum}
use graph_streaming_cc.Graph.{EdgeSet, present, toggle, toggle-hit, hit-or-miss}
use graph_streaming_cc.Sketch.Update.Linear.{parity, SameVector}

-- The indices of the edges with an end at `v`.
unfoldable pub incident : ℕ → List Edge → List ℕ
incident v [] = []
incident v (e ∷ es) =
    if e.src == v || e.dst == v
    then concat_pairing_fn e.src e.dst ∷ incident v es
    else incident v es

-- Edges between different 32-bit vertices.
pub data Edges : List Edge → Type 0 where
  no_edges : Edges []
  an_edge :
      (e : Edge) (es : List Edge)
      → e.src < 2 ^ 32
      → e.dst < 2 ^ 32
      → ¬ (e.src ≡ e.dst)
      → Edges es
      → Edges (e ∷ es)

-- Whether the edge of an index is in the graph and ends at `v`.
holds : ℕ → EdgeSet → ℕ → Bool
holds v g x =
    let e = inv_concat_pairing_fn x in
    if concat_pairing_fn e.src e.dst == x && (e.src == v || e.dst == v)
    then g e.src e.dst
    else false

concat-ends :
    (i j : ℕ)
    → i < 2 ^ 32
    → j < 2 ^ 32
    → concat_pairing_fn (low_of i j) (high_of i j) ≡ concat_pairing_fn i j
unfolding low_of high_of
concat-ends i j hi hj = ground (arith, concat-as_sum i j hi hj, concat-as_sum j i hj hi)

ends_at : (i j v : ℕ) → (low_of i j == v || high_of i j == v) ≡ (i == v || j == v)
unfolding low_of high_of
ends_at i j v = ground arith

module _ (v : ℕ) (e : Edge) (es : List Edge) (hs : e.src < 2 ^ 32) (hd : e.dst < 2 ^ 32)
    (x : ℕ) where
  abbrev index : ℕ
  index = concat_pairing_fn e.src e.dst

  abbrev low : ℕ
  low = low_of e.src e.dst

  abbrev high : ℕ
  high = high_of e.src e.dst

  abbrev packed : Edge
  packed = inv_concat_pairing_fn x

  -- The index of the edge that comes.
  same_index :
      index ≡ x
      → holds v (present (e ∷ es)) x ≡ (
          if e.src == v || e.dst == v then not (holds v (present es) x) else holds v (present es) x)
  unfolding holds present
  same_index i =
      let at : packed ≡ record { src = low; dst = high } =
        subst (λ z. inv_concat_pairing_fn z ≡ record { src = low; dst = high }) i
          (inv_concat-concat e.src e.dst hs hd) in
      let proper : (concat_pairing_fn low high == x) ≡ true =
        eq→== _ _ (concat-ends e.src e.dst hs hd ∙ i) in
      rw (at, proper, ends_at e.src e.dst v)
        (by_touch (e.src == v || e.dst == v) (toggle low high (present es) low high)
          (present es low high) (toggle-hit low high (present es)))
    where
      by_touch :
          (touches a b : Bool)
          → a ≡ not b
          → (if true && touches then a else false) ≡ (
              if touches
              then not (if true && touches then b else false)
              else if true && touches
              then b
              else false)
      by_touch true a b h = h
      by_touch false a b h = refl

  -- Another index.
  other_index : index ≢ x → holds v (present (e ∷ es)) x ≡ holds v (present es) x
  unfolding holds present
  other_index ne = elim (hit-or-miss low high packed.src packed.dst (present es)) [
    | inl (s, d) ↦
        let improper : (concat_pairing_fn packed.src packed.dst == x) ≡ false =
          ne→==-false _ _ (λ h.
            ne (sym (concat-ends e.src e.dst hs hd) ∙ ap₂ concat_pairing_fn (sym s) (sym d) ∙ h)) in
        rw improper refl
    | inr (_, miss) ↦ rw miss refl
  ]

holds_none : (v x : ℕ) → holds v (present []) x ≡ false
unfolding holds present
holds_none v x = both_false (
    concat_pairing_fn (inv_concat_pairing_fn x).src (inv_concat_pairing_fn x).dst == x
    && ((inv_concat_pairing_fn x).src == v || (inv_concat_pairing_fn x).dst == v))
  where
    both_false : (b : Bool) → (if b then false else false) ≡ false
    both_false true = refl
    both_false false = refl

-- One edge more, on both sides.
parity-next :
    (touches hit p h h' : Bool)
    → p ≡ h
    → (hit ≡ true → h' ≡ (if touches then not h else h))
    → (hit ≡ false → h' ≡ h)
    → (if touches then (if hit then not p else p) else p) ≡ h'
parity-next true true p h h' e k k' = ap not e ∙ sym (k refl)
parity-next true false p h h' e k k' = e ∙ sym (k' refl)
parity-next false true p h h' e k k' = e ∙ sym (k refl)
parity-next false false p h h' e k k' = e ∙ sym (k' refl)

parity-incident :
    (v : ℕ) (es : List Edge) (x : ℕ) → Edges es → parity x (incident v es) ≡ holds v (present es) x
unfolding parity incident
parity-incident v [] x no_edges = sym (holds_none v x)
parity-incident v (e ∷ es) x (an_edge _ _ hs hd ne more) =
    branch (e.src == v || e.dst == v)
    ∙ parity-next (e.src == v || e.dst == v) (concat_pairing_fn e.src e.dst == x)
        (parity x (incident v es)) (holds v (present es) x) (holds v (present (e ∷ es)) x)
        (parity-incident v es x more) (λ hit. same_index v e es hs hd x (==→eq _ _ hit))
        (λ miss. other_index v e es hs hd x (==-false→ne _ _ miss))
  where
    branch :
        (b : Bool)
        → parity x (if b then concat_pairing_fn e.src e.dst ∷ incident v es else incident v es) ≡ (
            if b
            then (if concat_pairing_fn e.src e.dst == x
                then not (parity x (incident v es))
                else parity x (incident v es))
            else parity x (incident v es))
    branch true = refl
    branch false = refl

-- Two lists of updates that leave the same edges give a vertex the same vector.
pub incident-SameVector :
    (v : ℕ) (es es' : List Edge)
    → Edges es
    → Edges es'
    → ((s d : ℕ) → present es s d ≡ present es' s d)
    → SameVector (incident v es) (incident v es')
unfolding holds
incident-SameVector v es es' h h' same x =
    parity-incident v es x h
    ∙ ap
        (λ t.
          if concat_pairing_fn (inv_concat_pairing_fn x).src (inv_concat_pairing_fn x).dst == x
            && ((inv_concat_pairing_fn x).src == v || (inv_concat_pairing_fn x).dst == v)
          then t
          else false)
        (same (inv_concat_pairing_fn x).src (inv_concat_pairing_fn x).dst)
    ∙ sym (parity-incident v es' x h')
