-- ===== src/Dsu/Find.antt =====
-- `find_root`: it ends, returns the root, and halves the path without changing any root.
use graph_streaming_cc.Prelude.{
  ℕ, zero, suc, ◌<◌, ◌≡◌, ◌≢◌, refl, sym, ap, ◌∙◌, ◌⊎◌, inl, inr, ⊎_elim, arith, true, false, ◌==◌,
  eq-or-ne, List, set, length, length-set, get_or-set_self, get_or-set_ne, subst, Option, some,
  Bool-cases, ==→eq, ==-false→ne,
}
use graph_streaming_cc.Dsu.{at, outranks, find_loop}
use graph_streaming_cc.Dsu.Order.{outranks_trans, outranks_irrefl}
use graph_streaming_cc.Dsu.Forest.{
  IsForest, Root, here, up, Root-IsRoot, Root-unique, Root-of_self, height, height-lt,
  height-outranks, Root-of,
}

pub at-set_self : (p : List ℕ) (u v : ℕ) → u < length p → at (set p u v) u ≡ v
at-set_self p u v h = get_or-set_self p u v u h

pub at-set_ne : (p : List ℕ) (u v j : ℕ) → u ≢ j → at (set p u v) j ≡ at p j
at-set_ne p u v j ne = get_or-set_ne p u j v j ne

pub Root-parent : {p : List ℕ} {r u : ℕ} → Root p r u → Root p r (at p u)
Root-parent {p} (here e self) = here (ap (at p) e ∙ self) self
Root-parent (up rest) = rest

-- The root of an item is an item.
pub Root-lt :
    {prio : List ℕ} {n : ℕ} {p : List ℕ} {r u : ℕ} → IsForest prio n p → u < n → Root p r u → r < n
Root-lt forest h root =
    let (r', small, root') = Root-of forest _ h in rw (Root-unique root root') small

-- A store of `g` into the parent of `u` that may happen at any time: `g` has the root of `u`, is `u`
-- if that is a root, and outranks `u` if it is not.
pub record CanStore (prio : List ℕ) (n : ℕ) (p : List ℕ) (u g : ℕ) : Type 0 where
  pub item : u < n
  pub target : g < n
  pub above : (at p u ≡ u) × (g ≡ u) ⊎ (at p u ≢ u) × (outranks prio g u ≡ true)
  pub same : (r : ℕ) → Root p r u → Root p r g

module _ {prio : List ℕ} {n : ℕ} {p : List ℕ} (forest : IsForest prio n p) {u g : ℕ}
    (can : CanStore prio n p u g) where
  pub stored : at (set p u g) u ≡ g
  stored = at-set_self p u g (omega (arith, forest.size, can.item))

  pub set-IsForest : IsForest prio n (set p u g)
  set-IsForest = record {
    size = length-set p u g ∙ forest.size;
    closed = λ v h. elim (eq-or-ne u v) [
      | inl e ↦ subst (λ w. at (set p u g) w < n) e (rw stored can.target)
      | inr ne ↦ rw (at-set_ne p u g v ne) (forest.closed v h)
    ];
    rises = λ v h. elim (eq-or-ne u v) [
      | inl e ↦
          subst (λ w. (at (set p u g) w ≡ w) ⊎ (outranks prio (at (set p u g) w) w ≡ true)) e
            (rw stored (⊎_elim (λ c. inl c.1) (λ c. inr c.1) can.above))
      | inr ne ↦ rw (at-set_ne p u g v ne) (forest.rises v h)
    ];
  }

  root_kept : (r : ℕ) → at p r ≡ r → at (set p u g) r ≡ r
  root_kept r self = elim (eq-or-ne u r) [
    | inl e ↦
        let at_u : at p u ≡ u = ap (at p) e ∙ self ∙ sym e in
        subst (λ w. at (set p u g) w ≡ w) e
          (⊎_elim (λ c. stored ∙ c.1) (λ c. absurd (c.0 at_u)) can.above)
    | inr ne ↦ at-set_ne p u g r ne ∙ self
  ]

  Root-set_below :
      (fuel r v : ℕ) → height prio n v < fuel → v < n → Root p r v → Root (set p u g) r v
  Root-set_below zero r v h lt root = absurd (omega arith)
  Root-set_below (suc fuel) r v h lt (here e self) = here e (root_kept r self)
  Root-set_below (suc fuel) r v h lt (up rest) = elim (eq-or-ne u v) [
    | inl e ↦
        let root_u : Root p r u = subst (Root p r) (sym e) (up rest) in
        subst (Root (set p u g) r) e (elim can.above [
          | inl (self, _) ↦ here (Root-of_self self root_u) (root_kept r (Root-IsRoot rest))
          | inr (_, higher) ↦
              let closer = height-outranks forest g u can.target higher in
              let height_u = ap (height prio n) e in
              let root = Root-set_below fuel r g (omega arith) can.target (can.same r root_u) in
              up (rw stored root)
        ])
    | inr ne ↦ elim (forest.rises v lt) [
      | inl self ↦
          here (sym self ∙ Root-of_self (ap (at p) self) rest) (root_kept r (Root-IsRoot rest))
      | inr higher ↦
          let closer = height-outranks forest (at p v) v (forest.closed v lt) higher in
          let root = Root-set_below fuel r (at p v) (omega arith) (forest.closed v lt) rest in
          up (rw (at-set_ne p u g v ne) root)
    ]
  ]

  -- Such a store leaves every root as it was.
  pub Root-set : (r v : ℕ) → v < n → Root p r v → Root (set p u g) r v
  Root-set r v h root = Root-set_below n r v (height-lt forest v h) h root

module _ {prio : List ℕ} {n : ℕ} {p : List ℕ} (forest : IsForest prio n p) (u : ℕ)
    (item : u < n) where
  not_own_parent : outranks prio (at p u) u ≡ true → at p u ≢ u
  not_own_parent above self =
      let same = ap (λ (w : ℕ). outranks prio w u) self in
      cc (sym above ∙ same ∙ outranks_irrefl prio u)

  -- The store of `find_root`: the grandparent.
  pub halving-CanStore : CanStore prio n p u (at p (at p u))
  halving-CanStore = record {
    item = item;
    target = forest.closed (at p u) (forest.closed u item);
    above = elim (forest.rises u item) [
      | inl self ↦ inl (self, ap (at p) self ∙ self)
      | inr above ↦ inr (
        not_own_parent above,
        elim (forest.rises (at p u) (forest.closed u item)) [
          | inl top ↦ rw top above
          | inr higher ↦ outranks_trans prio (at p (at p u)) (at p u) u higher above
        ],
      )
    ];
    same = λ r root. Root-parent (Root-parent root);
  }

-- A search that returned a root, and left a forest with the same roots.
pub record Found (prio : List ℕ) (n : ℕ) (p : List ℕ) (u : ℕ) (result : Option (List ℕ × ℕ))
    : Type 0 where
  pub out : List ℕ
  pub root : ℕ
  pub returns : result ≡ some (out, root)
  pub forest : IsForest prio n out
  pub leads : Root p root u
  pub keeps : (r v : ℕ) → v < n → Root p r v → Root out r v

-- The rest of the search, after one halving.
Found-step :
    {prio : List ℕ} {n : ℕ} (fuel : ℕ) (p : List ℕ) (u : ℕ)
    → IsForest prio n p
    → u < n
    → (at p (at p u) == at p u) ≡ false
    → (let p' = set p u (at p (at p u)) in Found prio n p' (at p' u) (find_loop fuel p' (at p' u)))
    → Found prio n p u (find_loop (suc fuel) p u)
unfolding find_loop
Found-step {prio} {n} fuel p u forest item go rest =
    let can = halving-CanStore forest u item in
    let (r, _, root) = Root-of forest u item in
    let same = Root-unique (Root-parent (Root-set forest can r u item root)) rest.leads in
    rw go (record {
      out = rest.out;
      root = rest.root;
      returns = rest.returns;
      forest = rest.forest;
      leads = subst (λ t. Root p t u) same root;
      keeps = λ r' v h path. rest.keeps r' v h (Root-set forest can r' v h path);
    })

climbs :
    {prio : List ℕ} {n : ℕ} {p : List ℕ} (forest : IsForest prio n p) (u : ℕ) (item : u < n)
    → at p (at p u) ≢ at p u
    → height prio n (at p (at p u)) < height prio n u
climbs {p} forest u item ne =
    let can = halving-CanStore forest u item in
    elim can.above [
      | inl (self, back) ↦ absurd (ne (back ∙ sym self))
      | inr (_, higher) ↦ height-outranks forest (at p (at p u)) u can.target higher
    ]

-- With more fuel than the items above `u` the loop ends.
pub find_loop-Found :
    {prio : List ℕ} {n : ℕ} (fuel : ℕ) (p : List ℕ) (u : ℕ)
    → IsForest prio n p
    → u < n
    → height prio n u < fuel
    → Found prio n p u (find_loop fuel p u)
find_loop-Found zero p u forest item h = absurd (omega arith)
find_loop-Found {prio} {n} (suc fuel) p u forest item h =
    elim (Bool-cases (at p (at p u) == at p u)) [
      | inl stop ↦ record {
        out = p;
        root = at p u;
        returns = unfold find_loop in rw stop;
        forest = forest;
        leads = up (here refl (==→eq _ _ stop));
        keeps = λ r v h path. path;
      }
      | inr go ↦
          let p' = set p u (at p (at p u)) in
          let can = halving-CanStore forest u item in
          let moved : at p' u ≡ at p (at p u) = stored forest can in
          let closer = climbs forest u item (==-false→ne _ _ go) in
          Found-step fuel p u forest item go (
            find_loop-Found fuel p' (at p' u) (set-IsForest forest can) (rw moved can.target)
              (rw moved (omega arith)))
    ]
