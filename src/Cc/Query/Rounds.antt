-- ===== src/Cc/Query/Rounds.antt =====
-- `CCSketchAlg::run_round_zero` (src/cc_sketch_alg.cpp) on sketches whose good samples are edges
-- of the graph.
use graph_streaming_cc.Prelude.{
  ℕ, zero, suc, ◌<◌, ◌≡◌, ◌≢◌, refl, sym, ap, subst, ◌∙◌, inl, inr, arith, Bool, true, false,
  Option, some, List, [], ◌∷◌, get_or, modify, replicate, length, length-modify, length-replicate,
  map, get_or-replicate, lt→ltb,
}
use graph_streaming_cc.Util.{Edge, low_of, high_of, inv_concat_pairing_fn}
use graph_streaming_cc.Graph.{EdgeSet, Linked, stop}
use graph_streaming_cc.Bucket.{Hashes}
use graph_streaming_cc.Sketch.{Sketch, SampleResult, SketchSample}
use graph_streaming_cc.Sketch.Sample.{query}
use graph_streaming_cc.Sketch.Sample.Results.{sample_lem}
use graph_streaming_cc.Sketch.Sample.Window.{query-AgreeAt}
use graph_streaming_cc.Sketch.Update.{Algorithm}
use graph_streaming_cc.Dsu.Sets.{reset_lem, reset_alone, n-reset}
use graph_streaming_cc.Dsu.Merge.Weak.{merge_mt_lem}
use graph_streaming_cc.Cc.{CcSketchAlg, contains, empty_sketch}
use graph_streaming_cc.Cc.Stored.{in_forest}
use graph_streaming_cc.Cc.Query.{
  Supernode, sampled_edge, merge_sample, use_sample, after_sample, start_boruvka, sample_supernode,
  RoundState, keep_sample, round_zero_step, round_zero_loop, run_round_zero,
}
use graph_streaming_cc.Cc.Query.Forest.{
  InStep, sampled_edge-InStep, sampled_edge-inside, sampled_edge-sketches,
  sampled_edge-num_vertices, sampled_edge-skt,
}

-- A predicate of each element.
pub data Each {ℓ ℓ'} {A : Type ℓ} (P : A → Type ℓ') : List A → Type (ℓ ⊔ ℓ') where
  no_more : Each P []
  each : (x : A) (xs : List A) → P x → Each P xs → Each P (x ∷ xs)

pub Each-get_or {ℓ ℓ'} :
    {A : Type ℓ} {P : A → Type ℓ'} (xs : List A) (i : ℕ) (d : A)
    → Each P xs
    → i < length xs
    → P (get_or xs i d)
Each-get_or [] i d no_more h = absurd (omega arith)
Each-get_or (x ∷ xs) zero d (each _ _ p ps) h = p
Each-get_or (x ∷ xs) (suc i) d (each _ _ p ps) h = Each-get_or xs i d ps (omega arith)

pub Each-modify {ℓ ℓ'} :
    {A : Type ℓ} {P : A → Type ℓ'} (xs : List A) (i : ℕ) (f : A → A)
    → ((a : A) → P a → P (f a))
    → Each P xs
    → Each P (modify xs i f)
Each-modify [] i f keeps no_more = no_more
Each-modify (x ∷ xs) zero f keeps (each _ _ q ps) = each (f x) xs (keeps x q) ps
Each-modify (x ∷ xs) (suc i) f keeps (each _ _ q ps) =
    each x (modify xs i f) q (Each-modify xs i f keeps ps)

pub Each-map {ℓ ℓ'} :
    {A : Type ℓ} {P : A → Type ℓ'} (xs : List A) (f : A → A)
    → ((a : A) → P a → P (f a))
    → Each P xs
    → Each P (map f xs)
Each-map [] f keeps no_more = no_more
Each-map (x ∷ xs) f keeps (each _ _ q ps) =
    each (f x) (map f xs) (keeps x q) (Each-map xs f keeps ps)

-- An edge of the graph `g` on `n` vertices.
pub record EdgeOf (g : EdgeSet) (n : ℕ) (e : Edge) : Type 0 where
  pub src_vertex : e.src < n
  pub dst_vertex : e.dst < n
  pub there : g (low_of e.src e.dst) (high_of e.src e.dst) ≡ true

module _ (hashes : Hashes) (alg : Algorithm) (g : EdgeSet) where
  -- Every good sample of the sketch is an edge of the graph.
  abbrev pub Honest : ℕ → Sketch → Type 0
  Honest n s =
      (k : ℕ)
      → (query hashes s k).result ≡ SampleResult.good
      → EdgeOf g n (inv_concat_pairing_fn (query hashes s k).idx)

  -- A property of sketches, given the number of vertices, that makes their good samples edges of
  -- the graph and that does not depend on how many samples have been taken.
  pub record Trusts (Q : ℕ → Sketch → Type 0) : Type 0 where
    pub good_edges : (n : ℕ) (s : Sketch) → Q n s → Honest n s
    pub any_idx : (n : ℕ) (s : Sketch) (i : ℕ) → Q n s → Q n (record s { sample_idx = i })

  Honest-idx : (n : ℕ) (s : Sketch) (i : ℕ) → Honest n s → Honest n (record s { sample_idx = i })
  Honest-idx n s i honest k =
      subst (λ q. q.result ≡ SampleResult.good → EdgeOf g n (inv_concat_pairing_fn q.idx))
        (sym (
          query-AgreeAt hashes k (record s { sample_idx = i }) s
            (record { shapes = refl; last = refl; window = λ j p q. refl })))
        (honest k)

  pub Honest-Trusts : Trusts Honest
  Honest-Trusts = record { good_edges = λ n s h. h; any_idx = Honest-idx }

module _ (hashes : Hashes) (alg : Algorithm) (g : EdgeSet) (Q : ℕ → Sketch → Type 0)
    (trust : Trusts hashes alg g Q) where
  pub record Sound (c : CcSketchAlg) : Type 0 where
    pub in_step : InStep c
    pub inside : (s d : ℕ) → in_forest c s d ≡ true → g s d ≡ true
    pub sketched : length c.sketches ≡ c.num_vertices
    pub honest : Each (Q c.num_vertices) c.sketches

  -- What `sample_supernode` gives for an honest sketch.
  pub record Gives (failures : List Bool) (c : CcSketchAlg) (skt : Sketch) : Type 0 where
    pub out : Supernode
    pub returns : sample_supernode hashes alg failures c skt ≡ some out
    pub in_step : InStep out.state
    pub inside : (s d : ℕ) → in_forest out.state s d ≡ true → g s d ≡ true
    pub same_sketches : out.state.sketches ≡ c.sketches
    pub same_vertices : out.state.num_vertices ≡ c.num_vertices
    pub honest : Q c.num_vertices out.skt

  module _ (failures : List Bool) (c : CcSketchAlg) (skt : Sketch) (s : Sound c)
      (honest : Q c.num_vertices skt) where
    abbrev taken : Sketch
    taken = record skt { sample_idx = suc skt.sample_idx }

    abbrev found : SketchSample
    found = query hashes skt skt.sample_idx

    taken-Honest : Q c.num_vertices taken
    taken-Honest = trust.any_idx c.num_vertices skt (suc skt.sample_idx) honest

    -- The state is as it was.
    unchanged :
        (skt' : Sketch) (modified except : Bool)
        → Q c.num_vertices skt'
        → sample_supernode hashes alg failures c skt
          ≡ some (record { state = c; skt = skt'; modified = modified; except = except })
        → Gives failures c skt
    unchanged skt' modified except h runs = record {
      out = record { state = c; skt = skt'; modified = modified; except = except };
      returns = runs;
      in_step = s.in_step;
      inside = s.inside;
      same_sketches = refl;
      same_vertices = refl;
      honest = h;
    }

    abbrev e : Edge
    e = inv_concat_pairing_fn found.idx

    good_sample :
        EdgeOf g c.num_vertices e
        → sample_supernode hashes alg failures c skt ≡ merge_sample failures c taken e
        → Gives failures c skt
    unfolding merge_sample
    good_sample edge runs =
        let t = s.in_step in
        let hs : e.src < c.dsu.n = rw t.items edge.src_vertex in
        let hd : e.dst < c.dsu.n = rw t.items edge.dst_vertex in
        let (d, ret, merges, m) = merge_mt_lem failures c.dsu e.src e.dst t.forest hs hd in
        record {
          out = sampled_edge c taken e (d, ret);
          returns = runs ∙ rw (lt→ltb e.src c.dsu.n hs, lt→ltb e.dst c.dsu.n hd, merges) refl;
          in_step = sampled_edge-InStep c t taken e d ret edge.src_vertex edge.dst_vertex m;
          inside =
              sampled_edge-inside c t taken e d ret edge.src_vertex edge.dst_vertex m g s.inside
                edge.there;
          same_sketches = sampled_edge-sketches c taken e d ret;
          same_vertices = sampled_edge-num_vertices c taken e d ret;
          honest = subst (Q c.num_vertices) (sym (sampled_edge-skt c taken e d ret)) taken-Honest;
        }

    by_result :
        (r : SampleResult)
        → found.result ≡ r
        → sample_supernode hashes alg failures c skt ≡ use_sample failures c taken found.idx r
        → Gives failures c skt
    unfolding use_sample
    by_result SampleResult.good is_r runs =
        good_sample (trust.good_edges c.num_vertices skt honest skt.sample_idx is_r) runs
    by_result SampleResult.zero is_r runs = unchanged taken false false taken-Honest runs
    by_result SampleResult.fail is_r runs = unchanged taken true false taken-Honest runs

    pub supernode-Gives : Gives failures c skt
    unfolding sample_supernode after_sample
    supernode-Gives = elim (sample_lem hashes skt) [
      | inl (_, out) ↦ unchanged skt false true honest (ap (after_sample failures c skt) out)
      | inr (_, taking) ↦ by_result found.result refl (ap (after_sample failures c skt) taking)
    ]

  -- A whole round.
  pub record RoundGives (c : CcSketchAlg) (out : Option (RoundState hashes alg)) : Type 0 where
    pub final : RoundState hashes alg
    pub returns : out ≡ some final
    pub sound : Sound final.state
    pub same_vertices : final.state.num_vertices ≡ c.num_vertices

  round_loop :
      (r : RoundState hashes alg) (order : List (ℕ × List Bool))
      → Sound r.state
      → Each (λ (p : ℕ × List Bool). p.0 < r.state.num_vertices) order
      → RoundGives r.state (round_zero_loop hashes alg r order)
  unfolding round_zero_loop round_zero_step keep_sample
  round_loop r [] s no_more = record { final = r; returns = refl; sound = s; same_vertices = refl }
  round_loop r ((i, failures) ∷ rest) s (each _ _ h hs) =
      let skt = get_or r.state.sketches i (empty_sketch hashes alg r.state) in
      let one = supernode-Gives failures r.state skt s (
        Each-get_or r.state.sketches i (empty_sketch hashes alg r.state) s.honest
          (omega (arith, s.sketched))) in
      let r' = keep_sample hashes alg r i one.out in
      let more = round_loop r' rest (kept r i skt failures s one) (rw one.same_vertices hs) in
      record {
        final = more.final;
        returns = rw one.returns more.returns;
        sound = more.sound;
        same_vertices = more.same_vertices ∙ one.same_vertices;
      }
    where
      kept :
          (r : RoundState hashes alg) (i : ℕ) (skt : Sketch) (failures : List Bool)
          → Sound r.state
          → (one : Gives failures r.state skt) → Sound (keep_sample hashes alg r i one.out).state
      kept r i skt failures s one = record {
        in_step = record {
          items = one.in_step.items;
          sized = one.in_step.sized;
          forest = one.in_step.forest;
          joined = one.in_step.joined;
          spans = one.in_step.spans;
        };
        inside = one.inside;
        sketched =
            length-modify one.out.state.sketches i (λ _. one.out.skt)
            ∙ ap length one.same_sketches
            ∙ s.sketched
            ∙ sym one.same_vertices;
        honest =
            Each-modify one.out.state.sketches i (λ _. one.out.skt)
              (λ s _. subst (λ n. Q n one.out.skt) (sym one.same_vertices) one.honest)
              (subst (λ n. Each (Q n) one.out.state.sketches) (sym one.same_vertices)
                (subst (Each (Q r.state.num_vertices)) (sym one.same_sketches) s.honest));
      }

  pub run_round_zero-Sound :
      (c : CcSketchAlg) (order : List (ℕ × List Bool))
      → Sound c
      → Each (λ (p : ℕ × List Bool). p.0 < c.num_vertices) order
      → RoundGives c (run_round_zero hashes alg c order)
  unfolding run_round_zero
  run_round_zero-Sound c order =
      round_loop (record { state = c; modified = false; except = false }) order

  pub start-Sound :
      (c : CcSketchAlg)
      → c.dsu.n ≡ c.num_vertices
      → length c.sketches ≡ c.num_vertices
      → Each (Q c.num_vertices) c.sketches
      → Sound (start_boruvka c)
  unfolding start_boruvka contains
  start-Sound c items sketched honest = record {
    in_step = record {
      items = n-reset c.dsu ∙ items;
      sized = length-replicate c.num_vertices [];
      forest = reset_lem c.dsu;
      joined = λ s d h. absurd (no_edge s d h);
      spans = λ x y hx hy same.
          subst (Linked _ x) (reset_alone c.dsu x y (rw items hx) (rw items hy) same) (stop x);
    };
    inside = λ s d h. absurd (no_edge s d h);
    sketched = sketched;
    honest = honest;
  }
    where
      false≢true : false ≢ true
      false≢true h = cc

      no_edge : (s d : ℕ) → ¬ (contains (get_or (replicate c.num_vertices []) s []) d ≡ true)
      no_edge s d h =
          false≢true (sym (ap (λ z. contains z d) (get_or-replicate c.num_vertices s [])) ∙ h)

  -- On a graph whose sketches are all there, with good samples that are edges of `g`, the first
  -- round of a query ends, in whatever order its iterations run. After it the sets of `dsu` are
  -- what the stored edges connect, and the stored edges are edges of `g`.
  pub run_round_zero_lem :
      (c : CcSketchAlg) (order : List (ℕ × List Bool))
      → c.dsu.n ≡ c.num_vertices
      → length c.sketches ≡ c.num_vertices
      → Each (Q c.num_vertices) c.sketches
      → Each (λ (p : ℕ × List Bool). p.0 < c.num_vertices) order
      → RoundGives (start_boruvka c) (run_round_zero hashes alg (start_boruvka c) order)
  unfolding start_boruvka
  run_round_zero_lem c order items sketched honest inside =
      run_round_zero-Sound (start_boruvka c) order (start-Sound c items sketched honest) inside
