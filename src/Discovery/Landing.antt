-- ===== src/Discovery/Landing.antt =====
-- Where the search of the ring lands, and whose points stand in it.
use grimoire.Prelude.{
  ℕ, ◌%◌, ◌<◌, ◌≤◌, ◌≡◌, ◌⊎◌, inl, inr, refl, sym, ap, ◌∙◌, subst, arith, some, List, [], ◌∷◌,
  length, get_elem?, Has, get_elem?-Has, Has-get_elem?, get_elem?-lt, lt-get_elem?,
}
use native.Mathlib.Decide.{dec_lt}
use grimoire.Registry.{NodeInfo}
use grimoire.Discovery.Ring.{
  Point, IsSorted, Found, hit, insertion, Slices, point, ring_points, key_hash, build, entry, pick,
}
use grimoire.Discovery.Owner.{HasPoint, ring_points-inv, Has-ring_points}

-- The entry of a ring that the search for `h` leads to.
abbrev pub Lands : ℕ → List Point → Point → Type 0
Lands h ring e =
    ((h ≤ e.0) × ((j : ℕ) (q : Point) → get_elem? ring j ≡ some q → h ≤ q.0 → e.0 ≤ q.0))
    ⊎ (((j : ℕ) (q : Point) → get_elem? ring j ≡ some q → q.0 < h)
        × ((j : ℕ) (q : Point) → get_elem? ring j ≡ some q → e.0 ≤ q.0))

module _ (sl : Slices) where
  Lands-insertion :
      (h i : ℕ) (ring : List Point)
      → IsSorted ring
      → 0 < length ring
      → sl.binary_search h ring ≡ insertion i
      → (e : Point) × (k : ℕ) × (get_elem? ring k ≡ some e)
        × (entry sl ring (insertion i) ≡ some e)
        × Lands h ring e
  unfolding entry
  Lands-insertion h i ring sorted some_point found =
      let (within, before, after) = sl.insertion_lem h i ring sorted found in
      elim (dec_lt i (length ring)) [
        | yes inside ↦
            let (e, g) = get_elem?-lt i ring inside in
            let same : i % length ring ≡ i = grind arith in
            (
              e,
              i,
              g,
              ap (get_elem? ring) same ∙ g,
              inl (
                ground (arith, after i e),
                λ j q t above. sorted i j e q (ground (arith, before j q)) g t,
              ),
            )
        | no outside ↦
            let (e, g) = get_elem?-lt 0 ring some_point in
            let start : i % length ring ≡ 0 = grind arith in
            (
              e,
              0,
              g,
              ap (get_elem? ring) start ∙ g,
              inr (
                λ j q t. before j q (omega (arith, lt-get_elem? j q ring t)) t,
                λ j q t. sorted 0 j e q (omega arith) g t,
              ),
            )
      ]

  Lands-hit :
      (h i : ℕ) (ring : List Point)
      → IsSorted ring
      → sl.binary_search h ring ≡ hit i
      → (e : Point) × (k : ℕ) × (get_elem? ring k ≡ some e)
        × (entry sl ring (hit i) ≡ some e)
        × Lands h ring e
  unfolding entry
  Lands-hit h i ring sorted found =
      let (idx, g) = sl.hit_lem h i ring sorted found in
      ((h, idx), i, g, g, inl (omega arith, λ j q t above. above))

  pub pick-Lands :
      (ring : List Point) (key : ℕ)
      → IsSorted ring
      → 0 < length ring
      → (e : Point) × (k : ℕ) × (get_elem? ring k ≡ some e)
        × (pick sl ring key ≡ some e.1)
        × Lands (key_hash key) ring e
  unfolding pick
  pick-Lands [] key sorted h = absurd (omega arith)
  pick-Lands (r ∷ rs) key sorted h = go (sl.binary_search (key_hash key) (r ∷ rs)) refl
    where
      go :
          (f : Found)
          → sl.binary_search (key_hash key) (r ∷ rs) ≡ f
          → (e : Point) × (k : ℕ) × (get_elem? (r ∷ rs) k ≡ some e)
            × (pick sl (r ∷ rs) key ≡ some e.1)
            × Lands (key_hash key) (r ∷ rs) e
      go (hit i) q =
          let (e, k, g, t, l) = Lands-hit (key_hash key) i (r ∷ rs) sorted q in
          (e, k, g, rw q (rw t refl), l)
      go (insertion i) q =
          let (e, k, g, t, l) = Lands-insertion (key_hash key) i (r ∷ rs) sorted h q in
          (e, k, g, rw q (rw t refl), l)

  -- A point of a node stands in the ring built over the nodes.
  pub HasPoint-build :
      (nodes : List NodeInfo) (q : ℕ) (m : NodeInfo)
      → HasPoint nodes q m
      → (j : ℕ) × (x : Point) × (get_elem? (build sl nodes) j ≡ some x) × (x.0 ≡ q)
  unfolding build
  HasPoint-build nodes q m (h, v, b, e) =
      let (k, g) = Has-get_elem? m nodes h in
      let x : Point = (point m v, k) in
      let there = sl.Has-sort (ring_points 0 nodes) x (
        subst (λ (t : ℕ). Has (point m v, t) (ring_points 0 nodes)) (omega arith)
          (Has-ring_points 0 k v nodes m g b)) in
      let (j, t) = Has-get_elem? x (build sl nodes) there in (j, x, t, sym e)

  pub build-HasPoint :
      (nodes : List NodeInfo) (j : ℕ) (x : Point)
      → get_elem? (build sl nodes) j ≡ some x
      → (m : NodeInfo) × (get_elem? nodes x.1 ≡ some m) × HasPoint nodes x.0 m
  unfolding build
  build-HasPoint nodes j x g =
      let there = sl.sort-Has (ring_points 0 nodes) x (get_elem?-Has j x (build sl nodes) g) in
      let (i, m, t, w, b, e) = ring_points-inv 0 nodes x there in
      let at : x.1 ≡ i = ap (λ (y : Point). y.1) e ∙ omega arith in
      (m, ap (get_elem? nodes) at ∙ t, (get_elem?-Has i m nodes t, w, b, ap (λ (y : Point). y.0) e))
