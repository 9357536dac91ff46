-- ===== src/Discovery/Owner.antt =====
-- Which node a key belongs to: the owner of the first of the nodes' points at or after the key's
-- hash, and of the first of all where there is none.
use grimoire.Prelude.{
  ℕ, zero, suc, ◌+◌, ◌<◌, ◌≤◌, ◌≡◌, ◌⊎◌, inl, inr, refl, sym, ap, ◌∙◌, subst, arith, some, List, [],
  ◌∷◌, get_elem?, ℕ_discrete, Has, Has-append, Has-append_left, Has-append_right,
}
use grimoire.Registry.{NodeInfo}
use grimoire.Discovery.Ring.{Point, virtual_points, point, node_points, ring_points}

-- `p` is a point of node `n`, which is one of the nodes.
abbrev pub HasPoint : List NodeInfo → ℕ → NodeInfo → Type 0
HasPoint nodes p n = Has n nodes × (v : ℕ) × (v < virtual_points) × (p ≡ point n v)

abbrev pub IsOwner : ℕ → List NodeInfo → NodeInfo → Type 0
IsOwner h nodes n =
    (p : ℕ) × HasPoint nodes p n
    × (((h ≤ p) × ((q : ℕ) (m : NodeInfo) → HasPoint nodes q m → h ≤ q → p ≤ q))
        ⊎ (((q : ℕ) (m : NodeInfo) → HasPoint nodes q m → q < h)
            × ((q : ℕ) (m : NodeInfo) → HasPoint nodes q m → p ≤ q)))

node_points-inv :
    (idx : ℕ) (n : NodeInfo) (v left : ℕ) (e : Point)
    → Has e (node_points idx n v left)
    → (w : ℕ) × (w < v + left) × (e ≡ (point n w, idx))
unfolding node_points
node_points-inv idx n v zero e h = elim h [ ]
node_points-inv idx n v (suc left) e (inl q) = (v, omega arith, q)
node_points-inv idx n v (suc left) e (inr h) =
    let (w, b, q) = node_points-inv idx n (v + 1) left e h in (w, omega arith, q)

Has-node_points :
    (idx : ℕ) (n : NodeInfo) (v left w : ℕ)
    → v ≤ w
    → w < v + left
    → Has (point n w, idx) (node_points idx n v left)
unfolding node_points
Has-node_points idx n v zero w a b = absurd (omega arith)
Has-node_points idx n v (suc left) w a b = elim (ℕ_discrete v w) [
  | yes e ↦ inl (ap (λ (t : ℕ). (point n t, idx)) (sym e))
  | no ne ↦ inr (Has-node_points idx n (v + 1) left w (omega arith) (omega arith))
]

-- The points of the ring are the points of the nodes, each with its node's index.
pub ring_points-inv :
    (k : ℕ) (nodes : List NodeInfo) (e : Point)
    → Has e (ring_points k nodes)
    → (j : ℕ) × (n : NodeInfo) × (get_elem? nodes j ≡ some n)
      × (w : ℕ) × (w < virtual_points)
      × (e ≡ (point n w, k + j))
unfolding ring_points
ring_points-inv k [] e h = elim h [ ]
ring_points-inv k (n ∷ ns) e h =
    elim (Has-append e (node_points k n 0 virtual_points) (ring_points (k + 1) ns) h) [
      | inl a ↦
          let (w, b, q) = node_points-inv k n 0 virtual_points e a in
          (0, n, refl, w, omega arith, q ∙ ap (λ (t : ℕ). (point n w, t)) (omega arith))
      | inr a ↦
          let (j, m, g, w, b, q) = ring_points-inv (k + 1) ns e a in
          (suc j, m, g, w, b, q ∙ ap (λ (t : ℕ). (point m w, t)) (omega arith))
    ]

pub Has-ring_points :
    (k j w : ℕ) (nodes : List NodeInfo) (n : NodeInfo)
    → get_elem? nodes j ≡ some n
    → w < virtual_points
    → Has (point n w, k + j) (ring_points k nodes)
unfolding ring_points
Has-ring_points k j w [] n g b = absurd (ground arith)
Has-ring_points k zero w (m ∷ ms) n g b =
    let same : m ≡ n = ground arith in
    Has-append_left (point n w, k + 0) (node_points k m 0 virtual_points) (ring_points (k + 1) ms)
      (subst (λ (t : ℕ). Has (point n w, t) (node_points k m 0 virtual_points)) (omega arith)
        (subst (λ (t : NodeInfo). Has (point t w, k) (node_points k m 0 virtual_points)) same
          (Has-node_points k m 0 virtual_points w (omega arith) (omega arith))))
Has-ring_points k (suc j) w (m ∷ ms) n g b =
    Has-append_right (point n w, k + suc j) (node_points k m 0 virtual_points)
      (ring_points (k + 1) ms)
      (subst (λ (t : ℕ). Has (point n w, t) (ring_points (k + 1) ms)) (omega arith)
        (Has-ring_points (k + 1) j w ms n g b))
