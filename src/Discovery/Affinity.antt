-- ===== src/Discovery/Affinity.antt =====
-- Keys stay with their nodes: a key's node is the owner of its place on the circle, in whatever
-- order the registry lists the nodes and whichever other nodes come and go.
use grimoire.Prelude.{
  ℕ, ◌<◌, ◌≤◌, ◌≡◌, ◌⊎◌, inl, inr, refl, sym, ap, ◌∙◌, subst, arith, some, List, [], ◌∷◌, length,
  Has, get_elem?-Has, get_elem?-lt, lt-get_elem?,
}
use grimoire.Registry.{NodeInfo}
use grimoire.Discovery.Ring.{Point, IsSorted, Slices, point, ring_points, key_hash, build, chosen}
use grimoire.Discovery.Owner.{HasPoint, IsOwner}
use grimoire.Discovery.Landing.{Lands, pick-Lands, HasPoint-build, build-HasPoint}

Has-length : (n : NodeInfo) (nodes : List NodeInfo) → Has n nodes → 0 < length nodes
Has-length n [] h = elim h [ ]
Has-length n (m ∷ ms) h = omega arith

-- No point belongs to two of the nodes.
abbrev pub IsSeparate : List NodeInfo → Type 0
IsSeparate nodes = (p : ℕ) (n m : NodeInfo) → HasPoint nodes p n → HasPoint nodes p m → n ≡ m

-- Two owners of one place have the same point, so they are one.
IsOwner-unique :
    (h : ℕ) (nodes : List NodeInfo) (n m : NodeInfo)
    → IsSeparate nodes
    → IsOwner h nodes n
    → IsOwner h nodes m
    → n ≡ m
IsOwner-unique h nodes n m apart (p, a, inl (above, least)) (q, b, inl (above', least')) =
    apart p n m a (
      subst (λ (t : ℕ). HasPoint nodes t m) (omega (arith, least q m b above', least' p n a above))
        b)
IsOwner-unique h nodes n m apart (p, a, inl (above, least)) (q, b, inr (below, least')) =
    absurd (omega (arith, below p n a))
IsOwner-unique h nodes n m apart (p, a, inr (below, least)) (q, b, inl (above', least')) =
    absurd (omega (arith, below q m b))
IsOwner-unique h nodes n m apart (p, a, inr (below, least)) (q, b, inr (below', least')) =
    apart p n m a
      (subst (λ (t : ℕ). HasPoint nodes t m) (omega (arith, least q m b, least' p n a)) b)

-- An owner that is among fewer nodes owns the place among them too.
IsOwner-shrinks :
    (h : ℕ) (nodes fewer : List NodeInfo) (n : NodeInfo)
    → ((m : NodeInfo) → Has m fewer → Has m nodes)
    → Has n fewer
    → IsOwner h nodes n
    → IsOwner h fewer n
IsOwner-shrinks h nodes fewer n within there (p, (x, v, b, e), l) = (p, (there, v, b, e), still l)
  where
    still :
        ((h ≤ p) × ((q : ℕ) (m : NodeInfo) → HasPoint nodes q m → h ≤ q → p ≤ q))
          ⊎ (((q : ℕ) (m : NodeInfo) → HasPoint nodes q m → q < h)
              × ((q : ℕ) (m : NodeInfo) → HasPoint nodes q m → p ≤ q))
        → ((h ≤ p) × ((q : ℕ) (m : NodeInfo) → HasPoint fewer q m → h ≤ q → p ≤ q))
          ⊎ (((q : ℕ) (m : NodeInfo) → HasPoint fewer q m → q < h)
              × ((q : ℕ) (m : NodeInfo) → HasPoint fewer q m → p ≤ q))
    still (inl (above, least)) = inl (above, λ q m (y, w, c, f). least q m (within m y, w, c, f))
    still (inr (below, least)) = inr (
      λ q m (y, w, c, f). below q m (within m y, w, c, f),
      λ q m (y, w, c, f). least q m (within m y, w, c, f),
    )

module _ (sl : Slices) where
  Lands-IsOwner :
      (nodes : List NodeInfo) (h : ℕ) (e : Point) (n : NodeInfo)
      → HasPoint nodes e.0 n
      → Lands h (build sl nodes) e
      → IsOwner h nodes n
  Lands-IsOwner nodes h e n own (inl (above, least)) = (
    e.0,
    own,
    inl (
      above,
      λ q m t l.
          let (j, x, g, same) = HasPoint-build sl nodes q m t in
          subst (λ (r : ℕ). e.0 ≤ r) same (least j x g (subst (λ (r : ℕ). h ≤ r) (sym same) l)),
    ),
  )
  Lands-IsOwner nodes h e n own (inr (below, least)) = (
    e.0,
    own,
    inr (
      λ q m t.
          let (j, x, g, same) = HasPoint-build sl nodes q m t in
          subst (λ (r : ℕ). r < h) same (below j x g),
      λ q m t.
          let (j, x, g, same) = HasPoint-build sl nodes q m t in
          subst (λ (r : ℕ). e.0 ≤ r) same (least j x g),
    ),
  )

  build-IsSorted : (nodes : List NodeInfo) → IsSorted (build sl nodes)
  unfolding build
  build-IsSorted nodes = sl.sort-IsSorted (ring_points 0 nodes)

  build_inhabited : (nodes : List NodeInfo) → 0 < length nodes → 0 < length (build sl nodes)
  build_inhabited nodes h =
      let (n, g) = get_elem?-lt 0 nodes h in
      let (j, x, t, e) =
        HasPoint-build sl nodes (point n 0) n (get_elem?-Has 0 n nodes g, 0, omega arith, refl) in
      omega (arith, lt-get_elem? j x (build sl nodes) t)

  -- The ring finds what it is meant to: where there are nodes, each key is given one of them, the
  -- owner of the nodes' first point at or after the key's hash, or of the first of all where there
  -- is none. No index is out of range on the way.
  pub chosen-IsOwner :
      (nodes : List NodeInfo) (key : ℕ)
      → 0 < length nodes
      → (n : NodeInfo) × (chosen sl nodes key ≡ some n)
        × Has n nodes
        × IsOwner (key_hash key) nodes n
  unfolding chosen
  chosen-IsOwner nodes key some_node =
      let (e, k, g, t, l) =
        pick-Lands sl (build sl nodes) key (build-IsSorted nodes)
          (build_inhabited nodes some_node) in
      let (n, found, own) = build-HasPoint sl nodes k e g in
      (n, rw (t, chosen) found, own.0, Lands-IsOwner nodes (key_hash key) e n own l)

  -- Of the nodes that are listed before and after a change of the list, each keeps its keys: a key
  -- that was given a node still in the list goes there again, as long as every node now listed was
  -- listed before, and no point of the circle belongs to two of them. So the order of the list is
  -- of no account, and a node's going moves no key of another node.
  pub chosen-keeps :
      (before after : List NodeInfo) (key : ℕ) (n : NodeInfo)
      → ((m : NodeInfo) → Has m after → Has m before)
      → IsSeparate after
      → Has n after
      → chosen sl before key ≡ some n
      → chosen sl after key ≡ some n
  chosen-keeps before after key n within apart there h =
      let (m, q, x, own) = chosen-IsOwner before key (Has-length n before (within n there)) in
      let (m', q', x', own') = chosen-IsOwner after key (Has-length n after there) in
      let same : m ≡ n = ground arith in
      let one = IsOwner-unique (key_hash key) after m' n apart own' (
        IsOwner-shrinks (key_hash key) before after n within there
          (subst (IsOwner (key_hash key) before) same own)) in
      q' ∙ ap some one
