-- ===== src/Discovery/Ring.antt =====
-- crates/grimoire-gateway/src/discovery.rs: FNV-1a and the ring of consistent hashing. The sort and
-- the search of the standard library choose freely among equal points, so they are an argument, with
-- what their documentation promises.
use Prim.Native.Nat.{bit_xor}
use grimoire.Prelude.{
  ℕ, zero, suc, ◌+◌, ◌*◌, ◌/◌, ◌%◌, ◌^◌, ◌<◌, ◌≤◌, ◌≡◌, Option, none, some, List, [], ◌∷◌, ◌++◌,
  length, get_elem?, Has, codes, decimal, utf8,
}
use mathlib.Core.Option
use grimoire.Registry.{NodeInfo}

unfoldable pub fnv_step : ℕ → ℕ → ℕ
fnv_step h b = bit_xor h b * 0x01000193 % 2 ^ 32

unfoldable pub fnv_from : ℕ → List ℕ → ℕ
fnv_from h [] = h
fnv_from h (b ∷ bytes) = fnv_from (fnv_step h b) bytes

unfoldable pub fnv1a : List ℕ → ℕ
unfolding fnv_from fnv_step
fnv1a bytes = fnv_from 0x811c9dc5 bytes

-- A point of the circle and the index of the node that it belongs to.
abbrev pub Point : Type 0
Point = ℕ × ℕ

abbrev pub IsSorted : List Point → Type 0
IsSorted ring =
    (i j : ℕ) (p q : Point)
    → i ≤ j
    → get_elem? ring i ≡ some p
    → get_elem? ring j ≡ some q
    → p.0 ≤ q.0

-- `Result<usize, usize>`: where the key is, or where it could be put.
pub data Found : Type 0 where
  hit insertion : ℕ → Found

-- `sort_unstable_by_key` and `binary_search_by_key` on the points.
pub record Slices : Type 0 where
  pub sort : List Point → List Point
  pub sort-IsSorted : (ring : List Point) → IsSorted (sort ring)
  pub sort-Has : (ring : List Point) (p : Point) → Has p (sort ring) → Has p ring
  pub Has-sort : (ring : List Point) (p : Point) → Has p ring → Has p (sort ring)
  pub binary_search : ℕ → List Point → Found
  pub hit_lem :
      (h i : ℕ) (ring : List Point)
      → IsSorted ring
      → binary_search h ring ≡ hit i
      → (idx : ℕ) × (get_elem? ring i ≡ some (h, idx))
  pub insertion_lem :
      (h i : ℕ) (ring : List Point)
      → IsSorted ring
      → binary_search h ring ≡ insertion i
      → (i ≤ length ring)
        × ((j : ℕ) (p : Point) → j < i → get_elem? ring j ≡ some p → p.0 < h)
        × ((j : ℕ) (p : Point) → i ≤ j → get_elem? ring j ≡ some p → h < p.0)

abbrev pub virtual_points : ℕ
virtual_points = 100

-- Virtual point `v` of a node: the hash of its name, `#` and the number.
unfoldable pub point : NodeInfo → ℕ → ℕ
point n v = fnv1a (utf8 (n.node_id ++ (codes "#" ++ decimal 10 v)))

-- The points `v` and on of a node, as many as are left.
unfoldable pub node_points : ℕ → NodeInfo → ℕ → ℕ → List Point
node_points idx n v zero = []
node_points idx n v (suc left) = (point n v, idx) ∷ node_points idx n (v + 1) left

unfoldable pub ring_points : ℕ → List NodeInfo → List Point
ring_points idx [] = []
ring_points idx (n ∷ ns) = node_points idx n 0 virtual_points ++ ring_points (idx + 1) ns

-- `to_le_bytes`
abbrev pub le_bytes : ℕ → List ℕ
le_bytes k = (k % 256) ∷ (k / 256 % 256) ∷ (k / 65536 % 256) ∷ (k / 16777216 % 256) ∷ []

abbrev pub key_hash : ℕ → ℕ
key_hash key = fnv1a (le_bytes key)

module _ (sl : Slices) where
  unfoldable pub build : List NodeInfo → List Point
  build nodes = sl.sort (ring_points 0 nodes)

  -- The entry at an index; none is a panic.
  unfoldable pub entry : List Point → Found → Option Point
  entry ring (hit i) = get_elem? ring i
  entry ring (insertion i) = get_elem? ring (i % length ring)

  unfoldable pub pick : List Point → ℕ → Option ℕ
  pick [] key = some 0
  pick (p ∷ ring) key =
      Option.map (λ e. e.1) (entry (p ∷ ring) (sl.binary_search (key_hash key) (p ∷ ring)))

  -- The node that a key goes to, over a fresh ring.
  unfoldable pub chosen : List NodeInfo → ℕ → Option NodeInfo
  chosen nodes key = elim (pick (build nodes) key) [ none ↦ none | some i ↦ get_elem? nodes i ]
