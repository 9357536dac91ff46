-- ===== src/Discovery/Standard.antt =====
-- A sort and a search that keep what the standard library promises.
use grimoire.Prelude.{
  ℕ, zero, suc, ◌+◌, ◌<◌, ◌≤◌, ◌≡◌, ◌⊎◌, inl, inr, refl, sym, subst, arith, leb, leb→le,
  leb_false→lt, ltb, ltb→lt, ◌==◌, Bool, true, false, if◌then◌else◌, some, List, [], ◌∷◌, length,
  get_elem?, Has, get_elem?-Has, Bool-cases,
}
use grimoire.Discovery.Ring.{Point, IsSorted, Found, hit, insertion, Slices}

abbrev place : Bool → Point → Point → List Point → List Point → List Point
place true p q ring rest = p ∷ q ∷ ring
place false p q ring rest = q ∷ rest

abbrev put : Point → List Point → List Point
put p [] = p ∷ []
put p (q ∷ ring) = place (leb p.0 q.0) p q ring (put p ring)

abbrev sort : List Point → List Point
sort [] = []
sort (p ∷ ring) = put p (sort ring)

place-Has :
    (b : Bool) (p q : Point) (ring rest : List Point) (x : Point)
    → (Has x rest → (x ≡ p) ⊎ Has x ring)
    → Has x (place b p q ring rest)
    → (x ≡ p) ⊎ Has x (q ∷ ring)
place-Has true p q ring rest x ih h = h
place-Has false p q ring rest x ih (inl e) = inr (inl e)
place-Has false p q ring rest x ih (inr h) = elim (ih h) [ inl e ↦ inl e | inr m ↦ inr (inr m) ]

Has-place :
    (b : Bool) (p q : Point) (ring rest : List Point) (x : Point)
    → ((x ≡ p) ⊎ Has x ring → Has x rest)
    → (x ≡ p) ⊎ Has x (q ∷ ring)
    → Has x (place b p q ring rest)
Has-place true p q ring rest x ih h = h
Has-place false p q ring rest x ih (inl e) = inr (ih (inl e))
Has-place false p q ring rest x ih (inr (inl e)) = inl e
Has-place false p q ring rest x ih (inr (inr h)) = inr (ih (inr h))

put-Has : (p : Point) (ring : List Point) (x : Point) → Has x (put p ring) → (x ≡ p) ⊎ Has x ring
put-Has p [] x h = h
put-Has p (q ∷ ring) x h = place-Has (leb p.0 q.0) p q ring (put p ring) x (put-Has p ring x) h

Has-put : (p : Point) (ring : List Point) (x : Point) → (x ≡ p) ⊎ Has x ring → Has x (put p ring)
Has-put p [] x h = h
Has-put p (q ∷ ring) x h = Has-place (leb p.0 q.0) p q ring (put p ring) x (Has-put p ring x) h

pub sort-Has : (ring : List Point) (x : Point) → Has x (sort ring) → Has x ring
sort-Has [] x h = h
sort-Has (p ∷ ring) x h = elim (put-Has p (sort ring) x h) [
  | inl e ↦ inl e
  | inr m ↦ inr (sort-Has ring x m)
]

pub Has-sort : (ring : List Point) (x : Point) → Has x ring → Has x (sort ring)
Has-sort [] x h = h
Has-sort (p ∷ ring) x (inl e) = Has-put p (sort ring) x (inl e)
Has-sort (p ∷ ring) x (inr h) = Has-put p (sort ring) x (inr (Has-sort ring x h))

-- Each point is before those behind it.
abbrev Ordered : List Point → Type 0
Ordered [] = Unit
Ordered (p ∷ ring) = ((q : Point) → Has q ring → p.0 ≤ q.0) × Ordered ring

place-Ordered :
    (b : Bool) (p q : Point) (ring rest : List Point)
    → leb p.0 q.0 ≡ b
    → Ordered (q ∷ ring)
    → Ordered rest
    → ((x : Point) → Has x rest → (x ≡ p) ⊎ Has x ring)
    → Ordered (place b p q ring rest)
place-Ordered true p q ring rest t o r ih = (first, o)
  where
    first : (x : Point) → (x ≡ q) ⊎ Has x ring → p.0 ≤ x.0
    first x (inl e) = subst (λ (y : Point). p.0 ≤ y.0) (sym e) (leb→le p.0 q.0 t)
    first x (inr h) = omega (arith, leb→le p.0 q.0 t, o.0 x h)
place-Ordered false p q ring rest t o r ih = (λ x h. first x (ih x h), r)
  where
    first : (x : Point) → (x ≡ p) ⊎ Has x ring → q.0 ≤ x.0
    first x (inl e) =
        subst (λ (y : Point). q.0 ≤ y.0) (sym e) (omega (arith, leb_false→lt p.0 q.0 t))
    first x (inr h) = o.0 x h

put-Ordered : (p : Point) (ring : List Point) → Ordered ring → Ordered (put p ring)
put-Ordered p [] o = (λ q h. elim h [ ], tt)
put-Ordered p (q ∷ ring) o =
    place-Ordered (leb p.0 q.0) p q ring (put p ring) refl o (put-Ordered p ring o.1)
      (put-Has p ring)

pub sort-Ordered : (ring : List Point) → Ordered (sort ring)
sort-Ordered [] = tt
sort-Ordered (p ∷ ring) = put-Ordered p (sort ring) (sort-Ordered ring)

pub Ordered-IsSorted : (ring : List Point) → Ordered ring → IsSorted ring
Ordered-IsSorted [] o i j p q l g h = absurd (ground arith)
Ordered-IsSorted (r ∷ ring) o zero zero p q l g h = ground arith
Ordered-IsSorted (r ∷ ring) o zero (suc j) p q l g h =
    let same : r ≡ p = ground arith in
    subst (λ (y : Point). y.0 ≤ q.0) same (o.0 q (get_elem?-Has j q ring h))
Ordered-IsSorted (r ∷ ring) o (suc i) zero p q l g h = absurd (omega arith)
Ordered-IsSorted (r ∷ ring) o (suc i) (suc j) p q l g h =
    Ordered-IsSorted ring o.1 i j p q (omega arith) g h

-- The first place that is not before the key.
abbrev search_from : ℕ → ℕ → List Point → Found
search_from h i [] = insertion i
search_from h i (p ∷ ring) =
    let rest = search_from h (i + 1) ring in
    if p.0 == h then hit i else if ltb h p.0 then insertion i else rest

search_from-hit :
    (h i j : ℕ) (ring : List Point)
    → search_from h i ring ≡ hit j
    → (k : ℕ) × (idx : ℕ) × (j ≡ i + k) × (get_elem? ring k ≡ some (h, idx))
search_from-hit h i j [] e = absurd (ground arith)
search_from-hit h i j (p ∷ ring) e = elim (Bool-cases (p.0 == h)) [
  | inl t ↦ (0, p.1, ground arith, ground arith)
  | inr t ↦
      let (k, idx, a, b) = search_from-hit h (i + 1) j ring (ground arith) in
      (suc k, idx, omega arith, b)
]

-- All that stands before `k` is below the key, all else above it.
abbrev Parts : ℕ → ℕ → List Point → Type 0
Parts h k ring =
    (k ≤ length ring)
    × ((j : ℕ) (p : Point) → j < k → get_elem? ring j ≡ some p → p.0 < h)
    × ((j : ℕ) (p : Point) → k ≤ j → get_elem? ring j ≡ some p → h < p.0)

Parts-cons :
    (h k : ℕ) (p : Point) (ring : List Point)
    → p.0 < h
    → Parts h k ring
    → Parts h (suc k) (p ∷ ring)
Parts-cons h k p ring small (a, b, c) = (omega arith, before, after)
  where
    before : (j : ℕ) (q : Point) → j < suc k → get_elem? (p ∷ ring) j ≡ some q → q.0 < h
    before zero q l g = ground arith
    before (suc j) q l g = b j q (omega arith) g

    after : (j : ℕ) (q : Point) → suc k ≤ j → get_elem? (p ∷ ring) j ≡ some q → h < q.0
    after zero q l g = absurd (omega arith)
    after (suc j) q l g = c j q (omega arith) g

search_from-insertion :
    (h i j : ℕ) (ring : List Point)
    → IsSorted ring
    → search_from h i ring ≡ insertion j
    → (k : ℕ) × (j ≡ i + k) × Parts h k ring
search_from-insertion h i j [] o e = (
  0,
  ground arith,
  (omega arith, λ k p l g. absurd (omega arith), λ k p l g. absurd (ground arith)),
)
search_from-insertion h i j (p ∷ ring) o e = elim (Bool-cases (p.0 == h)) [
  | inl t ↦ absurd (ground arith)
  | inr t ↦ elim (Bool-cases (ltb h p.0)) [
    | inl u ↦
        let first : h < p.0 = ltb→lt h p.0 u in
        (
          0,
          ground arith,
          (
            omega arith,
            λ k q l g. absurd (omega arith),
            λ k q l g. omega (arith, o 0 k p q (omega arith) refl g),
          ),
        )
    | inr u ↦
        let (k, a, parts) =
          search_from-insertion h (i + 1) j ring
            (λ x y q r l g m. o (suc x) (suc y) q r (omega arith) g m) (ground arith) in
        (suc k, omega arith, Parts-cons h k p ring (ground arith) parts)
  ]
]

pub hit_found :
    (h i : ℕ) (ring : List Point)
    → IsSorted ring
    → search_from h 0 ring ≡ hit i
    → (idx : ℕ) × (get_elem? ring i ≡ some (h, idx))
hit_found h i ring o e =
    let (k, idx, a, b) = search_from-hit h 0 i ring e in
    (idx, subst (λ (t : ℕ). get_elem? ring t ≡ some (h, idx)) (omega arith) b)

pub insertion_found :
    (h i : ℕ) (ring : List Point)
    → IsSorted ring
    → search_from h 0 ring ≡ insertion i
    → Parts h i ring
insertion_found h i ring o e =
    let (k, a, parts) = search_from-insertion h 0 i ring o e in
    subst (λ (t : ℕ). Parts h t ring) (omega arith) parts

abbrev pub standard : Slices
standard = record {
  sort = sort;
  sort-IsSorted = λ ring. Ordered-IsSorted (sort ring) (sort-Ordered ring);
  sort-Has = sort-Has;
  Has-sort = Has-sort;
  binary_search = λ h ring. search_from h 0 ring;
  hit_lem = hit_found;
  insertion_lem = insertion_found;
}
