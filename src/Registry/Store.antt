-- ===== src/Registry/Store.antt =====
-- A store in memory that keeps what Registry/Etcd asks of the etcd client, and a JSON coding of the
-- values without a description.
use grimoire.Prelude.{
  ℕ, ◌+◌, ◌≡◌, ◌≢◌, ◌⊎◌, refl, arith, sym, ap, subst, ◌∙◌, Bool, true, false, not, ltb, ◌==◌,
  if◌then◌else◌, Option, none, some, List, [], ◌∷◌, ◌++◌, Text, same, same_refl, same-true, inl,
  inr, Bool-cases, Has,
}
use grimoire.Registry.{Meta}
use grimoire.Registry.Etcd.{Client, Json, NodeValue, strip_prefix, value_of}
use grimoire.Registry.Listing.{one_some, strip_prefix-append, strip_prefix-some}

abbrev pub Entry : Type 0
Entry = Text × Text × ℕ

-- The first entry of a key counts.
pub record Store : Type 0 where
  pub entries : List Entry
  pub next : ℕ
  pub ttls : ℕ → ℕ

unfoldable pub find_key : Text → List Entry → Option (Text × ℕ)
find_key k [] = none
find_key k ((j, v, l) ∷ es) = let rest = find_key k es in if same j k then some (v, l) else rest

unfoldable pub keep : (Text → Bool) → List Entry → List Entry
keep p [] = []
keep p ((j, v, l) ∷ es) = let rest = keep p es in if p j then (j, v, l) ∷ rest else rest

find_key-keep :
    (p : Text → Bool) (k : Text) (es : List Entry)
    → find_key k (keep p es) ≡ (if p k then find_key k es else none)
unfolding find_key keep
find_key-keep p k [] = ground arith
find_key-keep p k ((j, v, l) ∷ es) =
    let ih = find_key-keep p k es in
    elim (Bool-cases (same j k)) [
      | inl e ↦ let q : p j ≡ p k = ap p (same-true j k e) in ground arith
      | inr e ↦ ground arith
    ]

abbrev pub has_lease : ℕ → Option (Text × ℕ) → Bool
has_lease lease none = false
has_lease lease (some (v, l)) = l == lease

has_lease-true :
    (lease : ℕ) (o : Option (Text × ℕ))
    → has_lease lease o ≡ true
    → (v : Text) × (o ≡ some (v, lease))
has_lease-true lease none h = absurd (ground arith)
has_lease-true lease (some (v, l)) h = (v, ground arith)

-- The pairs of the keys with a prefix.
abbrev pub with_value :
    Option Text → Text → Option (Text × ℕ) → List (Text × Text) → List (Text × Text)
with_value (some r) k (some (v, l)) rest = (k, v) ∷ rest
with_value (some r) k none rest = rest
with_value none k o rest = rest

unfoldable pub listed : Text → List Entry → List Entry → List (Text × Text)
listed p all [] = []
listed p all ((j, v, l) ∷ es) = with_value (strip_prefix p j) j (find_key j all) (listed p all es)

with_value-Has :
    (k v : Text) (s : Option Text) (j : Text) (o : Option (Text × ℕ)) (rest : List (Text × Text))
    → Has (k, v) (with_value s j o rest)
    → ((k ≡ j) × ((r : Text) × (s ≡ some r)) × ((l : ℕ) × (o ≡ some (v, l)))) ⊎ Has (k, v) rest
with_value-Has k v none j o rest h = inr h
with_value-Has k v (some r) j none rest h = inr h
with_value-Has k v (some r) j (some (w, l)) rest (inl e) =
    inl (grind arith, (r, refl), (l, grind arith))
with_value-Has k v (some r) j (some (w, l)) rest (inr h) = inr h

pub listed-find_key :
    (p k v : Text) (all es : List Entry)
    → Has (k, v) (listed p all es)
    → ((r : Text) × (strip_prefix p k ≡ some r)) × ((l : ℕ) × (find_key k all ≡ some (v, l)))
unfolding listed
listed-find_key p k v all [] h = elim h [ ]
listed-find_key p k v all ((j, w, l) ∷ es) h =
    elim (with_value-Has k v (strip_prefix p j) j (find_key j all) (listed p all es) h) [
      | inl (e, (r, a), (m, b)) ↦
          ((r, ap (strip_prefix p) e ∙ a), (m, ap (λ y. find_key y all) e ∙ b))
      | inr rest ↦ listed-find_key p k v all es rest
    ]

with_value_later :
    (x : Text × Text) (s : Option Text) (j : Text) (o : Option (Text × ℕ))
    (rest : List (Text × Text))
    → Has x rest
    → Has x (with_value s j o rest)
with_value_later x none j o rest h = h
with_value_later x (some r) j none rest h = h
with_value_later x (some r) j (some (w, l)) rest h = inr h

pub find_key-listed :
    (p k v : Text) (l : ℕ) (r : Text) (all es : List Entry) (o : Text × ℕ)
    → strip_prefix p k ≡ some r
    → find_key k all ≡ some (v, l)
    → find_key k es ≡ some o
    → Has (k, v) (listed p all es)
unfolding listed find_key
find_key-listed p k v l r all [] o a b h = absurd (ground arith)
find_key-listed p k v l r all ((j, w, m) ∷ es) o a b h = elim (Bool-cases (same j k)) [
  | inl e ↦
      let q : j ≡ k = same-true j k e in
      let first : with_value (strip_prefix p j) j (find_key j all) (listed p all es)
          ≡ (j, v) ∷ listed p all es =
        ap (λ s. with_value s j (find_key j all) (listed p all es)) (ap (strip_prefix p) q ∙ a)
        ∙ ap (λ y. with_value (some r) j y (listed p all es)) (ap (λ y. find_key y all) q ∙ b) in
      subst (Has (k, v)) (sym first) (inl (ap (λ y. (y, v)) (sym q)))
  | inr e ↦
      with_value_later (k, v) (strip_prefix p j) j (find_key j all) (listed p all es)
        (find_key-listed p k v l r all es o a b (ground arith))
]

abbrev pub not_leased : ℕ → List Entry → Text → Bool
not_leased lease es k = not (has_lease lease (find_key k es))

pub revoked :
    (k : Text) (lease : ℕ) (es : List Entry)
    → (find_key k (keep (not_leased lease es) es) ≡ find_key k es)
      ⊎ ((find_key k (keep (not_leased lease es) es) ≡ none)
          × ((v : Text) × (find_key k es ≡ some (v, lease))))
revoked k lease es =
    let f = find_key-keep (not_leased lease es) k es in
    elim (Bool-cases (has_lease lease (find_key k es))) [
      | inl h ↦ inr (ground arith, has_lease-true lease (find_key k es) h)
      | inr h ↦ inl (ground arith)
    ]

pub lapsed :
    (k v : Text) (lease : ℕ) (es : List Entry)
    → find_key k es ≡ some (v, lease)
    → find_key k (keep (not_leased lease es) es) ≡ none
lapsed k v lease es h =
    let f = find_key-keep (not_leased lease es) k es in
    let held : not_leased lease es k ≡ false = ap (λ o. not (has_lease lease o)) h ∙ ground arith in
    f ∙ rw held refl

same-ne : (k j : Text) → j ≢ k → same j k ≡ false
same-ne k j n = elim (Bool-cases (same j k)) [ inl e ↦ absurd (n (same-true j k e)) | inr e ↦ e ]

pub put_self : (k v : Text) (l : ℕ) (es : List Entry) → find_key k ((k, v, l) ∷ es) ≡ some (v, l)
unfolding find_key
put_self k v l es = ground (arith, same_refl k)

pub put_other :
    (k j v : Text) (l : ℕ) (es : List Entry) → j ≢ k → find_key j ((k, v, l) ∷ es) ≡ find_key j es
unfolding find_key
put_other k j v l es n = ground (arith, same-ne j k (λ e. n (sym e)))

abbrev pub other_than : Text → Text → Bool
other_than key j = not (same j key)

pub deleted_self : (k : Text) (es : List Entry) → find_key k (keep (other_than k) es) ≡ none
deleted_self k es = let f = find_key-keep (other_than k) k es in ground (arith, same_refl k)

pub deleted_other :
    (k j : Text) (es : List Entry) → j ≢ k → find_key j (keep (other_than k) es) ≡ find_key j es
deleted_other k j es n = let f = find_key-keep (other_than k) j es in ground (arith, same-ne k j n)

abbrev pub store : Client Store
store = record {
  at = λ key e. find_key key e.entries;
  issued = λ lease e. ltb lease e.next;
  lease_revoke = λ lease e. record e { entries = keep (not_leased lease e.entries) e.entries };
  seconds = λ lease e. e.ttls lease;
  lapse = λ lease e. record e { entries = keep (not_leased lease e.entries) e.entries };
  lease_grant = λ ttl e. (
    some e.next,
    record e { next = e.next + 1; ttls = λ l. if l == e.next then ttl else e.ttls l },
  );
  put = λ key v lease e. (true, record e { entries = (key, v, lease) ∷ e.entries });
  get = λ key e. some (value_of key (find_key key e.entries));
  get_prefix = λ p e. some (listed p e.entries e.entries);
  delete = λ key e. (true, record e { entries = keep (other_than key) e.entries });
  keep_alive = λ lease e. (true, e);
  at-lease_revoke = λ key lease e. revoked key lease e.entries;
  at-lapse = λ key lease e. revoked key lease e.entries;
  at-lapse_held = λ key v lease e h. lapsed key v lease e.entries h;
  issued-lapse = λ lease old e h. h;
  seconds-lease_grant = λ ttl lease e h. ground arith;
  seconds-put = λ key v lease new e. refl;
  at-lease_grant = λ key ttl e. refl;
  issued-lease_grant_new = λ ttl lease e h. ground arith;
  issued-lease_grant_self = λ ttl lease e h. ground arith;
  issued-lease_grant = λ ttl lease e h. ground arith;
  issued-lease_revoke = λ lease old e h. h;
  issued-put = λ key v lease new e h. h;
  issued-delete = λ key lease e h. h;
  at-put_self = λ key v lease e h. put_self key v lease e.entries;
  at-put_other = λ key other v lease e n. put_other key other v lease e.entries n;
  get-at = λ key kvs e h. one_some (sym h);
  get_prefix-at = λ p key v kvs e h there.
      let ((r, a), b) =
        listed-find_key p key v e.entries e.entries
          (subst (Has (key, v)) (one_some (sym h)) there) in
      (r, strip_prefix-some p key r a, b);
  at-get_prefix = λ p rest v lease kvs e h there. subst (Has (p ++ rest, v)) (one_some h) (
      find_key-listed p (p ++ rest) v lease rest e.entries e.entries (v, lease)
        (strip_prefix-append p rest) there there);
  at-keep_alive = λ key lease e. refl;
  issued-keep_alive = λ lease old e h. h;
  at-delete_self = λ key e h. deleted_self key e.entries;
  at-delete_other = λ key other e n. deleted_other key other e.entries n;
}

abbrev pub written : NodeValue → Option Text
written v = elim v.meta [ [] ↦ some v.addr | m ∷ ms ↦ none ]

pub reads_back :
    (a : Text) (m : Meta) (json : Text)
    → written (record { addr = a; meta = m }) ≡ some json
    → ◌≡◌ {A = Option NodeValue}
        (some (record { addr = json; meta = [] }))
        (some (record { addr = a; meta = m }))
reads_back a [] json h = ground arith
reads_back a (m ∷ ms) json h = absurd (ground arith)

abbrev pub plain_json : Json
plain_json = record {
  to_string = written;
  from_str = λ t. some (record { addr = t; meta = [] });
  from_str-to_string = λ v json h. reads_back v.addr v.meta json h;
}
