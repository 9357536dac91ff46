-- ===== src/Registry/Listing.antt =====
-- crates/grimoire-registry/src: the names of keys taken apart, and what the memory backend's search lists.
use grimoire.Prelude.{
  ◌≡◌, refl, arith, sym, ap, subst, ◌∙◌, ◌==◌, none, some, List, [], ◌∷◌, ◌++◌, Text, codes, same,
  inl, inr, Option-cases, Bool-cases, Has,
}
use grimoire.Registry.{
  NodeInfo, NodeRecord, RegistryState, TextMap, node, node_infos, discover_nodes,
}
use grimoire.Registry.Etcd.{NodeValue, key, prefix, strip_prefix}

pub both_some : {A : Type 0} {a b : A} → some (some a) ≡ some (some b) → a ≡ b
both_some h = grind arith

pub strip_prefix-append : (p t : Text) → strip_prefix p (p ++ t) ≡ some t
unfolding strip_prefix same
strip_prefix-append [] t = refl
strip_prefix-append (c ∷ p) t = let ih = strip_prefix-append p t in ground arith

pub strip_prefix-some : (p t r : Text) → strip_prefix p t ≡ some r → t ≡ p ++ r
unfolding strip_prefix same
strip_prefix-some [] t r h = grind arith
strip_prefix-some (c ∷ p) [] r h = absurd (ground arith)
strip_prefix-some (c ∷ p) (d ∷ t) r h = elim (Bool-cases (c == d)) [
  | inl e ↦ let ih = strip_prefix-some p t r (ground arith) in let q : c ≡ d = ground arith in cc
  | inr e ↦ absurd (ground arith)
]

append_assoc : (a b c : Text) → (a ++ b) ++ c ≡ a ++ (b ++ c)
append_assoc [] b c = refl
append_assoc (x ∷ a) b c = ap (λ t. x ∷ t) (append_assoc a b c)

pub prefix-key : (s i : Text) → prefix s ++ i ≡ key s i
prefix-key s i = ap (λ t. codes "/grimoire/" ++ t) (append_assoc s (codes "/") i)

abbrev pub value_info : Text → NodeValue → NodeInfo
value_info id v = record { node_id = id; addr = v.addr; meta = v.meta }

-- A node as a search tells it.
abbrev pub info : Text → NodeRecord → NodeInfo
info id n = record { node_id = id; addr = n.addr; meta = n.meta }

found_first :
    (m : TextMap NodeRecord) (scan : List Text) (x : NodeInfo) (id : Text) (n : NodeRecord)
    → m id ≡ some n
    → Has x (info id n ∷ node_infos m scan)
    → (Has x (node_infos m scan)
        → (id : Text) × (n : NodeRecord) × (m id ≡ some n) × (x ≡ info id n))
    → (id : Text) × (n : NodeRecord) × (m id ≡ some n) × (x ≡ info id n)
found_first m scan x id n e (inl q) rest = (id, n, e, q)
found_first m scan x id n e (inr h) rest = rest h

pub node_infos-Has :
    (m : TextMap NodeRecord) (scan : List Text) (x : NodeInfo)
    → Has x (node_infos m scan)
    → (id : Text) × (n : NodeRecord) × (m id ≡ some n) × (x ≡ info id n)
unfolding node_infos
node_infos-Has m [] x h = elim h [ ]
node_infos-Has m (id ∷ scan) x h = elim (Option-cases (m id)) [
  | inl e ↦
      let skip : node_infos m (id ∷ scan) ≡ node_infos m scan = rw (e, node_infos) refl in
      node_infos-Has m scan x (subst (Has x) skip h)
  | inr (n, e) ↦
      let first : node_infos m (id ∷ scan) ≡ info id n ∷ node_infos m scan =
        rw (e, node_infos) refl in
      found_first m scan x id n e (subst (Has x) first h) (node_infos-Has m scan x)
]

pub Has-node_infos :
    (m : TextMap NodeRecord) (scan : List Text) (id : Text) (n : NodeRecord)
    → Has id scan
    → m id ≡ some n
    → Has (info id n) (node_infos m scan)
unfolding node_infos
Has-node_infos m [] id n h e = elim h [ ]
Has-node_infos m (i ∷ scan) id n (inl q) e =
    let e' : m i ≡ some n = ap m (sym q) ∙ e in rw (e', node_infos) (inl (ap (λ t. info t n) q))
Has-node_infos m (i ∷ scan) id n (inr h) e = elim (Option-cases (m i)) [
  | inl a ↦ rw (a, node_infos) (Has-node_infos m scan id n h e)
  | inr (k, a) ↦ rw (a, node_infos) (inr (Has-node_infos m scan id n h e))
]

pub discover_nodes-Has :
    (s : Text) (scan : List Text) (x : NodeInfo) (st : RegistryState)
    → Has x (discover_nodes s scan st)
    → (id : Text) × (n : NodeRecord) × (node s id st ≡ some n) × (x ≡ info id n)
unfolding discover_nodes node
discover_nodes-Has s scan x st h = elim (Option-cases (st.services s)) [
  | inl e ↦
      let nothing : discover_nodes s scan st ≡ [] = rw (e, discover_nodes) refl in
      elim (subst (Has x) nothing h) [ ]
  | inr (m, e) ↦
      let found : discover_nodes s scan st ≡ node_infos m scan = rw (e, discover_nodes) refl in
      let (id, n, q, r) = node_infos-Has m scan x (subst (Has x) found h) in
      (id, n, rw (e, node) q, r)
]

pub Has-discover_nodes :
    (s : Text) (scan : List Text) (id : Text) (n : NodeRecord) (st : RegistryState)
    → Has id scan
    → node s id st ≡ some n
    → Has (info id n) (discover_nodes s scan st)
unfolding discover_nodes node
Has-discover_nodes s scan id n st h p = elim (Option-cases (st.services s)) [
  | inl e ↦ absurd (ground arith)
  | inr (m, e) ↦
      let there : node s id st ≡ m id = rw (e, node) refl in
      rw (e, discover_nodes) (Has-node_infos m scan id n h (sym there ∙ p))
]

pub one_some : {A : Type 0} {a b : A} → some a ≡ some b → a ≡ b
one_some h = grind arith

pub none_stored : {A : Type 0} {a : A} → none ≡ some a → ⊥
none_stored h = cc
