-- ===== src/Registry/Places.antt =====
-- crates/grimoire-registry/src/memory_backend.rs: what the calls of the memory backend leave of the
-- nodes they are not about.
use grimoire.Prelude.{
  ℕ, ◌≡◌, ◌≢◌, ◌⊎◌, arith, sym, ap, ◌∙◌, true, false, Option, none, some, Text, same, same_refl,
  same-true, inl, inr, Option-cases, Bool-cases,
}
use mathlib.Core.Option
use grimoire.Registry.{
  ℤ, Meta, NodeRecord, RegistryState, node, insert_node, remove_node, heartbeat_node, new_record,
}
use grimoire.Registry.Etcd.{NodeValue, key}
use grimoire.Registry.Ownership.{has_slash, key_inj}

-- Another place of a table.
abbrev pub Apart : Text → Text → Text → Text → Type 0
Apart s i t j = (same s t ≡ false) ⊎ (same i j ≡ false)

pub place-cases : (s i t j : Text) → ((s ≡ t) × (i ≡ j)) ⊎ Apart s i t j
place-cases s i t j = elim (Bool-cases (same s t)) [
  | inl p ↦ elim (Bool-cases (same i j)) [
    | inl q ↦ inl (same-true s t p, same-true i j q)
    | inr q ↦ inr (inr q)
  ]
  | inr p ↦ inr (inl p)
]

pub key-Apart :
    (s i t j : Text) → has_slash s ≡ false → has_slash t ≡ false → Apart s i t j → key t j ≢ key s i
key-Apart s i t j p q apart e =
    let (a, b) = key_inj t s j i q p e in
    let x : same s t ≡ true = ap (same s) a ∙ same_refl s in
    let y : same i j ≡ true = ap (same i) b ∙ same_refl i in
    elim apart [ inl u ↦ absurd (ground arith) | inr u ↦ absurd (ground arith) ]

-- The nodes as the values that are written for them.
abbrev pub recorded_value : NodeRecord → Option NodeValue
recorded_value n = some (record { addr = n.addr; meta = n.meta })

abbrev pub recorded : Text → Text → RegistryState → Option (Option NodeValue)
recorded s i st = Option.map recorded_value (node s i st)

pub insert_node_self :
    (now : ℕ) (s i addr : Text) (meta : Meta) (ttl : ℤ) (st : RegistryState)
    → node s i (insert_node now s i addr meta ttl st) ≡ some (new_record now addr meta ttl)
unfolding insert_node node
insert_node_self now s i addr meta ttl st = ground (arith, same_refl s, same_refl i)

pub insert_node_other :
    (now : ℕ) (s i t j addr : Text) (meta : Meta) (ttl : ℤ) (st : RegistryState)
    → Apart s i t j
    → node t j (insert_node now s i addr meta ttl st) ≡ node t j st
unfolding insert_node node
insert_node_other now s i t j addr meta ttl st (inl e) = ground arith
insert_node_other now s i t j addr meta ttl st (inr e) = elim (Bool-cases (same s t)) [
  | inl p ↦ elim (Option-cases (st.services s)) [
    | inl q ↦ let a = same-true s t p in let q' = sym (ap st.services a) ∙ q in ground arith
    | inr (m, q) ↦ let a = same-true s t p in let q' = sym (ap st.services a) ∙ q in ground arith
  ]
  | inr p ↦ ground arith
]

pub remove_node_self : (s i : Text) (st : RegistryState) → node s i (remove_node s i st) ≡ none
unfolding remove_node node
remove_node_self s i st = elim (Option-cases (st.services s)) [
  | inl e ↦ ground arith
  | inr (m, e) ↦ ground (arith, same_refl s, same_refl i)
]

pub remove_node_other :
    (s i t j : Text) (st : RegistryState)
    → Apart s i t j
    → node t j (remove_node s i st) ≡ node t j st
unfolding remove_node node
remove_node_other s i t j st apart = elim (Option-cases (st.services s)) [
  | inl e ↦ ground arith
  | inr (m, e) ↦ elim (Bool-cases (same s t)) [
    | inl p ↦ let a = same-true s t p in let e' = sym (ap st.services a) ∙ e in ground arith
    | inr p ↦ ground arith
  ]
]

pub heartbeat_node-recorded :
    (now : ℕ) (s i t j : Text) (ttl : ℤ) (st : RegistryState)
    → recorded t j (heartbeat_node now s i ttl st).1 ≡ recorded t j st
unfolding heartbeat_node node
heartbeat_node-recorded now s i t j ttl st = elim (Option-cases (st.services s)) [
  | inl e ↦ ground arith
  | inr (m, e) ↦ elim (Option-cases (m i)) [
    | inl q ↦ ground arith
    | inr (n, q) ↦ elim (place-cases s i t j) [
      | inl (a, b) ↦
          let e' = sym (ap st.services a) ∙ e in
          let q' = sym (ap m b) ∙ q in
          let x : same s t ≡ true = ap (same s) (sym a) ∙ same_refl s in
          let y : same i j ≡ true = ap (same i) (sym b) ∙ same_refl i in ground arith
      | inr (inl p) ↦ ground arith
      | inr (inr p) ↦ elim (Bool-cases (same s t)) [
        | inl a ↦ let a' = same-true s t a in let e' = sym (ap st.services a') ∙ e in ground arith
        | inr a ↦ ground arith
      ]
    ]
  ]
]

pub unrecorded : (s i : Text) (st : RegistryState) → recorded s i st ≡ none → node s i st ≡ none
unrecorded s i st h = elim (Option-cases (node s i st)) [
  | inl e ↦ e
  | inr (n, e) ↦ absurd (ground arith)
]

pub is_recorded :
    (s i : Text) (st : RegistryState) (v : Option NodeValue)
    → recorded s i st ≡ some v
    → (n : NodeRecord) × (node s i st ≡ some n)
is_recorded s i st v h = elim (Option-cases (node s i st)) [
  | inl e ↦ absurd (ground arith)
  | inr (n, e) ↦ (n, e)
]

pub heartbeat_node_absent :
    (now : ℕ) (s i : Text) (ttl : ℤ) (st : RegistryState)
    → node s i st ≡ none
    → (heartbeat_node now s i ttl st).0 ≡ false
unfolding heartbeat_node node
heartbeat_node_absent now s i ttl st h = elim (Option-cases (st.services s)) [
  | inl e ↦ ground arith
  | inr (m, e) ↦ ground arith
]

pub heartbeat_node_there :
    (now : ℕ) (s i : Text) (ttl : ℤ) (n : NodeRecord) (st : RegistryState)
    → node s i st ≡ some n
    → (heartbeat_node now s i ttl st).0 ≡ true
unfolding heartbeat_node node
heartbeat_node_there now s i ttl n st h = elim (Option-cases (st.services s)) [
  | inl e ↦ absurd (ground arith)
  | inr (m, e) ↦ ground arith
]
