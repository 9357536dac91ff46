-- ===== src/Registry/Ownership.antt =====
-- crates/grimoire-registry/src/etcd_backend.rs: a lease belongs to one key, and keys to one node.
use grimoire.Prelude.{
  ℕ, ◌≡◌, ◌≢◌, refl, arith, sym, ap, ◌∙◌, Bool, true, false, ◌==◌, if◌then◌else◌, none, some, [],
  ◌∷◌, ◌++◌, Text, same, same_refl, same-true, drop, inl, inr, Option-cases, Bool-cases,
}
use grimoire.Registry.Etcd.{Client, EtcdBackend, Json, LeaseState, key, revoke_old, set_lease}

pub same-false : (a b : Text) → same a b ≡ false → a ≢ b
same-false a b h e =
    let t : same a b ≡ true = ap (same a) (sym e) ∙ same_refl a in absurd (ground arith)

unfoldable pub has_slash : Text → Bool
has_slash [] = false
has_slash (c ∷ t) = let rest = has_slash t in if c == b'/' then true else rest

pub split_key :
    (s t i j : Text)
    → has_slash s ≡ false
    → has_slash t ≡ false
    → s ++ b'/' ∷ i ≡ t ++ b'/' ∷ j
    → (s ≡ t) × (i ≡ j)
unfolding has_slash
split_key [] [] i j p q h = (refl, ap (drop 1) h)
split_key [] (d ∷ t) i j p q h = absurd (grind arith)
split_key (c ∷ s) [] i j p q h = absurd (grind arith)
split_key (c ∷ s) (d ∷ t) i j p q h =
    let (a, b) = split_key s t i j (grind arith) (grind arith) (ap (drop 1) h) in (grind arith, b)

pub key_inj :
    (s t i j : Text)
    → has_slash s ≡ false
    → has_slash t ≡ false
    → key s i ≡ key t j
    → (s ≡ t) × (i ≡ j)
key_inj s t i j p q h = split_key s t i j p q (ap (drop 10) h)

module _ {E : Type 0} (json : Json) (etcd : Client E) where
  -- A lease is of one key.
  pub record IsOwn (b : EtcdBackend E) : Type 0 where
    pub alone :
        (s i k v : Text) (st : LeaseState)
        → b.leases s i ≡ some st
        → etcd.at k b.client ≡ some (v, st.lease_id)
        → k ≡ key s i
    pub known_key :
        (k v : Text) (lease : ℕ)
        → etcd.at k b.client ≡ some (v, lease)
        → etcd.issued lease b.client ≡ true
    pub known_lease :
        (s i : Text) (st : LeaseState)
        → b.leases s i ≡ some st
        → etcd.issued st.lease_id b.client ≡ true

  pub revoke_sub :
      (s i k : Text) (x : Text × ℕ) (b : EtcdBackend E)
      → etcd.at k (revoke_old json etcd s i b).client ≡ some x
      → etcd.at k b.client ≡ some x
  unfolding revoke_old
  revoke_sub s i k x b h = elim (Option-cases (b.leases s i)) [
    | inl e ↦ grind arith
    | inr (old, e) ↦ elim (etcd.at-lease_revoke k old.lease_id b.client) [
      | inl q ↦ ground arith
      | inr (q, r) ↦ absurd (ground arith)
    ]
  ]

  pub revoke_other :
      (s i k : Text) (b : EtcdBackend E)
      → IsOwn b
      → k ≢ key s i
      → etcd.at k (revoke_old json etcd s i b).client ≡ etcd.at k b.client
  unfolding revoke_old
  revoke_other s i k b own n = elim (Option-cases (b.leases s i)) [
    | inl e ↦ grind arith
    | inr (old, e) ↦ elim (etcd.at-lease_revoke k old.lease_id b.client) [
      | inl q ↦ ground arith
      | inr (q, (v, r)) ↦ absurd (n (own.alone s i k v old e r))
    ]
  ]

  pub revoke-leases :
      (s i t j : Text) (b : EtcdBackend E)
      → (revoke_old json etcd s i b).leases t j ≡ set_lease s i none b.leases t j
  unfolding revoke_old
  revoke-leases s i t j b = elim (Option-cases (b.leases s i)) [
    | inl e ↦ elim (Bool-cases (same s t)) [
      | inl p ↦ elim (Bool-cases (same i j)) [
        | inl q ↦ let a = same-true s t p in let b' = same-true i j q in grind arith
        | inr q ↦ ground arith
      ]
      | inr p ↦ ground arith
    ]
    | inr (old, e) ↦ ground arith
  ]

  revoke-issued :
      (s i : Text) (lease : ℕ) (b : EtcdBackend E)
      → etcd.issued lease b.client ≡ true
      → etcd.issued lease (revoke_old json etcd s i b).client ≡ true
  unfolding revoke_old
  revoke-issued s i lease b h = elim (Option-cases (b.leases s i)) [
    | inl e ↦ grind arith
    | inr (old, e) ↦ grind (arith, etcd.issued-lease_revoke lease old.lease_id b.client h)
  ]

  pub revoke-leases_sub :
      (s i t j : Text) (st : LeaseState) (b : EtcdBackend E)
      → (revoke_old json etcd s i b).leases t j ≡ some st
      → b.leases t j ≡ some st
  revoke-leases_sub s i t j st b h = ground (arith, revoke-leases s i t j b)

  pub revoke-IsOwn : (s i : Text) (b : EtcdBackend E) → IsOwn b → IsOwn (revoke_old json etcd s i b)
  revoke-IsOwn s i b own = record {
    alone = λ t j k v st p q.
        own.alone t j k v st (revoke-leases_sub s i t j st b p)
          (revoke_sub s i k (v, st.lease_id) b q);
    known_key = λ k v lease p.
        revoke-issued s i lease b (own.known_key k v lease (revoke_sub s i k (v, lease) b p));
    known_lease = λ t j st p.
        revoke-issued s i st.lease_id b (own.known_lease t j st (revoke-leases_sub s i t j st b p));
  }
