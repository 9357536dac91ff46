-- ===== src/Registry/Registering.antt =====
-- crates/grimoire-registry/src/etcd_backend.rs: what a registration that succeeds does to the store.
use grimoire.Prelude.{
  ℕ, ◌≡◌, ◌≢◌, ◌⊎◌, arith, sym, ap, ◌∙◌, true, some, Text, same, same-true, inl, inr, Option-cases,
  Bool-cases,
}
use grimoire.Registry.{ℤ, at_least_one, Meta}
use grimoire.Registry.Etcd.{
  Client, EtcdBackend, Json, LeaseState, key, register, revoke_old, set_lease,
}
use grimoire.Registry.Ownership.{IsOwn, same-false}

module _ {E : Type 0} (json : Json) (etcd : Client E) where
  -- What a registration that succeeds has done.
  pub record Registered (s i addr : Text) (meta : Meta) (ttl : ℕ) (b b' : EtcdBackend E)
      : Type 0 where
    pub lease : ℕ
    pub value : Text
    pub grants : (etcd.lease_grant ttl b.client).0 ≡ some lease
    pub writes : json.to_string (record { addr = addr; meta = meta }) ≡ some value
    pub puts : (etcd.put (key s i) value lease (etcd.lease_grant ttl b.client).1).0 ≡ true
    pub leaves : b' ≡ record {
      client = (etcd.put (key s i) value lease (etcd.lease_grant ttl b.client).1).1;
      leases =
          set_lease s i (some (record { lease_id = lease; renewals = 0; kept = true })) b.leases;
    }

  pub register-Registered :
      (s i addr : Text) (meta : Meta) (ttl : ℤ) (b : EtcdBackend E)
      → (register json etcd s i addr meta ttl b).0 ≡ true
      → Registered s i addr meta
          (at_least_one ttl)
          (revoke_old json etcd s i b)
          (register json etcd s i addr meta ttl b).1
  unfolding register
  register-Registered s i addr meta ttl b h =
      let r = revoke_old json etcd s i b in
      let g = etcd.lease_grant (at_least_one ttl) r.client in
      elim (Option-cases g.0) [
        | inl e ↦ absurd (ground arith)
        | inr (lease, e) ↦
            elim (Option-cases (json.to_string (record { addr = addr; meta = meta }))) [
              | inl q ↦ absurd (ground arith)
              | inr (value, q) ↦ elim (Bool-cases (etcd.put (key s i) value lease g.1).0) [
                | inl p ↦ record {
                  lease = lease;
                  value = value;
                  grants = e;
                  writes = q;
                  puts = p;
                  leaves = ground arith;
                }
                | inr p ↦ absurd (ground arith)
              ]
            ]
      ]

  pub Registered-other :
      (s i addr k : Text) (meta : Meta) (ttl : ℕ) (b b' : EtcdBackend E)
      → Registered s i addr meta ttl b b'
      → k ≢ key s i
      → etcd.at k b'.client ≡ etcd.at k b.client
  Registered-other s i addr k meta ttl b b' d n =
      let g = etcd.lease_grant ttl b.client in
      ap (λ x. etcd.at k x.client) d.leaves
      ∙ etcd.at-put_other (key s i) k d.value d.lease g.1 n
      ∙ etcd.at-lease_grant k ttl b.client

  pub Registered-self :
      (s i addr : Text) (meta : Meta) (ttl : ℕ) (b b' : EtcdBackend E)
      (d : Registered s i addr meta ttl b b')
      → etcd.at (key s i) b'.client ≡ some (d.value, d.lease)
  Registered-self s i addr meta ttl b b' d =
      let g = etcd.lease_grant ttl b.client in
      ap (λ x. etcd.at (key s i) x.client) d.leaves
      ∙ etcd.at-put_self (key s i) d.value d.lease g.1 d.puts

  Registered-issued :
      (s i addr : Text) (meta : Meta) (ttl lease : ℕ) (b b' : EtcdBackend E)
      → Registered s i addr meta ttl b b'
      → etcd.issued lease b.client ≡ true
      → etcd.issued lease b'.client ≡ true
  Registered-issued s i addr meta ttl lease b b' d h =
      let g = etcd.lease_grant ttl b.client in
      ap (λ x. etcd.issued lease x.client) d.leaves
      ∙ etcd.issued-put (key s i) d.value lease d.lease g.1
          (etcd.issued-lease_grant ttl lease b.client h)

  Registered-issued_self :
      (s i addr : Text) (meta : Meta) (ttl : ℕ) (b b' : EtcdBackend E)
      (d : Registered s i addr meta ttl b b')
      → etcd.issued d.lease b'.client ≡ true
  Registered-issued_self s i addr meta ttl b b' d =
      let g = etcd.lease_grant ttl b.client in
      ap (λ x. etcd.issued d.lease x.client) d.leaves
      ∙ etcd.issued-put (key s i) d.value d.lease d.lease g.1
          (etcd.issued-lease_grant_self ttl d.lease b.client d.grants)

  -- The lease of a place in the table after a registration: the new one, or the old one elsewhere.
  Registered-leases :
      (s i addr t j : Text) (meta : Meta) (ttl : ℕ) (st : LeaseState) (b b' : EtcdBackend E)
      (d : Registered s i addr meta ttl b b')
      → b'.leases t j ≡ some st
      → ((s ≡ t) × (i ≡ j) × (st.lease_id ≡ d.lease)) ⊎ (b.leases t j ≡ some st)
  Registered-leases s i addr t j meta ttl st b b' d h =
      let l = ap (λ x. x.leases t j) d.leaves in
      elim (Bool-cases (same s t)) [
        | inl p ↦ elim (Bool-cases (same i j)) [
          | inl q ↦ inl (same-true s t p, same-true i j q, ground arith)
          | inr q ↦ inr (ground arith)
        ]
        | inr p ↦ inr (ground arith)
      ]

  -- The place of a key after a registration.
  Registered-at :
      (s i addr k v : Text) (meta : Meta) (ttl lease : ℕ) (b b' : EtcdBackend E)
      (d : Registered s i addr meta ttl b b')
      → etcd.at k b'.client ≡ some (v, lease)
      → ((k ≡ key s i) × (lease ≡ d.lease)) ⊎ (etcd.at k b.client ≡ some (v, lease))
  Registered-at s i addr k v meta ttl lease b b' d h = elim (Bool-cases (same k (key s i))) [
    | inl p ↦
        let e = same-true k (key s i) p in
        let a = Registered-self s i addr meta ttl b b' d in
        let f : some (v, lease) ≡ some (d.value, d.lease) =
          sym h ∙ ap (λ x. etcd.at x b'.client) e ∙ a in
        inl (e, grind arith)
    | inr p ↦ inr (sym (Registered-other s i addr k meta ttl b b' d (same-false k (key s i) p)) ∙ h)
  ]

  pub Registered-IsOwn :
      (s i addr : Text) (meta : Meta) (ttl : ℕ) (b b' : EtcdBackend E)
      → Registered s i addr meta ttl b b'
      → IsOwn json etcd b
      → IsOwn json etcd b'
  Registered-IsOwn s i addr meta ttl b b' d own =
      let new = etcd.issued-lease_grant_new ttl d.lease b.client d.grants in
      let old = Registered-issued s i addr meta ttl in
      record {
        alone = λ t j k v st p q. elim (Registered-leases s i addr t j meta ttl st b b' d p) [
          | inl (x, y, z) ↦ elim (Registered-at s i addr k v meta ttl st.lease_id b b' d q) [
            | inl (x', y') ↦ cc
            | inr w ↦ let u = own.known_key k v st.lease_id w in absurd (grind arith)
          ]
          | inr z ↦ elim (Registered-at s i addr k v meta ttl st.lease_id b b' d q) [
            | inl (x', y') ↦ let u = own.known_lease t j st z in absurd (grind arith)
            | inr w ↦ own.alone t j k v st z w
          ]
        ];
        known_key = λ k v lease p. elim (Registered-at s i addr k v meta ttl lease b b' d p) [
          | inl (x, y) ↦ let a = Registered-issued_self s i addr meta ttl b b' d in grind arith
          | inr w ↦ old lease b b' d (own.known_key k v lease w)
        ];
        known_lease = λ t j st p. elim (Registered-leases s i addr t j meta ttl st b b' d p) [
          | inl (x, y, z) ↦ let a = Registered-issued_self s i addr meta ttl b b' d in grind arith
          | inr w ↦ old st.lease_id b b' d (own.known_lease t j st w)
        ];
      }
