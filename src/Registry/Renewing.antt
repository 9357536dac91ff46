-- ===== src/Registry/Renewing.antt =====
-- crates/grimoire-registry/src/etcd_backend.rs: heartbeats, the keepers of the leases and
-- unregistering, and what they leave of the store.
use grimoire.Prelude.{
  ℕ, ◌-◌, ltb, ◌≡◌, refl, arith, sym, ap, ◌∙◌, true, Option, some, Text, same, same-true, inl, inr,
  Option-cases, Bool-cases,
}
use grimoire.Registry.Etcd.{
  Client, EtcdBackend, renew, keeper, Json, LeaseState, heartbeat, key, revoke_old, unregister,
  set_lease,
}
use grimoire.Registry.Ownership.{IsOwn, same-false}

module _ {E : Type 0} (json : Json) (etcd : Client E) where
  -- Nothing is added to the store, no lease is forgotten, and no entry of the table takes another lease.
  pub record IsLess (b b' : EtcdBackend E) : Type 0 where
    pub keys :
        (k : Text) (x : Text × ℕ) → etcd.at k b'.client ≡ some x → etcd.at k b.client ≡ some x
    pub ids : (lease : ℕ) → etcd.issued lease b.client ≡ true → etcd.issued lease b'.client ≡ true
    pub entries :
        (t j : Text) (st : LeaseState)
        → b'.leases t j ≡ some st
        → (old : LeaseState) × (b.leases t j ≡ some old) × (old.lease_id ≡ st.lease_id)

  pub less-IsOwn : (b b' : EtcdBackend E) → IsLess b b' → IsOwn json etcd b → IsOwn json etcd b'
  less-IsOwn b b' less own = record {
    alone = λ t j k v st p q.
        let (old, x, y) = less.entries t j st p in
        own.alone t j k v old x (less.keys k (v, st.lease_id) q ∙ ap (λ l. some (v, l)) (sym y));
    known_key = λ k v lease p. less.ids lease (own.known_key k v lease (less.keys k (v, lease) p));
    known_lease = λ t j st p.
        let (old, x, y) = less.entries t j st p in
        less.ids st.lease_id (sym (ap (λ l. etcd.issued l b.client) y) ∙ own.known_lease t j old x);
  }

  set_lease-entries :
      (s i t j : Text) (old new st : LeaseState) (m : Text → Text → Option LeaseState)
      → m s i ≡ some old
      → old.lease_id ≡ new.lease_id
      → set_lease s i (some new) m t j ≡ some st
      → (was : LeaseState) × (m t j ≡ some was) × (was.lease_id ≡ st.lease_id)
  set_lease-entries s i t j old new st m h e p = elim (Bool-cases (same s t)) [
    | inl x ↦ elim (Bool-cases (same i j)) [
      | inl y ↦
          let a = same-true s t x in
          let c = same-true i j y in
          let n : new ≡ st = grind arith in (old, grind arith, e ∙ ap (λ l. l.lease_id) n)
      | inr y ↦ (st, ground arith, refl)
    ]
    | inr x ↦ (st, ground arith, refl)
  ]

  renew-lease_id : (st : LeaseState) → st.lease_id ≡ (renew json etcd st).lease_id
  renew-lease_id st = ground arith

  same-IsLess : (b b' : EtcdBackend E) → b' ≡ b → IsLess b b'
  same-IsLess b b' e = record {
    keys = λ k x p. sym (ap (λ c. etcd.at k c.client) e) ∙ p;
    ids = λ l p. ap (λ c. etcd.issued l c.client) e ∙ p;
    entries = λ t j st p. (st, sym (ap (λ c. c.leases t j) e) ∙ p, refl);
  }

  pub heartbeat-IsLess : (s i : Text) (b : EtcdBackend E) → IsLess b (heartbeat json etcd s i b).1
  unfolding heartbeat
  heartbeat-IsLess s i b = elim (Option-cases (b.leases s i)) [
    | inl e ↦ same-IsLess b (heartbeat json etcd s i b).1 (ground arith)
    | inr (old, e) ↦ record {
      keys = λ k x p. ground arith;
      ids = λ l p. ground arith;
      entries = λ t j st p.
          set_lease-entries s i t j old (renew json etcd old) st b.leases e (renew-lease_id old)
            (ground arith);
    }
  ]

  pub keeper-IsLess : (s i : Text) (b : EtcdBackend E) → IsLess b (keeper json etcd s i b)
  unfolding keeper
  keeper-IsLess s i b = elim (Option-cases (b.leases s i)) [
    | inl e ↦ same-IsLess b (keeper json etcd s i b) (ground arith)
    | inr (old, e) ↦ elim (Bool-cases old.kept) [
      | inl on ↦ elim (Bool-cases (ltb 0 old.renewals)) [
        | inl some_left ↦
            let done = etcd.keep_alive old.lease_id b.client in
            record {
              keys = λ k x p. sym (etcd.at-keep_alive k old.lease_id b.client) ∙ ground arith;
              ids = λ l p. let u = etcd.issued-keep_alive l old.lease_id b.client p in ground arith;
              entries = λ t j st p.
                  set_lease-entries s i t j old
                    (record old { renewals = old.renewals - 1; kept = done.0 }) st b.leases e refl
                    (ground arith);
            }
        | inr none_left ↦ same-IsLess b (keeper json etcd s i b) (ground arith)
      ]
      | inr off ↦ same-IsLess b (keeper json etcd s i b) (ground arith)
    ]
  ]

  -- What an unregistration that succeeds leaves.
  pub unregister-IsLess :
      (s i : Text) (b : EtcdBackend E)
      → (unregister json etcd s i b).0 ≡ true
      → IsLess (revoke_old json etcd s i b) (unregister json etcd s i b).1
  unfolding unregister
  unregister-IsLess s i b done =
      let r = revoke_old json etcd s i b in
      record {
        keys = λ k x p. elim (Bool-cases (same k (key s i))) [
          | inl y ↦
              let e = same-true k (key s i) y in
              let n = etcd.at-delete_self (key s i) r.client done in absurd (grind arith)
          | inr y ↦ sym (etcd.at-delete_other (key s i) k r.client (same-false k (key s i) y)) ∙ p
        ];
        ids = λ l p. etcd.issued-delete (key s i) l r.client p;
        entries = λ t j st p. (st, p, refl);
      }
