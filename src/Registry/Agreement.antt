-- ===== src/Registry/Agreement.antt =====
-- crates/grimoire-registry/src: what it is for the two backends (memory_backend.rs, etcd_backend.rs)
-- to hold the same nodes, and that registering and unregistering keep it.
use grimoire.Prelude.{
  ℕ, ◌≡◌, ◌≢◌, arith, sym, subst, ap, ◌∙◌, true, false, Option, none, some, Text, same_refl, inl,
  inr,
}
use mathlib.Core.Option
use grimoire.Registry.{ℤ, Meta, RegistryState, insert_node, remove_node, at_least_one}
use grimoire.Registry.Etcd.{
  Client, EtcdBackend, Json, LeaseState, NodeValue, key, register, unregister, revoke_old,
}
use grimoire.Registry.Ownership.{IsOwn, has_slash, revoke_other, revoke-leases, revoke-IsOwn}
use grimoire.Registry.Registering.{
  register-Registered, Registered-other, Registered-self, Registered-IsOwn,
}
use grimoire.Registry.Renewing.{less-IsOwn, unregister-IsLess}
use grimoire.Registry.Places.{
  Apart, place-cases, key-Apart, recorded, recorded_value, insert_node_self, insert_node_other,
  remove_node_self, remove_node_other,
}

module _ {E : Type 0} (json : Json) (etcd : Client E) where
  -- What stands in etcd for a node, read as a value.
  abbrev pub stored : Text → Text → EtcdBackend E → Option (Option NodeValue)
  stored s i b = Option.map (λ x. json.from_str x.0) (etcd.at (key s i) b.client)

  -- The two backends have the same nodes, with the same addresses and descriptions, for the services
  -- without a slash in their names.
  pub record Agrees (b : EtcdBackend E) (st : RegistryState) : Type 0 where
    pub own : IsOwn json etcd b
    pub leased :
        (s i : Text) (x : Text × ℕ)
        → has_slash s ≡ false
        → etcd.at (key s i) b.client ≡ some x
        → (l : LeaseState) × (b.leases s i ≡ some l)
    pub alike : (s i : Text) → has_slash s ≡ false → stored s i b ≡ recorded s i st

  register-at_other :
      (s i addr t j : Text) (meta : Meta) (ttl : ℤ) (b : EtcdBackend E)
      → IsOwn json etcd b
      → key t j ≢ key s i
      → (register json etcd s i addr meta ttl b).0 ≡ true
      → etcd.at (key t j) (register json etcd s i addr meta ttl b).1.client
        ≡ etcd.at (key t j) b.client
  register-at_other s i addr t j meta ttl b own n done =
      let r = revoke_old json etcd s i b in
      let d = register-Registered json etcd s i addr meta ttl b done in
      Registered-other json etcd s i addr (key t j) meta (at_least_one ttl) r
        (register json etcd s i addr meta ttl b).1 d n
      ∙ revoke_other json etcd s i (key t j) b own n

  register-leases_self :
      (s i addr : Text) (meta : Meta) (ttl : ℤ) (b : EtcdBackend E)
      → (register json etcd s i addr meta ttl b).0 ≡ true
      → (l : LeaseState) × ((register json etcd s i addr meta ttl b).1.leases s i ≡ some l)
  register-leases_self s i addr meta ttl b done =
      let d = register-Registered json etcd s i addr meta ttl b done in
      let e = ap (λ x. x.leases s i) d.leaves in
      (
        record { lease_id = d.lease; renewals = 0; kept = true },
        ground (arith, same_refl s, same_refl i),
      )

  register-leases_other :
      (s i addr t j : Text) (meta : Meta) (ttl : ℤ) (b : EtcdBackend E)
      → Apart s i t j
      → (register json etcd s i addr meta ttl b).0 ≡ true
      → (register json etcd s i addr meta ttl b).1.leases t j ≡ b.leases t j
  register-leases_other s i addr t j meta ttl b apart done =
      let d = register-Registered json etcd s i addr meta ttl b done in
      let e = ap (λ x. x.leases t j) d.leaves in
      let r = revoke-leases json etcd s i t j b in
      elim apart [ inl p ↦ ground arith | inr p ↦ ground arith ]

  register-stored :
      (s i addr : Text) (meta : Meta) (ttl : ℤ) (b : EtcdBackend E)
      → (register json etcd s i addr meta ttl b).0 ≡ true
      → stored s i (register json etcd s i addr meta ttl b).1
        ≡ some (some (record { addr = addr; meta = meta }))
  register-stored s i addr meta ttl b done =
      let r = revoke_old json etcd s i b in
      let d = register-Registered json etcd s i addr meta ttl b done in
      ap (Option.map (λ x. json.from_str x.0)) (
        Registered-self json etcd s i addr meta (at_least_one ttl) r
          (register json etcd s i addr meta ttl b).1 d)
      ∙ ap some (json.from_str-to_string (record { addr = addr; meta = meta }) d.value d.writes)

  pub register-Agrees :
      (now : ℕ) (s i addr : Text) (meta : Meta) (ttl : ℤ) (b : EtcdBackend E) (st : RegistryState)
      → has_slash s ≡ false
      → (register json etcd s i addr meta ttl b).0 ≡ true
      → Agrees b st
      → Agrees (register json etcd s i addr meta ttl b).1 (insert_node now s i addr meta ttl st)
  register-Agrees now s i addr meta ttl b st plain done agrees =
      let r = revoke_old json etcd s i b in
      let b' = (register json etcd s i addr meta ttl b).1 in
      let d = register-Registered json etcd s i addr meta ttl b done in
      let n = at_least_one ttl in
      let st' = insert_node now s i addr meta ttl st in
      record {
        own =
            Registered-IsOwn json etcd s i addr meta n r b' d
              (revoke-IsOwn json etcd s i b agrees.own);
        leased = λ t j x p h. elim (place-cases s i t j) [
          | inl (u, v) ↦
              subst (λ y. (l : LeaseState) × (b'.leases t y ≡ some l)) v
                (subst (λ y. (l : LeaseState) × (b'.leases y i ≡ some l)) u
                  (register-leases_self s i addr meta ttl b done))
          | inr apart ↦
              let n' = key-Apart s i t j plain p apart in
              let (l, e) =
                agrees.leased t j x p
                  (sym (register-at_other s i addr t j meta ttl b agrees.own n' done) ∙ h) in
              (l, register-leases_other s i addr t j meta ttl b apart done ∙ e)
        ];
        alike = λ t j p. elim (place-cases s i t j) [
          | inl (u, v) ↦
              subst (λ y. stored t y b' ≡ recorded t y st') v
                (subst (λ y. stored y i b' ≡ recorded y i st') u
                  (register-stored s i addr meta ttl b done
                    ∙ ap (Option.map recorded_value)
                        (sym (insert_node_self now s i addr meta ttl st))))
          | inr apart ↦
              let n' = key-Apart s i t j plain p apart in
              ap (Option.map (λ x. json.from_str x.0))
                (register-at_other s i addr t j meta ttl b agrees.own n' done)
              ∙ agrees.alike t j p
              ∙ ap (Option.map recorded_value)
                  (sym (insert_node_other now s i t j addr meta ttl st apart))
        ];
      }

  unregister-at_self :
      (s i : Text) (b : EtcdBackend E)
      → (unregister json etcd s i b).0 ≡ true
      → etcd.at (key s i) (unregister json etcd s i b).1.client ≡ none
  unfolding unregister
  unregister-at_self s i b done =
      etcd.at-delete_self (key s i) (revoke_old json etcd s i b).client done

  unregister-at_other :
      (s i t j : Text) (b : EtcdBackend E)
      → IsOwn json etcd b
      → key t j ≢ key s i
      → etcd.at (key t j) (unregister json etcd s i b).1.client ≡ etcd.at (key t j) b.client
  unfolding unregister
  unregister-at_other s i t j b own n =
      etcd.at-delete_other (key s i) (key t j) (revoke_old json etcd s i b).client n
      ∙ revoke_other json etcd s i (key t j) b own n

  unregister-leases_other :
      (s i t j : Text) (b : EtcdBackend E)
      → Apart s i t j
      → (unregister json etcd s i b).1.leases t j ≡ b.leases t j
  unfolding unregister
  unregister-leases_other s i t j b apart =
      let r = revoke-leases json etcd s i t j b in
      elim apart [ inl p ↦ ground arith | inr p ↦ ground arith ]

  pub unregister-Agrees :
      (s i : Text) (b : EtcdBackend E) (st : RegistryState)
      → has_slash s ≡ false
      → (unregister json etcd s i b).0 ≡ true
      → Agrees b st
      → Agrees (unregister json etcd s i b).1 (remove_node s i st)
  unregister-Agrees s i b st plain done agrees =
      let r = revoke_old json etcd s i b in
      let less = unregister-IsLess json etcd s i b done in
      let b' = (unregister json etcd s i b).1 in
      let st' = remove_node s i st in
      record {
        own =
            less-IsOwn json etcd r (unregister json etcd s i b).1 less
              (revoke-IsOwn json etcd s i b agrees.own);
        leased = λ t j x p h. elim (place-cases s i t j) [
          | inl (u, v) ↦ absurd (
              let n : etcd.at (key s i) b'.client ≡ some x = grind arith in
              let gone = unregister-at_self s i b done in ground arith)
          | inr apart ↦
              let n = key-Apart s i t j plain p apart in
              let (l, e) =
                agrees.leased t j x p (sym (unregister-at_other s i t j b agrees.own n) ∙ h) in
              (l, unregister-leases_other s i t j b apart ∙ e)
        ];
        alike = λ t j p. elim (place-cases s i t j) [
          | inl (u, v) ↦
              subst (λ y. stored t y b' ≡ recorded t y st') v
                (subst (λ y. stored y i b' ≡ recorded y i st') u
                  (ap (Option.map (λ x. json.from_str x.0)) (unregister-at_self s i b done)
                    ∙ ap (Option.map recorded_value) (sym (remove_node_self s i st))))
          | inr apart ↦
              let n = key-Apart s i t j plain p apart in
              ap (Option.map (λ x. json.from_str x.0)) (unregister-at_other s i t j b agrees.own n)
              ∙ agrees.alike t j p
              ∙ ap (Option.map recorded_value) (sym (remove_node_other s i t j st apart))
        ];
      }
