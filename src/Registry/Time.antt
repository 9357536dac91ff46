-- ===== src/Registry/Time.antt =====
-- crates/grimoire-registry/src: how long the two backends keep a node, and what it is for them to lose
-- it at the same time.
use grimoire.Prelude.{
  subst, ◌≢◌, ℕ, ◌≡◌, refl, arith, sym, ap, ◌∙◌, false, none, some, Text, inl, inr,
}
use mathlib.Core.Option
use grimoire.Registry.Leases.{sweep-node}
use grimoire.Registry.Ownership.{IsOwn}
use grimoire.Registry.{live, sweep, RegistryState, node}
use grimoire.Registry.Etcd.{Client, EtcdBackend, Json, LeaseState, key}
use grimoire.Registry.Ownership.{has_slash}
use grimoire.Registry.Renewing.{IsLess, less-IsOwn}
use grimoire.Registry.Agreement.{Agrees, stored}
use grimoire.Registry.Places.{Apart, key-Apart, place-cases, recorded, recorded_value}

module _ {E : Type 0} (json : Json) (etcd : Client E) where
  lapse_sub :
      (k : Text) (lease : ℕ) (x : Text × ℕ) (e : E)
      → etcd.at k (etcd.lapse lease e) ≡ some x
      → etcd.at k e ≡ some x
  lapse_sub k lease x e h = elim (etcd.at-lapse k lease e) [
    | inl q ↦ sym q ∙ h
    | inr (q, r) ↦ absurd (ground arith)
  ]

  lapse_other :
      (s i t j : Text) (l : LeaseState) (b : EtcdBackend E)
      → key t j ≢ key s i
      → IsOwn json etcd b
      → b.leases s i ≡ some l
      → etcd.at (key t j) (etcd.lapse l.lease_id b.client) ≡ etcd.at (key t j) b.client
  lapse_other s i t j l b n own entry = elim (etcd.at-lapse (key t j) l.lease_id b.client) [
    | inl q ↦ q
    | inr (q, (v, r)) ↦ absurd (n (own.alone s i (key t j) v l entry r))
  ]

  -- The lease of a node runs out, and a round of the sweeper takes that node and no other.
  pub lapse-Agrees :
      (now : ℕ) (s i v : Text) (l : LeaseState) (b : EtcdBackend E) (st : RegistryState)
      → has_slash s ≡ false
      → b.leases s i ≡ some l
      → etcd.at (key s i) b.client ≡ some (v, l.lease_id)
      → live now (node s i st) ≡ none
      → ((t j : Text) → Apart s i t j → live now (node t j st) ≡ node t j st)
      → Agrees json etcd b st
      → Agrees json etcd (record b { client = etcd.lapse l.lease_id b.client }) (sweep now st)
  lapse-Agrees now s i v l b st plain entry there due others agrees =
      let b' = record b { client = etcd.lapse l.lease_id b.client } in
      let st' = sweep now st in
      let read = Option.map (λ x. json.from_str x.0) in
      let less : IsLess json etcd b b' = record {
        keys = λ k x p. lapse_sub k l.lease_id x b.client p;
        ids = λ lease p. etcd.issued-lapse lease l.lease_id b.client p;
        entries = λ t j e p. (e, p, refl);
      } in
      record {
        own = less-IsOwn json etcd b b' less agrees.own;
        leased = λ t j x p h. agrees.leased t j x p (less.keys (key t j) x h);
        alike = λ t j p. elim (place-cases s i t j) [
          | inl (u, w) ↦
              subst (λ y. stored json etcd t y b' ≡ recorded t y st') w
                (subst (λ y. stored json etcd y i b' ≡ recorded y i st') u
                  (ap read (etcd.at-lapse_held (key s i) v l.lease_id b.client there)
                    ∙ sym (ap (Option.map recorded_value) (sweep-node now s i st ∙ due))))
          | inr apart ↦
              ap read (lapse_other s i t j l b (key-Apart s i t j plain p apart) agrees.own entry)
              ∙ agrees.alike t j p
              ∙ sym (ap (Option.map recorded_value) (sweep-node now t j st ∙ others t j apart))
        ];
      }

  -- A round of the sweeper that takes no node.
  pub sweep-Agrees :
      (now : ℕ) (b : EtcdBackend E) (st : RegistryState)
      → ((t j : Text) → live now (node t j st) ≡ node t j st)
      → Agrees json etcd b st
      → Agrees json etcd b (sweep now st)
  sweep-Agrees now b st none_due agrees = record {
    own = agrees.own;
    leased = agrees.leased;
    alike = λ t j p.
        agrees.alike t j p
        ∙ sym (ap (Option.map recorded_value) (sweep-node now t j st ∙ none_due t j));
  }
