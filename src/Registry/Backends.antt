-- ===== src/Registry/Backends.antt =====
-- crates/grimoire-registry/src: the two backends (memory_backend.rs, etcd_backend.rs) against the
-- table of services and nodes that they both implement.
use grimoire.Prelude.{
  Has, ◌↔◌, ℕ, ◌≡◌, refl, arith, sym, ap, ◌∙◌, true, false, ltb, ◌-◌, Option, none, some, Text,
  same, inl, inr, Option-cases, Bool-cases, List, [],
}
use mathlib.Core.Option
use grimoire.Registry.Places.{Apart}
use grimoire.Registry.{
  live, sweep, NodeInfo, NodeRecord, discover_nodes, ℤ, Meta, RegistryState, node, insert_node,
  remove_node, heartbeat_node,
}
use grimoire.Registry.Etcd.{
  prefix, discover, Client, EtcdBackend, Json, LeaseState, key, register, heartbeat, unregister,
  keeper, renew, set_lease, is_there, value_of,
}
use grimoire.Registry.Ownership.{has_slash}
use grimoire.Registry.Renewing.{IsLess, less-IsOwn, heartbeat-IsLess, keeper-IsLess}
use grimoire.Registry.Places.{
  recorded, heartbeat_node-recorded, unrecorded, is_recorded, heartbeat_node_absent,
  heartbeat_node_there,
}
use grimoire.Registry.Discovery.{discover-Agrees}
use grimoire.Registry.Time.{lapse-Agrees, sweep-Agrees}
use grimoire.Registry.Agreement.{Agrees, register-Agrees, unregister-Agrees}

module _ {E : Type 0} (json : Json) (etcd : Client E) where
  -- The keys of the store and the entries of the table stay as they are.
  record IsStill (b b' : EtcdBackend E) : Type 0 where
    keys : (k : Text) → etcd.at k b'.client ≡ etcd.at k b.client
    entries :
        (t j : Text) (l : LeaseState)
        → b.leases t j ≡ some l
        → (l' : LeaseState) × (b'.leases t j ≡ some l')

  still-Agrees :
      (b b' : EtcdBackend E) (st st' : RegistryState)
      → IsLess json etcd b b'
      → IsStill b b'
      → ((t j : Text) → recorded t j st' ≡ recorded t j st)
      → Agrees json etcd b st
      → Agrees json etcd b' st'
  still-Agrees b b' st st' less still m agrees = record {
    own = less-IsOwn json etcd b b' less agrees.own;
    leased = λ t j x p h.
        let (l, e) = agrees.leased t j x p (sym (still.keys (key t j)) ∙ h) in
        still.entries t j l e;
    alike = λ t j p.
        ap (Option.map (λ x. json.from_str x.0)) (still.keys (key t j))
        ∙ agrees.alike t j p
        ∙ sym (m t j);
  }

  set_lease-keeps :
      (s i t j : Text) (new l : LeaseState) (m : Text → Text → Option LeaseState)
      → m t j ≡ some l
      → (l' : LeaseState) × (set_lease s i (some new) m t j ≡ some l')
  set_lease-keeps s i t j new l m h = elim (Bool-cases (same s t)) [
    | inl p ↦ elim (Bool-cases (same i j)) [
      | inl q ↦ (new, ground arith)
      | inr q ↦ (l, ground arith)
    ]
    | inr p ↦ (l, ground arith)
  ]

  same-IsStill : (b b' : EtcdBackend E) → b' ≡ b → IsStill b b'
  same-IsStill b b' e = record {
    keys = λ k. ap (λ c. etcd.at k c.client) e;
    entries = λ t j l p. (l, ap (λ c. c.leases t j) e ∙ p);
  }

  heartbeat-IsStill : (s i : Text) (b : EtcdBackend E) → IsStill b (heartbeat json etcd s i b).1
  unfolding heartbeat
  heartbeat-IsStill s i b = elim (Option-cases (b.leases s i)) [
    | inl e ↦ same-IsStill b (heartbeat json etcd s i b).1 (ground arith)
    | inr (old, e) ↦ record {
      keys = λ k. ground arith;
      entries = λ t j l p.
          let (l', q) = set_lease-keeps s i t j (renew json etcd old) l b.leases p in
          (l', ground arith);
    }
  ]

  keeper-IsStill : (s i : Text) (b : EtcdBackend E) → IsStill b (keeper json etcd s i b)
  unfolding keeper
  keeper-IsStill s i b = elim (Option-cases (b.leases s i)) [
    | inl e ↦ same-IsStill b (keeper json etcd s i b) (ground arith)
    | inr (old, e) ↦ elim (Bool-cases old.kept) [
      | inl on ↦ elim (Bool-cases (ltb 0 old.renewals)) [
        | inl some_left ↦
            let done = etcd.keep_alive old.lease_id b.client in
            record {
              keys = λ k. let a = etcd.at-keep_alive k old.lease_id b.client in ground arith;
              entries = λ t j l p.
                  let (l', q) =
                    set_lease-keeps s i t j
                      (record old { renewals = old.renewals - 1; kept = done.0 }) l b.leases p in
                  (l', ground arith);
            }
        | inr none_left ↦ same-IsStill b (keeper json etcd s i b) (ground arith)
      ]
      | inr off ↦ same-IsStill b (keeper json etcd s i b) (ground arith)
    ]
  ]

  -- Calls that both backends serve, with those of etcd that succeed, turns of the keepers, and the
  -- passing of time: rounds of the sweeper that take no node, and leases that run out in etcd while
  -- the sweeper takes the same node.
  pub data Serves (b : EtcdBackend E) (st : RegistryState)
      : EtcdBackend E → RegistryState → Type 0 where
    done : Serves b st b st
    sweeps :
        (b' : EtcdBackend E) (st' : RegistryState) (now : ℕ)
        → Serves b st b' st'
        → ((t j : Text) → live now (node t j st') ≡ node t j st')
        → Serves b st b' (sweep now st')
    lapses :
        (b' : EtcdBackend E) (st' : RegistryState) (now : ℕ) (s i v : Text) (l : LeaseState)
        → Serves b st b' st'
        → has_slash s ≡ false
        → b'.leases s i ≡ some l
        → etcd.at (key s i) b'.client ≡ some (v, l.lease_id)
        → live now (node s i st') ≡ none
        → ((t j : Text) → Apart s i t j → live now (node t j st') ≡ node t j st')
        → Serves b st (record b' { client = etcd.lapse l.lease_id b'.client }) (sweep now st')
    registers :
        (b' : EtcdBackend E) (st' : RegistryState) (now : ℕ) (s i addr : Text) (meta : Meta)
        (ttl : ℤ)
        → Serves b st b' st'
        → has_slash s ≡ false
        → (register json etcd s i addr meta ttl b').0 ≡ true
        → Serves b st
            (register json etcd s i addr meta ttl b').1
            (insert_node now s i addr meta ttl st')
    unregisters :
        (b' : EtcdBackend E) (st' : RegistryState) (s i : Text)
        → Serves b st b' st'
        → has_slash s ≡ false
        → (unregister json etcd s i b').0 ≡ true
        → Serves b st (unregister json etcd s i b').1 (remove_node s i st')
    beats :
        (b' : EtcdBackend E) (st' : RegistryState) (now : ℕ) (s i : Text) (ttl : ℤ)
        → Serves b st b' st'
        → Serves b st (heartbeat json etcd s i b').1 (heartbeat_node now s i ttl st').1
    keeps :
        (b' : EtcdBackend E) (st' : RegistryState) (s i : Text)
        → Serves b st b' st'
        → Serves b st (keeper json etcd s i b') st'

  -- The two backends have the same nodes, for services without a slash in their names, after any calls
  -- that both serve, if they had before: registrations and unregistrations that etcd does not refuse,
  -- heartbeats, and turns of the keepers. Time may pass as long as it takes from both alike: a lease
  -- that runs out in etcd does so when the sweeper takes the same node and no other.
  pub serves-Agrees :
      (b : EtcdBackend E) (st : RegistryState) (b' : EtcdBackend E) (st' : RegistryState)
      → Agrees json etcd b st
      → Serves b st b' st'
      → Agrees json etcd b' st'
  serves-Agrees b st _ _ agrees done = agrees
  serves-Agrees b st _ _ agrees (sweeps b' st' now h none_due) =
      sweep-Agrees json etcd now b' st' none_due (serves-Agrees b st b' st' agrees h)
  serves-Agrees b st _ _ agrees (lapses b' st' now s i v l h plain entry there due others) =
      lapse-Agrees json etcd now s i v l b' st' plain entry there due others
        (serves-Agrees b st b' st' agrees h)
  serves-Agrees b st _ _ agrees (registers b' st' now s i addr meta ttl h p d) =
      register-Agrees json etcd now s i addr meta ttl b' st' p d
        (serves-Agrees b st b' st' agrees h)
  serves-Agrees b st _ _ agrees (unregisters b' st' s i h p d) =
      unregister-Agrees json etcd s i b' st' p d (serves-Agrees b st b' st' agrees h)
  serves-Agrees b st _ _ agrees (beats b' st' now s i ttl h) =
      still-Agrees b' (heartbeat json etcd s i b').1 st' (heartbeat_node now s i ttl st').1
        (heartbeat-IsLess json etcd s i b') (heartbeat-IsStill s i b')
        (λ t j. heartbeat_node-recorded now s i t j ttl st') (serves-Agrees b st b' st' agrees h)
  serves-Agrees b st _ _ agrees (keeps b' st' s i h) =
      still-Agrees b' (keeper json etcd s i b') st' st' (keeper-IsLess json etcd s i b')
        (keeper-IsStill s i b') (λ t j. refl) (serves-Agrees b st b' st' agrees h)

  -- A heartbeat has the same answer from both.
  heartbeat-Agrees :
      (now : ℕ) (s i : Text) (ttl : ℤ) (kvs : List (Text × Text)) (b : EtcdBackend E)
      (st : RegistryState)
      → Agrees json etcd b st
      → has_slash s ≡ false
      → etcd.get (key s i) b.client ≡ some kvs
      → (heartbeat json etcd s i b).0 ≡ (heartbeat_node now s i ttl st).0
  unfolding heartbeat
  heartbeat-Agrees now s i ttl kvs b st agrees plain g =
      let e = etcd.get-at (key s i) kvs b.client g in
      let a = agrees.alike s i plain in
      elim (Option-cases (etcd.at (key s i) b.client)) [
        | inl q ↦
            let n : node s i st ≡ none =
              unrecorded s i st (sym a ∙ ap (Option.map (λ x. json.from_str x.0)) q) in
            let empty : kvs ≡ [] = e ∙ ap (value_of (key s i)) q in
            let r = heartbeat_node_absent now s i ttl st n in
            elim (Option-cases (b.leases s i)) [
              | inl m ↦ ground arith
              | inr (l, m) ↦
                  let there : is_there json etcd (etcd.get (key s i) b.client) ≡ false =
                    ap (is_there json etcd) (g ∙ ap some empty) in
                  ground arith
            ]
        | inr (x, q) ↦
            let (l, h) = agrees.leased s i x plain q in
            let there : is_there json etcd (etcd.get (key s i) b.client) ≡ true =
              ap (is_there json etcd) (g ∙ ap some (e ∙ ap (value_of (key s i)) q)) in
            let (n, m) =
              is_recorded s i st (json.from_str x.0)
                (sym a ∙ ap (Option.map (λ x. json.from_str x.0)) q) in
            let r = heartbeat_node_there now s i ttl n st m in ground arith
      ]

  -- Where the backends agree and etcd answers, both answer alike for a service without a slash in its name: a heartbeat is acknowledged by both or
  -- by none, and a search for a service finds the same nodes with both, if the iteration over the memory
  -- backend's map visits every node.
  pub answers-Agrees :
      (now : ℕ) (s i : Text) (ttl : ℤ) (scan : List Text) (kvs all : List (Text × Text))
      (x : NodeInfo) (b : EtcdBackend E) (st : RegistryState)
      → Agrees json etcd b st
      → has_slash s ≡ false
      → etcd.get (key s i) b.client ≡ some kvs
      → etcd.get_prefix (prefix s) b.client ≡ some all
      → ((id : Text) (n : NodeRecord) → node s id st ≡ some n → Has id scan)
      → ((heartbeat json etcd s i b).0 ≡ (heartbeat_node now s i ttl st).0)
        × (Has x (discover json etcd s b) ↔ Has x (discover_nodes s scan st))
  answers-Agrees now s i ttl scan kvs all x b st agrees plain g h visited = (
    heartbeat-Agrees now s i ttl kvs b st agrees plain g,
    discover-Agrees json etcd s scan all x b st agrees plain h visited,
  )
