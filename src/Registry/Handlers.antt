-- ===== src/Registry/Handlers.antt =====
-- crates/grimoire-registry/src/main.rs: the service's handlers over the backend that was chosen.
use grimoire.Prelude.{ℕ, ◌≡◌, ◌↔◌, Has, Bool, true, false, some, List, Text}
use grimoire.Registry.{
  ℤ, Meta, NodeInfo, NodeRecord, RegistryState, insert_node, heartbeat_node, discover_nodes,
  remove_node, chosen_ttl, node,
}
use grimoire.Registry.Etcd
use grimoire.Registry.Etcd.{Client, EtcdBackend, Json, key, prefix}
use grimoire.Registry.Ownership.{has_slash}
use grimoire.Registry.Agreement.{Agrees}
use grimoire.Registry.Backends.{answers-Agrees}

pub data Backend (E : Type 0) : Type 0 where
  memory : RegistryState → Backend E
  etcd : EtcdBackend E → Backend E

pub record RegistrySvc (E : Type 0) : Type 0 where
  pub backend : Backend E
  pub default_ttl : ℤ

module _ {E : Type 0} (json : Json) (client : Client E) where
  abbrev with_etcd : RegistrySvc E → Bool × EtcdBackend E → Bool × RegistrySvc E
  with_etcd r (ok, e) = (ok, record r { backend = etcd e })

  abbrev with_memory : RegistrySvc E → Bool × RegistryState → Bool × RegistrySvc E
  with_memory r (ok, st) = (ok, record r { backend = memory st })

  -- Whether the reply says that it was done; an error of etcd is answered as a failure.
  unfoldable pub register : ℕ → Text → Text → Text → Meta → ℤ → RegistrySvc E → Bool × RegistrySvc E
  register now service node_id addr meta ttl_secs r =
      let ttl = chosen_ttl r.default_ttl ttl_secs in
      elim r.backend [
        | memory st ↦ with_memory r (true, insert_node now service node_id addr meta ttl st)
        | etcd e ↦ with_etcd r (Etcd.register json client service node_id addr meta ttl e)
      ]

  unfoldable pub heartbeat : ℕ → Text → Text → RegistrySvc E → Bool × RegistrySvc E
  heartbeat now service node_id r = elim r.backend [
    | memory st ↦ with_memory r (heartbeat_node now service node_id r.default_ttl st)
    | etcd e ↦ with_etcd r (Etcd.heartbeat json client service node_id e)
  ]

  unfoldable pub discover : Text → List Text → RegistrySvc E → List NodeInfo
  discover service scan r = elim r.backend [
    | memory st ↦ discover_nodes service scan st
    | etcd e ↦ Etcd.discover json client service e
  ]

  -- The reply does not tell whether etcd took the key away.
  unfoldable pub unregister : Text → Text → RegistrySvc E → Bool × RegistrySvc E
  unregister service node_id r = elim r.backend [
    | memory st ↦ with_memory r (true, remove_node service node_id st)
    | etcd e ↦ (true, (with_etcd r (Etcd.unregister json client service node_id e)).1)
  ]

  -- Where the two backends agree and etcd answers, for a service without a slash in its name: the
  -- service over the one backend acknowledges a heartbeat exactly if it does over the other, and a
  -- search for the service's nodes finds the same ones over both, if the iteration over the memory
  -- backend's map visits every node. Nothing is said of when the nodes run out.
  pub answers_alike :
      (now : ℕ) (s i : Text) (ttl : ℤ) (scan : List Text) (kvs all : List (Text × Text))
      (x : NodeInfo) (b : EtcdBackend E) (st : RegistryState)
      → Agrees json client b st
      → has_slash s ≡ false
      → client.get (key s i) b.client ≡ some kvs
      → client.get_prefix (prefix s) b.client ≡ some all
      → ((id : Text) (n : NodeRecord) → node s id st ≡ some n → Has id scan)
      → let over_etcd : RegistrySvc E = record { backend = etcd b; default_ttl = ttl } in
        let over_memory : RegistrySvc E = record { backend = memory st; default_ttl = ttl } in
        ((heartbeat now s i over_etcd).0 ≡ (heartbeat now s i over_memory).0)
        × (Has x (discover s scan over_etcd) ↔ Has x (discover s scan over_memory))
  unfolding heartbeat discover
  answers_alike now s i ttl scan kvs all x b st agrees plain g h visited =
      answers-Agrees json client now s i ttl scan kvs all x b st agrees plain g h visited
