-- ===== src/Registry/Tests.antt =====
-- Runs of the registry at concrete states.
use grimoire.Prelude.{
  ap, ◌↔◌, Has, ◌∙◌, inl, inr, sym, Bool, false, Bool-cases, same-true, ◌≡◌, refl, arith, true,
  none, some, [], ◌∷◌, codes, Text, same,
}
use grimoire.Registry.{
  live, NodeInfo, pos, NodeRecord, RegistrySvc, RegistryState, heartbeat_node, empty_text, node,
  insert_node, new_record, refresh, sweep, register, heartbeat, discover, node_infos,
  discover_nodes, remove_node, unregister,
}
use grimoire.Registry.Etcd
use grimoire.Registry.Etcd.{
  NodeValue, Json, Client, EtcdBackend, LeaseState, value_of, key, prefix, revoke_old,
}
use grimoire.Registry.Ownership.{has_slash}
use grimoire.Registry.Agreement.{Agrees}
use grimoire.Registry.Places.{Apart, insert_node_other}
use grimoire.Registry.Store.{Store, store, plain_json, find_key, listed}
use grimoire.Registry.Backends.{serves-Agrees, done, registers, unregisters, beats, lapses}
use grimoire.Registry.Handlers
use grimoire.Registry.Handlers.{answers_alike}
use grimoire.Registry.Leases.{heartbeat-sweep, heartbeat_shortens}

abbrev registry : RegistrySvc
registry = record { backend = record { services = empty_text }; default_ttl = pos 10 }

abbrev card : Text
card = codes "card-svc"

abbrev one : Text
one = codes "card-svc-1"

abbrev with_card : RegistrySvc
with_card = register 5 card one [] [] (pos 30) registry

with_card-node : node card one with_card.backend ≡ some (new_record 5 [] [] (pos 30))
unfolding node register insert_node same
with_card-node = refl

heartbeat-sweep_example :
    ((heartbeat 6 card one with_card).0 ≡ true)
    × (node card one (sweep 7 (heartbeat 6 card one with_card).1.backend)
        ≡ some (refresh 6 with_card.default_ttl (new_record 5 [] [] (pos 30))))
unfolding register
heartbeat-sweep_example =
    heartbeat-sweep 6 7 card one (new_record 5 [] [] (pos 30)) with_card with_card-node
      (omega arith)

heartbeat_shortens_example :
    (node card one (sweep 20000000000 (heartbeat 5 card one with_card).1.backend) ≡ none)
    × (node card one (sweep 20000000000 with_card.backend) ≡ some (new_record 5 [] [] (pos 30)))
heartbeat_shortens_example =
    heartbeat_shortens 5 20000000000 card one [] [] 30 10 registry (omega arith) refl (omega arith)
      (omega arith)

-- A registered node is discovered, and not when it has unregistered.
discovered :
    (discover card (one ∷ []) with_card ≡ record { node_id = one; addr = []; meta = [] } ∷ [])
    × (discover card (one ∷ []) (unregister card one with_card) ≡ [])
unfolding discover discover_nodes node_infos register insert_node same unregister remove_node
discovered = (refl, refl)

abbrev no_nodes : EtcdBackend Store
no_nodes = record {
  client = record { entries = []; next = 1; ttls = λ l. 0 };
  leases = λ s i. none;
}

no_nodes-Agrees : Agrees plain_json store no_nodes registry.backend
unfolding node find_key
no_nodes-Agrees = record {
  own = record {
    alone = λ s i k v st p q. absurd (ground arith);
    known_key = λ k v lease p. absurd (ground arith);
    known_lease = λ s i st p. absurd (ground arith);
  };
  leased = λ s i x p h. absurd (ground arith);
  alike = λ s i p. refl;
}

abbrev one_node : Bool × EtcdBackend Store
one_node = Etcd.register plain_json store card one (codes "host:1") [] (pos 30) no_nodes

one_node_lem : one_node.0 ≡ true
unfolding Etcd.register revoke_old
one_node_lem = refl

plain_card : has_slash card ≡ false
unfolding has_slash
plain_card = refl

with_one-Agrees :
    Agrees plain_json store one_node.1
      (insert_node 5 card one (codes "host:1") [] (pos 30) registry.backend)
with_one-Agrees =
    serves-Agrees plain_json store no_nodes registry.backend one_node.1
      (insert_node 5 card one (codes "host:1") [] (pos 30) registry.backend) no_nodes-Agrees
      (registers no_nodes registry.backend 5 card one (codes "host:1") [] (pos 30) done plain_card
        one_node_lem)

abbrev both_gone : Bool × EtcdBackend Store
both_gone =
    Etcd.unregister plain_json store card one
      (Etcd.heartbeat plain_json store card one one_node.1).1

both_gone_lem : both_gone.0 ≡ true
unfolding Etcd.unregister
both_gone_lem = refl

abbrev one_beaten : RegistryState
one_beaten =
    (heartbeat_node 6 card one (pos 10)
      (insert_node 5 card one (codes "host:1") [] (pos 30) registry.backend)).1

serves-Agrees_example : Agrees plain_json store both_gone.1 (remove_node card one one_beaten)
serves-Agrees_example =
    serves-Agrees plain_json store no_nodes registry.backend both_gone.1
      (remove_node card one one_beaten) no_nodes-Agrees
      (unregisters (Etcd.heartbeat plain_json store card one one_node.1).1 one_beaten card one
        (beats one_node.1 (insert_node 5 card one (codes "host:1") [] (pos 30) registry.backend) 6
          card one (pos 10)
          (registers no_nodes registry.backend 5 card one (codes "host:1") [] (pos 30) done
            plain_card one_node_lem))
        plain_card both_gone_lem)

abbrev one_listed : RegistryState
one_listed = insert_node 5 card one (codes "host:1") [] (pos 30) registry.backend

nothing_anywhere : (t j : Text) → node t j registry.backend ≡ none
unfolding node
nothing_anywhere t j = refl

nothing_there : (id : Text) → node card id registry.backend ≡ none
unfolding node
nothing_there id = refl

visits_one : (id : Text) (n : NodeRecord) → node card id one_listed ≡ some n → Has id (one ∷ [])
visits_one id n h = elim (Bool-cases (same one id)) [
  | inl e ↦ inl (sym (same-true one id e))
  | inr e ↦
      let other : node card id one_listed ≡ none =
        insert_node_other 5 card one card id (codes "host:1") [] (pos 30) registry.backend (inr e)
        ∙ nothing_there id in
      absurd (ground arith)
]

-- The node's lease runs out, and the sweeper takes the node.
others_stay :
    (t j : Text) → Apart card one t j → live 99000000000 (node t j one_listed) ≡ node t j one_listed
unfolding live
others_stay t j apart =
    let other : node t j one_listed ≡ none =
      insert_node_other 5 card one t j (codes "host:1") [] (pos 30) registry.backend apart
      ∙ nothing_anywhere t j in
    ap (live 99000000000) other ∙ sym other

ran_out :
    Agrees plain_json store
      (record one_node.1 { client = store.lapse 1 one_node.1.client })
      (sweep 99000000000 one_listed)
unfolding Etcd.register revoke_old find_key node insert_node live same
ran_out =
    serves-Agrees plain_json store no_nodes registry.backend
      (record one_node.1 { client = store.lapse 1 one_node.1.client })
      (sweep 99000000000 one_listed) no_nodes-Agrees
      (lapses one_node.1 one_listed 99000000000 card one (codes "host:1")
        (record { lease_id = 1; renewals = 0; kept = true })
        (registers no_nodes registry.backend 5 card one (codes "host:1") [] (pos 30) done plain_card
          one_node_lem)
        plain_card refl refl refl others_stay)

abbrev over_etcd : Handlers.RegistrySvc Store
over_etcd = record { backend = Handlers.etcd one_node.1; default_ttl = pos 10 }

abbrev over_memory : Handlers.RegistrySvc Store
over_memory = record { backend = Handlers.memory one_listed; default_ttl = pos 10 }

abbrev one_info : NodeInfo
one_info = record { node_id = one; addr = codes "host:1"; meta = [] }

answers_alike_example :
    ((Handlers.heartbeat plain_json store 6 card one over_etcd).0
      ≡ (Handlers.heartbeat plain_json store 6 card one over_memory).0)
    × (Has one_info (Handlers.discover plain_json store card (one ∷ []) over_etcd)
        ↔ Has one_info (Handlers.discover plain_json store card (one ∷ []) over_memory))
answers_alike_example =
    answers_alike plain_json store 6 card one (pos 10) (one ∷ [])
      (value_of (key card one) (store.at (key card one) one_node.1.client))
      (listed (prefix card) one_node.1.client.entries one_node.1.client.entries) one_info one_node.1
      one_listed with_one-Agrees plain_card refl refl visits_one
