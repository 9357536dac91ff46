-- ===== src/Registry/Etcd.antt =====
-- crates/grimoire-registry/src/etcd_backend.rs: the registry over etcd. The etcd client and the JSON
-- coding are interfaces with what their documentation promises.
use grimoire.Prelude.{
  Has, ℕ, ◌+◌, ◌-◌, ◌≡◌, ◌≢◌, ◌⊎◌, Bool, true, false, ltb, if◌then◌else◌, Option, none, some, List,
  [], ◌∷◌, ◌++◌, Text, codes, same,
}
use grimoire.Registry.{ℤ, Meta, NodeInfo, at_least_one}

pub record NodeValue : Type 0 where
  pub addr : Text
  pub meta : Meta

-- `serde_json`: what is written reads back.
pub record Json : Type 0 where
  pub to_string : NodeValue → Option Text
  pub from_str : Text → Option NodeValue
  pub from_str-to_string :
      (v : NodeValue) (json : Text) → to_string v ≡ some json → from_str json ≡ some v

abbrev pub value_of : Text → Option (Text × ℕ) → List (Text × Text)
value_of key none = []
value_of key (some (v, lease)) = (key, v) ∷ []

-- The client over the state of the store; `at` is a key's value with its lease, `issued` whether a
-- lease's id has been given out, `seconds` for how long. A key goes with its lease, be it revoked or
-- run out (`lapse`), and a lease that is granted is new. A revocation or a deletion may fail.
pub record Client (E : Type 0) : Type 0 where
  pub at : Text → E → Option (Text × ℕ)
  pub issued : ℕ → E → Bool
  pub seconds : ℕ → E → ℕ
  pub lapse : ℕ → E → E
  pub lease_revoke : ℕ → E → E
  pub lease_grant : ℕ → E → Option ℕ × E
  pub put : Text → Text → ℕ → E → Bool × E
  pub get : Text → E → Option (List (Text × Text))
  pub get_prefix : Text → E → Option (List (Text × Text))
  pub delete : Text → E → Bool × E
  pub keep_alive : ℕ → E → Bool × E
  pub at-lease_revoke :
      (key : Text) (lease : ℕ) (e : E)
      → (at key (lease_revoke lease e) ≡ at key e)
        ⊎ ((at key (lease_revoke lease e) ≡ none) × ((v : Text) × (at key e ≡ some (v, lease))))
  pub at-lapse :
      (key : Text) (lease : ℕ) (e : E)
      → (at key (lapse lease e) ≡ at key e)
        ⊎ ((at key (lapse lease e) ≡ none) × ((v : Text) × (at key e ≡ some (v, lease))))
  pub at-lapse_held :
      (key v : Text) (lease : ℕ) (e : E)
      → at key e ≡ some (v, lease)
      → at key (lapse lease e) ≡ none
  pub issued-lapse :
      (lease old : ℕ) (e : E) → issued lease e ≡ true → issued lease (lapse old e) ≡ true
  pub seconds-lease_grant :
      (ttl lease : ℕ) (e : E)
      → (lease_grant ttl e).0 ≡ some lease
      → seconds lease (lease_grant ttl e).1 ≡ ttl
  pub seconds-put :
      (key v : Text) (lease new : ℕ) (e : E) → seconds lease (put key v new e).1 ≡ seconds lease e
  pub at-lease_grant : (key : Text) (ttl : ℕ) (e : E) → at key (lease_grant ttl e).1 ≡ at key e
  pub issued-lease_grant_new :
      (ttl lease : ℕ) (e : E) → (lease_grant ttl e).0 ≡ some lease → issued lease e ≡ false
  pub issued-lease_grant_self :
      (ttl lease : ℕ) (e : E)
      → (lease_grant ttl e).0 ≡ some lease
      → issued lease (lease_grant ttl e).1 ≡ true
  pub issued-lease_grant :
      (ttl lease : ℕ) (e : E) → issued lease e ≡ true → issued lease (lease_grant ttl e).1 ≡ true
  pub issued-lease_revoke :
      (lease old : ℕ) (e : E) → issued lease e ≡ true → issued lease (lease_revoke old e) ≡ true
  pub issued-put :
      (key v : Text) (lease new : ℕ) (e : E)
      → issued lease e ≡ true
      → issued lease (put key v new e).1 ≡ true
  pub issued-delete :
      (key : Text) (lease : ℕ) (e : E)
      → issued lease e ≡ true
      → issued lease (delete key e).1 ≡ true
  pub at-put_self :
      (key v : Text) (lease : ℕ) (e : E)
      → (put key v lease e).0 ≡ true
      → at key (put key v lease e).1 ≡ some (v, lease)
  pub at-put_other :
      (key other v : Text) (lease : ℕ) (e : E)
      → other ≢ key
      → at other (put key v lease e).1 ≡ at other e
  pub get-at :
      (key : Text) (kvs : List (Text × Text)) (e : E)
      → get key e ≡ some kvs
      → kvs ≡ value_of key (at key e)
  pub get_prefix-at :
      (prefix key v : Text) (kvs : List (Text × Text)) (e : E)
      → get_prefix prefix e ≡ some kvs
      → Has (key, v) kvs
      → (rest : Text) × (key ≡ prefix ++ rest) × ((lease : ℕ) × (at key e ≡ some (v, lease)))
  pub at-get_prefix :
      (prefix rest v : Text) (lease : ℕ) (kvs : List (Text × Text)) (e : E)
      → get_prefix prefix e ≡ some kvs
      → at (prefix ++ rest) e ≡ some (v, lease)
      → Has (prefix ++ rest, v) kvs
  pub at-keep_alive : (key : Text) (lease : ℕ) (e : E) → at key (keep_alive lease e).1 ≡ at key e
  pub issued-keep_alive :
      (lease old : ℕ) (e : E) → issued lease e ≡ true → issued lease (keep_alive old e).1 ≡ true
  pub at-delete_self :
      (key : Text) (e : E) → (delete key e).0 ≡ true → at key (delete key e).1 ≡ none
  pub at-delete_other :
      (key other : Text) (e : E) → other ≢ key → at other (delete key e).1 ≡ at other e

-- The lease of a node, with what its keeper's channel holds; `kept` tells whether the keeper runs.
pub record LeaseState : Type 0 where
  pub lease_id : ℕ
  pub renewals : ℕ
  pub kept : Bool

pub record EtcdBackend (E : Type 0) : Type 0 where
  pub client : E
  pub leases : Text → Text → Option LeaseState

abbrev key_prefix : Text
key_prefix = codes "/grimoire/"

abbrev pub prefix : Text → Text
prefix service = key_prefix ++ (service ++ codes "/")

abbrev pub key : Text → Text → Text
key service node_id = key_prefix ++ (service ++ b'/' ∷ node_id)

abbrev pub set_lease :
    Text
    → Text
    → Option LeaseState
    → (Text → Text → Option LeaseState)
    → Text
    → Text
    → Option LeaseState
set_lease service node_id s m i j =
    if same service i then (if same node_id j then s else m i j) else m i j

abbrev pub channel_size : ℕ
channel_size = 8

-- `strip_prefix`
unfoldable pub strip_prefix : Text → Text → Option Text
strip_prefix [] t = some t
strip_prefix (c ∷ p) [] = none
strip_prefix (c ∷ p) (d ∷ t) =
    let rest = strip_prefix p t in if same (c ∷ []) (d ∷ []) then rest else none

module _ {E : Type 0} (json : Json) (etcd : Client E) where
  -- An older lease goes first.
  unfoldable pub revoke_old : Text → Text → EtcdBackend E → EtcdBackend E
  revoke_old service node_id b = elim (b.leases service node_id) [
    | none ↦ b
    | some old ↦ record {
      client = etcd.lease_revoke old.lease_id b.client;
      leases = set_lease service node_id none b.leases;
    }
  ]

  abbrev pub keep_lease :
      Text → Text → ℕ → Bool × E → (Text → Text → Option LeaseState) → Bool × EtcdBackend E
  keep_lease service node_id lease (false, e) m = (false, record { client = e; leases = m })
  keep_lease service node_id lease (true, e) m = (
    true,
    record {
      client = e;
      leases =
          set_lease service node_id (some (record { lease_id = lease; renewals = 0; kept = true }))
            m;
    },
  )

  abbrev pub put_node :
      Text → Text → Option Text → ℕ → E → (Text → Text → Option LeaseState) → Bool × EtcdBackend E
  put_node service node_id none lease e m = (false, record { client = e; leases = m })
  put_node service node_id (some value) lease e m =
      keep_lease service node_id lease (etcd.put (key service node_id) value lease e) m

  abbrev pub granted :
      Text
      → Text
      → Option Text
      → Option ℕ × E
      → (Text → Text → Option LeaseState)
      → Bool × EtcdBackend E
  granted service node_id value (none, e) m = (false, record { client = e; leases = m })
  granted service node_id value (some lease, e) m = put_node service node_id value lease e m

  -- Whether the node was registered.
  unfoldable pub register : Text → Text → Text → Meta → ℤ → EtcdBackend E → Bool × EtcdBackend E
  register service node_id addr meta ttl_secs b =
      let r = revoke_old service node_id b in
      granted service node_id (json.to_string (record { addr = addr; meta = meta }))
        (etcd.lease_grant (at_least_one ttl_secs) r.client) r.leases

  -- `try_send`: a full channel takes no more, nor does one whose keeper has ended.
  abbrev pub renew : LeaseState → LeaseState
  renew s =
      if s.kept
      then (if ltb s.renewals channel_size then record s { renewals = s.renewals + 1 } else s)
      else s

  abbrev pub is_there : Option (List (Text × Text)) → Bool
  is_there none = false
  is_there (some []) = false
  is_there (some (kv ∷ kvs)) = true

  unfoldable pub heartbeat : Text → Text → EtcdBackend E → Bool × EtcdBackend E
  heartbeat service node_id b = elim (b.leases service node_id) [
    | none ↦ (false, b)
    | some s ↦ (
      is_there (etcd.get (key service node_id) b.client),
      record b { leases = set_lease service node_id (some (renew s)) b.leases },
    )
  ]

  -- One turn of a lease's keeper.
  abbrev pub kept_alive : Text → Text → LeaseState → Bool × E → EtcdBackend E → EtcdBackend E
  kept_alive service node_id s (ok, e) b = record {
    client = e;
    leases =
        set_lease service node_id (some (record s { renewals = s.renewals - 1; kept = ok }))
          b.leases;
  }

  unfoldable pub keeper : Text → Text → EtcdBackend E → EtcdBackend E
  keeper service node_id b = elim (b.leases service node_id) [
    | none ↦ b
    | some s ↦
        if s.kept
        then (if ltb 0 s.renewals
            then kept_alive service node_id s (etcd.keep_alive s.lease_id b.client) b
            else b)
        else b
  ]

  abbrev pub as_node : Option Text → Option NodeValue → List NodeInfo → List NodeInfo
  as_node (some node_id) (some v) rest =
      record { node_id = node_id; addr = v.addr; meta = v.meta } ∷ rest
  as_node (some node_id) none rest = rest
  as_node none v rest = rest

  unfoldable pub nodes_of : Text → List (Text × Text) → List NodeInfo
  nodes_of service [] = []
  nodes_of service ((k, v) ∷ kvs) =
      as_node (strip_prefix (prefix service) k) (json.from_str v) (nodes_of service kvs)

  unfoldable pub discover : Text → EtcdBackend E → List NodeInfo
  discover service b = elim (etcd.get_prefix (prefix service) b.client) [
    | none ↦ []
    | some kvs ↦ nodes_of service kvs
  ]

  unfoldable pub unregister : Text → Text → EtcdBackend E → Bool × EtcdBackend E
  unregister service node_id b =
      let r = revoke_old service node_id b in
      let (done, e) = etcd.delete (key service node_id) r.client in (done, record r { client = e })
