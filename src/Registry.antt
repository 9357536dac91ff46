-- ===== src/Registry.antt =====
-- crates/grimoire-registry/src: the memory backend (memory_backend.rs) and the service's handlers
-- over it (main.rs). A hash map is a function on texts; the order in which it is iterated over, and
-- the time in nanoseconds, are arguments.
pub mod Leases
pub mod Etcd
pub mod Ownership
pub mod Registering
pub mod Renewing
pub mod Places
pub mod Agreement
pub mod Listing
pub mod Discovery
pub mod Store
pub mod Time
pub mod Backends
pub mod Handlers
mod Tests
use grimoire.Prelude.{
  ℕ, ◌+◌, ◌*◌, max, ltb, Bool, true, false, ◌==◌, if◌then◌else◌, Option, none, some, List, [], ◌∷◌,
  Text, same, or_else,
}
use mathlib.Core.Option

-- A 32-bit signed number of seconds.
pub data ℤ : Type 0 where
  pos negsuc : ℕ → ℤ

abbrev pub TextMap : Type 0 → Type 0
TextMap V = Text → Option V

module _ {V : Type 0} where
  abbrev pub empty_text : TextMap V
  empty_text k = none

  abbrev pub insert_text : Text → V → TextMap V → TextMap V
  insert_text k v m j = if same k j then some v else m j

  abbrev pub remove_text : Text → TextMap V → TextMap V
  remove_text k m j = if same k j then none else m j

abbrev pub Meta : Type 0
Meta = List (Text × Text)

pub record NodeRecord : Type 0 where
  pub addr : Text
  pub meta : Meta
  pub expires_at : ℕ

pub record NodeInfo : Type 0 where
  pub node_id : Text
  pub addr : Text
  pub meta : Meta

pub record RegistryState : Type 0 where
  pub services : TextMap (TextMap NodeRecord)

-- `ttl_secs.max(1)`
abbrev pub at_least_one : ℤ → ℕ
at_least_one (pos n) = max n 1
at_least_one (negsuc n) = 1

abbrev pub deadline : ℕ → ℤ → ℕ
deadline now ttl_secs = now + at_least_one ttl_secs * 1000000000

abbrev pub new_record : ℕ → Text → Meta → ℤ → NodeRecord
new_record now addr meta ttl_secs = record {
  addr = addr;
  meta = meta;
  expires_at = deadline now ttl_secs;
}

abbrev pub refresh : ℕ → ℤ → NodeRecord → NodeRecord
refresh now ttl_secs n = record n { expires_at = deadline now ttl_secs }

unfoldable pub insert_node : ℕ → Text → Text → Text → Meta → ℤ → RegistryState → RegistryState
insert_node now service node_id addr meta ttl st = record st {
  services =
      insert_text service
        (insert_text node_id (new_record now addr meta ttl)
          (or_else (st.services service) empty_text))
        st.services;
}

-- The record of a node, if the service and the node are there.
unfoldable pub node : Text → Text → RegistryState → Option NodeRecord
node service node_id st = elim (st.services service) [ none ↦ none | some m ↦ m node_id ]

unfoldable pub heartbeat_node : ℕ → Text → Text → ℤ → RegistryState → Bool × RegistryState
heartbeat_node now service node_id ttl st = elim (st.services service) [
  | none ↦ (false, st)
  | some m ↦ elim (m node_id) [
    | none ↦ (false, st)
    | some n ↦ (
      true,
      record st {
        services = insert_text service (insert_text node_id (refresh now ttl n) m) st.services;
      },
    )
  ]
]

-- The nodes in the order of the iteration.
unfoldable pub node_infos : TextMap NodeRecord → List Text → List NodeInfo
node_infos m [] = []
node_infos m (id ∷ scan) =
    let rest = node_infos m scan in
    elim (m id) [
      | none ↦ rest
      | some n ↦ record { node_id = id; addr = n.addr; meta = n.meta } ∷ rest
    ]

unfoldable pub discover_nodes : Text → List Text → RegistryState → List NodeInfo
discover_nodes service scan st = elim (st.services service) [
  | none ↦ []
  | some m ↦ node_infos m scan
]

unfoldable pub remove_node : Text → Text → RegistryState → RegistryState
remove_node service node_id st = elim (st.services service) [
  | none ↦ st
  | some m ↦ record st { services = insert_text service (remove_text node_id m) st.services }
]

-- What `retain(|_, n| n.expires_at > now)` leaves of a place in the map.
unfoldable pub live : ℕ → Option NodeRecord → Option NodeRecord
live now none = none
live now (some n) = if ltb now n.expires_at then some n else none

-- One round of the sweeper.
unfoldable pub sweep : ℕ → RegistryState → RegistryState
sweep now st = record st {
  services = λ service. Option.map (λ m id. live now (m id)) (st.services service);
}

pub record RegistrySvc : Type 0 where
  pub backend : RegistryState
  pub default_ttl : ℤ

abbrev pub chosen_ttl : ℤ → ℤ → ℤ
chosen_ttl default_ttl (pos n) = if ltb 0 n then pos n else default_ttl
chosen_ttl default_ttl (negsuc n) = default_ttl

-- The handlers over the memory backend.
unfoldable pub register : ℕ → Text → Text → Text → Meta → ℤ → RegistrySvc → RegistrySvc
register now service node_id addr meta ttl_secs r = record r {
  backend = insert_node now service node_id addr meta (chosen_ttl r.default_ttl ttl_secs) r.backend;
}

unfoldable pub heartbeat : ℕ → Text → Text → RegistrySvc → Bool × RegistrySvc
heartbeat now service node_id r =
    let (ok, st) = heartbeat_node now service node_id r.default_ttl r.backend in
    (ok, record r { backend = st })

unfoldable pub discover : Text → List Text → RegistrySvc → List NodeInfo
discover service scan r = discover_nodes service scan r.backend

unfoldable pub unregister : Text → Text → RegistrySvc → RegistrySvc
unregister service node_id r = record r { backend = remove_node service node_id r.backend }
