-- ===== src/Discovery.antt =====
-- crates/grimoire-gateway/src/discovery.rs: which node serves a domain. What a call of the registry
-- would answer, the times and the outcomes of connecting are arguments.
pub mod Ring
pub mod Owner
pub mod Landing
pub mod Affinity
pub mod Standard
pub mod Cache
mod Tests
use grimoire.Prelude.{
  ℕ, ◌+◌, ◌-◌, ◌%◌, ◌^◌, Bool, true, false, ◌||◌, ◌==◌, ltb, if◌then◌else◌, Option, none, some,
  List, [], ◌∷◌, length, get_elem?, find, Map, empty, insert, Text, same, Exec, Outcome, ok, panic,
}
use grimoire.Common.{domain_room, domain_battle, domain_card, svc_room, svc_battle, svc_card}
use grimoire.Registry.{NodeInfo, TextMap, empty_text, insert_text}
use Ring.{Point, Slices, build, pick}

unfoldable pub service_for_domain : ℕ → Option Text
service_for_domain domain =
    if domain == domain_room
    then some svc_room
    else if domain == domain_battle
    then some svc_battle
    else if domain == domain_card
    then some svc_card
    else none

pub record CacheEntry : Type 0 where
  pub nodes : List NodeInfo
  pub ring : List Point
  pub fetched_at : ℕ

-- A channel of a pool, by its number.
abbrev pub Channel : Type 0
Channel = ℕ

pub record Discovery : Type 0 where
  pub cache : Map CacheEntry
  pub cache_ttl_ns : ℕ
  pub rr : ℕ
  pub channels : TextMap (List Channel)

abbrev pub init : Discovery
init = record { cache = empty; cache_ttl_ns = 3000000000; rr = 0; channels = empty_text }

-- What the outside answers during a call: the time at its start and when a fetch is done, and the
-- registry, which may fail.
pub record World : Type 0 where
  pub now : ℕ
  pub fetched : ℕ
  pub registry : Text → Option (List NodeInfo)

unfoldable pub is_stale : ℕ → ℕ → CacheEntry → Bool
is_stale now ttl e = length e.nodes == 0 || ltb ttl (now - e.fetched_at)

unfoldable pub need_fetch : ℕ → ℕ → Discovery → Bool
need_fetch now domain d = elim (d.cache domain) [
  | none ↦ true
  | some e ↦ is_stale now d.cache_ttl_ns e
]

unfoldable pub fetch_rr : Discovery → ℕ × Discovery
fetch_rr d = (d.rr, record d { rr = (d.rr + 1) % 2 ^ 64 })

module _ (sl : Slices) where
  -- Whether the registry answered.
  unfoldable pub fetch : World → ℕ → Text → Discovery → Bool × Discovery
  fetch w domain svc_name d = elim (w.registry svc_name) [
    | none ↦ (false, d)
    | some nodes ↦ (
      true,
      record d {
        cache =
            insert domain (record { nodes = nodes; ring = build sl nodes; fetched_at = w.fetched })
              d.cache;
      },
    )
  ]

  abbrev fetched_entry : ℕ → Bool × Discovery → Option CacheEntry × Discovery
  fetched_entry domain (true, d) = (d.cache domain, d)
  fetched_entry domain (false, d) = (none, d)

  -- The entry to choose from, once it is fresh; none where the registry failed.
  unfoldable pub fresh : World → ℕ → Text → Discovery → Option CacheEntry × Discovery
  fresh w domain svc_name d =
      if need_fetch w.now domain d
      then fetched_entry domain (fetch w domain svc_name d)
      else (d.cache domain, d)

  abbrev pub node_at : CacheEntry → Option ℕ → Discovery → Outcome (Option NodeInfo) × Discovery
  node_at e none d = (panic, d)
  node_at e (some i) d = (ok (get_elem? e.nodes i), d)

  -- By the ring where there is a key, else in turn.
  unfoldable pub choose : CacheEntry → Option ℕ → Exec Discovery (Option NodeInfo)
  choose e none d = let (n, d') = fetch_rr d in node_at e (some (n % length e.nodes)) d'
  choose e (some key) d = node_at e (pick sl e.ring key) d

  unfoldable pub choose_from : Option ℕ → Option CacheEntry → Exec Discovery (Option NodeInfo)
  choose_from key none d = (ok none, d)
  choose_from key (some e) d = if length e.nodes == 0 then (ok none, d) else choose e key d

  unfoldable pub resolve : World → ℕ → Option ℕ → Exec Discovery (Option NodeInfo)
  resolve w domain key d = elim (service_for_domain domain) [
    | none ↦ (ok none, d)
    | some svc_name ↦ let (e, d') = fresh w domain svc_name d in choose_from key e d'
  ]

  abbrev pub node_by_id : Text → Option CacheEntry → Option NodeInfo
  node_by_id node_id none = none
  node_by_id node_id (some e) = find (λ n. same n.node_id node_id) e.nodes

  unfoldable pub resolve_by_node_id : World → ℕ → Text → Discovery → Option NodeInfo × Discovery
  resolve_by_node_id w domain node_id d = elim (service_for_domain domain) [
    | none ↦ (none, d)
    | some svc_name ↦ let (e, d') = fresh w domain svc_name d in (node_by_id node_id e, d')
  ]

abbrev pub pool_size : ℕ
pool_size = 4

-- The pool, if each of the connections came about, in the order of the attempts.
unfoldable pub connect_pool : List (Option Channel) → Option (List Channel)
connect_pool [] = some []
connect_pool (none ∷ attempts) = none
connect_pool (some c ∷ attempts) = elim (connect_pool attempts) [
  | none ↦ none
  | some pool ↦ some (c ∷ pool)
]

abbrev turn : List Channel → Discovery → Outcome (Option Channel) × Discovery
turn [] d = (panic, d)
turn (c ∷ pool) d =
    let (n, d') = fetch_rr d in (ok (get_elem? (c ∷ pool) (n % length (c ∷ pool))), d')

-- `attempts` are the outcomes of connecting `pool_size` times.
unfoldable pub channel_for : Text → List (Option Channel) → Exec Discovery (Option Channel)
channel_for addr attempts d = elim (d.channels addr) [
  | some pool ↦ turn pool d
  | none ↦ elim (connect_pool attempts) [
    | none ↦ (ok none, d)
    | some pool ↦
        let (c, d') = turn pool d in (c, record d' { channels = insert_text addr pool d'.channels })
  ]
]
