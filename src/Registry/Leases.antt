-- ===== src/Registry/Leases.antt =====
-- How long a node stays registered.
use grimoire.Prelude.{
  ℕ, ◌+◌, ◌*◌, ◌<◌, ◌≤◌, ◌≡◌, refl, arith, sym, subst, ap, ◌∙◌, max, ltb, true, if◌then◌else◌, none,
  some, Text, same_refl, inl, inr, Option-cases,
}
use grimoire.Registry.{
  ℤ, pos, Meta, NodeRecord, RegistryState, RegistrySvc, deadline, new_record, refresh, insert_node,
  node, heartbeat_node, remove_node, live, sweep, chosen_ttl, register, heartbeat, unregister,
}

-- The record of a node that was just registered.
pub register_lem :
    (now : ℕ) (service id addr : Text) (meta : Meta) (ttl : ℤ) (r : RegistrySvc)
    → node service id (register now service id addr meta ttl r).backend
      ≡ some (new_record now addr meta (chosen_ttl r.default_ttl ttl))
unfolding register insert_node node
register_lem now service id addr meta ttl r = ground (arith, same_refl service, same_refl id)

live_before : (now : ℕ) (n : NodeRecord) → now < n.expires_at → live now (some n) ≡ some n
unfolding live
live_before now n h = ground arith

live_after : (now : ℕ) (n : NodeRecord) → n.expires_at ≤ now → live now (some n) ≡ none
unfolding live
live_after now n h = ground arith

registered_default :
    (now : ℕ) (service id addr : Text) (meta : Meta) (asked : ℕ) (r : RegistrySvc)
    → (register now service id addr meta (pos asked) r).default_ttl ≡ r.default_ttl
unfolding register
registered_default now service id addr meta asked r = refl

-- A sweep leaves of each node what is not past its deadline.
pub sweep-node :
    (now : ℕ) (service id : Text) (st : RegistryState)
    → node service id (sweep now st) ≡ live now (node service id st)
unfolding sweep node live
sweep-node now service id st = elim (Option-cases (st.services service)) [
  | inl e ↦ rw (e, node) refl
  | inr (m, e) ↦ rw (e, node) refl
]

pub heartbeat_lem :
    (now : ℕ) (service id : Text) (n : NodeRecord) (r : RegistrySvc)
    → node service id r.backend ≡ some n
    → ((heartbeat now service id r).0 ≡ true)
      × (node service id (heartbeat now service id r).1.backend
          ≡ some (refresh now r.default_ttl n))
unfolding heartbeat heartbeat_node node
heartbeat_lem now service id n r h = elim (Option-cases (r.backend.services service)) [
  | inl e ↦ ground arith
  | inr (m, e) ↦ elim (Option-cases (m id)) [
    | inl q ↦ ground arith
    | inr (k, q) ↦ ground (arith, same_refl service, same_refl id)
  ]
]

-- A registered node that sends no heartbeat is there after a sweep exactly if the sweep comes before
-- its deadline: the registration's time and its lease, the default where none was asked for, of at
-- least a second.
pub register-sweep :
    (now later : ℕ) (service id addr : Text) (meta : Meta) (ttl : ℤ) (r : RegistrySvc)
    → let lease = chosen_ttl r.default_ttl ttl in
      node service id (sweep later (register now service id addr meta ttl r).backend)
      ≡ (if ltb later (deadline now lease) then some (new_record now addr meta lease) else none)
unfolding live
register-sweep now later service id addr meta ttl r =
    let t = (register now service id addr meta ttl r).backend in
    sweep-node later service id t ∙ ap (live later) (register_lem now service id addr meta ttl r)

-- A heartbeat of a node that is there is acknowledged and sets its deadline anew, by the service's
-- default lease; a sweep before that deadline leaves the node.
pub heartbeat-sweep :
    (now later : ℕ) (service id : Text) (n : NodeRecord) (r : RegistrySvc)
    → node service id r.backend ≡ some n
    → later < deadline now r.default_ttl
    → let t = heartbeat now service id r in
      (t.0 ≡ true)
      × (node service id (sweep later t.1.backend) ≡ some (refresh now r.default_ttl n))
heartbeat-sweep now later service id n r h early =
    let (a, b) = heartbeat_lem now service id n r h in
    (
      a,
      sweep-node later service id (heartbeat now service id r).1.backend
          ∙ ap (live later) b
          ∙ live_before later (refresh now r.default_ttl n) early,
    )

-- The bug: a heartbeat can shorten a lease. A node that asked for a longer lease than the default,
-- and that sends a heartbeat at once, is gone after a sweep at a time when, without the heartbeat,
-- it would still be there.
pub heartbeat_shortens :
    (now later : ℕ) (service id addr : Text) (meta : Meta) (asked default : ℕ) (r : RegistrySvc)
    → 0 < asked
    → r.default_ttl ≡ pos default
    → now + max default 1 * 1000000000 ≤ later
    → later < now + asked * 1000000000
    → let t = register now service id addr meta (pos asked) r in
      (node service id (sweep later (heartbeat now service id t).1.backend) ≡ none)
      × (node service id (sweep later t.backend) ≡ some (new_record now addr meta (pos asked)))
heartbeat_shortens now later service id addr meta asked default r some_time d late early =
    let t = register now service id addr meta (pos asked) r in
    let lease : chosen_ttl r.default_ttl (pos asked) ≡ pos asked = ground arith in
    let there : node service id t.backend ≡ some (new_record now addr meta (pos asked)) =
      register_lem now service id addr meta (pos asked) r
      ∙ ap (λ l. some (new_record now addr meta l)) lease in
    let n = new_record now addr meta (pos asked) in
    let (a, b) = heartbeat_lem now service id n t there in
    let same_default : t.default_ttl ≡ pos default =
      registered_default now service id addr meta asked r ∙ d in
    let due : deadline now t.default_ttl ≤ later =
      subst (λ l. deadline now l ≤ later) (sym same_default) late in
    (
      sweep-node later service id (heartbeat now service id t).1.backend
          ∙ ap (live later) b
          ∙ live_after later (refresh now t.default_ttl n) due,
      sweep-node later service id t.backend
          ∙ ap (live later) there
          ∙ live_before later n (omega arith),
    )

-- A node that has unregistered is not found.
pub unregister_lem :
    (service id : Text) (r : RegistrySvc) → node service id (unregister service id r).backend ≡ none
unfolding unregister remove_node node
unregister_lem service id r = elim (Option-cases (r.backend.services service)) [
  | inl e ↦ ground arith
  | inr (m, e) ↦ ground (arith, same_refl service, same_refl id)
]
