-- ===== src/Svcfw/Rejoin.antt =====
-- A gateway that the registry has forgotten registers again, and the services' pushers look for it.
use grimoire.Prelude.{
  ℕ, ◌≡◌, ◌≢◌, refl, sym, ap, ◌∙◌, subst, arith, inl, inr, Bool, true, false, Option, none, some,
  List, [], ◌∷◌, Text, find, Option-cases, Has, Bool-cases,
}
use grimoire.Common.{svc_gateway}
use grimoire.Registry.{
  RegistrySvc, NodeRecord, NodeInfo, TextMap, node, heartbeat, heartbeat_node, discover,
  discover_nodes, node_infos, new_record, chosen_ttl,
}
use grimoire.Registry.Leases.{register_lem}
use grimoire.Svcfw.Pusher.{Network, get_meta, is_gateway, find_gateway}
use grimoire.Svcfw.Registration.{Registration, reached, rejoin, beat}

heartbeat_missed :
    (now : ℕ) (service id : Text) (r : RegistrySvc)
    → node service id r.backend ≡ none
    → heartbeat now service id r ≡ (false, r)
unfolding heartbeat heartbeat_node node
heartbeat_missed now service id r h = elim (Option-cases (r.backend.services service)) [
  | inl e ↦ ground arith
  | inr (m, e) ↦ ground arith
]

-- A heartbeat that the registry refuses brings the node back, with no metadata.
beat-rejoin :
    (now : ℕ) (g : Registration) (r : RegistrySvc)
    → node g.service g.node_id r.backend ≡ none
    → node g.service g.node_id (beat now g (reached true) r).backend
      ≡ some (new_record now g.addr [] (chosen_ttl r.default_ttl g.ttl_secs))
unfolding beat rejoin
beat-rejoin now g r h =
    rw (heartbeat_missed now g.service g.node_id r h)
      (register_lem now g.service g.node_id g.addr [] g.ttl_secs r)

-- A node without metadata is no gateway's.
no_meta : (gw : ℕ) (n : NodeInfo) → n.meta ≡ [] → is_gateway gw n ≡ false
unfolding is_gateway get_meta
no_meta gw n h = ground arith

find-some :
    {A : Type 0} (p : A → Bool) (xs : List A) (x : A) → find p xs ≡ some x → Has x xs × (p x ≡ true)
unfolding find
find-some p [] x h = absurd (ground arith)
find-some p (y ∷ ys) x h = elim (Bool-cases (p y)) [
  | inl t ↦ let e : y ≡ x = ground arith in (inl (sym e), subst (λ z. p z ≡ true) e t)
  | inr t ↦ let (a, b) = find-some p ys x (ground arith) in (inr a, b)
]

-- What is listed is what the records say.
node_infos-Has :
    (m : TextMap NodeRecord) (scan : List Text) (n : NodeInfo)
    → Has n (node_infos m scan)
    → (x : NodeRecord) × (m n.node_id ≡ some x) × (n.meta ≡ x.meta)
unfolding node_infos
node_infos-Has m [] n h = elim h [ ]
node_infos-Has m (id ∷ scan) n h = go (m id) refl (node_infos-Has m scan n) h
  where
    go :
        (o : Option NodeRecord)
        → m id ≡ o
        → (Has n (node_infos m scan)
            → (x : NodeRecord) × (m n.node_id ≡ some x) × (n.meta ≡ x.meta))
        → Has n (elim o [
          | none ↦ node_infos m scan
          | some y ↦ record { node_id = id; addr = y.addr; meta = y.meta } ∷ node_infos m scan
        ])
        → (x : NodeRecord) × (m n.node_id ≡ some x) × (n.meta ≡ x.meta)
    go none e ih k = ih k
    go (some y) e ih (inl q) =
        (y, ap (λ (z : NodeInfo). m z.node_id) q ∙ e, ap (λ (z : NodeInfo). z.meta) q)
    go (some y) e ih (inr k) = ih k

-- The registry lists a service's nodes, if it has the service.
discover-none :
    (service : Text) (scan : List Text) (r : RegistrySvc)
    → r.backend.services service ≡ none
    → discover service scan r ≡ []
unfolding discover discover_nodes
discover-none service scan r e = rw (e, discover_nodes) refl

discover-some :
    (service : Text) (scan : List Text) (r : RegistrySvc) (m : TextMap NodeRecord)
    → r.backend.services service ≡ some m
    → discover service scan r ≡ node_infos m scan
unfolding discover discover_nodes
discover-some service scan r m e = rw (e, discover_nodes) refl

node-some :
    (service id : Text) (r : RegistrySvc) (m : TextMap NodeRecord)
    → r.backend.services service ≡ some m
    → node service id r.backend ≡ m id
unfolding node
node-some service id r m e = rw (e, node) refl

-- A node that the registry lists has its record's metadata.
discover-Has :
    (service : Text) (scan : List Text) (r : RegistrySvc) (n : NodeInfo)
    → Has n (discover service scan r)
    → (x : NodeRecord) × (node service n.node_id r.backend ≡ some x) × (n.meta ≡ x.meta)
discover-Has service scan r n h = elim (Option-cases (r.backend.services service)) [
  | inl e ↦ elim (subst (Has n) (discover-none service scan r e) h) [ ]
  | inr (m, e) ↦
      let (x, a, b) =
        node_infos-Has m scan n (subst (Has n) (discover-some service scan r m e) h) in
      (x, node-some service n.node_id r m e ∙ a, b)
]

find_gateway_lem :
    (w : Network) (gw : ℕ) (nodes : List NodeInfo)
    → w.registry svc_gateway ≡ some nodes
    → find_gateway w gw ≡ find (is_gateway gw) nodes
unfolding find_gateway
find_gateway_lem w gw nodes e = rw (e, find_gateway) refl

same_meta : (x y : NodeRecord) → some x ≡ some y → x.meta ≡ y.meta
same_meta x y e = cc

-- The bug: registering again leaves out the metadata. Once the registry has forgotten a gateway and
-- refused its heartbeat, the gateway is registered again, but without its number: in whatever order
-- the registry lists its nodes, a pusher that looks for the gateway of any number is not led to it.
pub rejoin_loses_gateway :
    (now gw : ℕ) (g : Registration) (r : RegistrySvc) (w : Network) (scan : List Text)
    (n : NodeInfo)
    → g.service ≡ svc_gateway
    → node svc_gateway g.node_id r.backend ≡ none
    → w.registry svc_gateway ≡ some (discover svc_gateway scan (beat now g (reached true) r))
    → find_gateway w gw ≡ some n
    → n.node_id ≢ g.node_id
rejoin_loses_gateway now gw g r w scan n s h q f same_id =
    let t = beat now g (reached true) r in
    let bare = new_record now g.addr [] (chosen_ttl r.default_ttl g.ttl_secs) in
    let back : node svc_gateway g.node_id t.backend ≡ some bare =
      subst (λ z. node z g.node_id t.backend ≡ some bare) s
        (beat-rejoin now g r (subst (λ z. node z g.node_id r.backend ≡ none) (sym s) h)) in
    let (there, yes_gateway) =
      find-some (is_gateway gw) (discover svc_gateway scan t) n
        (sym (find_gateway_lem w gw (discover svc_gateway scan t) q) ∙ f) in
    let (x, a, b) = discover-Has svc_gateway scan t n there in
    let here : node svc_gateway n.node_id t.backend ≡ some bare =
      subst (λ z. node svc_gateway z t.backend ≡ some bare) (sym same_id) back in
    let no_gateway : is_gateway gw n ≡ false = no_meta gw n (b ∙ same_meta x bare (sym a ∙ here)) in
    absurd (ground (arith, yes_gateway, no_gateway))
