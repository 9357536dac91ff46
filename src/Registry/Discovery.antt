-- ===== src/Registry/Discovery.antt =====
-- crates/grimoire-registry/src: what a search for the nodes of a service finds with either backend.
use grimoire.Prelude.{
  ◌≡◌, ◌↔◌, refl, sym, ap, subst, ◌∙◌, false, Option, none, some, List, [], ◌∷◌, ◌++◌, Text, inl,
  inr, Option-cases, Has,
}
use mathlib.Core.Option
use grimoire.Registry.{NodeInfo, NodeRecord, RegistryState, node, discover_nodes}
use grimoire.Registry.Etcd.{
  Client, EtcdBackend, Json, NodeValue, key, prefix, strip_prefix, as_node, nodes_of, discover,
}
use grimoire.Registry.Ownership.{has_slash}
use grimoire.Registry.Places.{recorded, recorded_value, is_recorded}
use grimoire.Registry.Agreement.{Agrees, stored}
use grimoire.Registry.Listing.{
  both_some, strip_prefix-append, strip_prefix-some, prefix-key, value_info, info,
  discover_nodes-Has, Has-discover_nodes, one_some, none_stored,
}

module _ {E : Type 0} (json : Json) (etcd : Client E) where
  -- The pair for a node that is listed.
  record Listed (s : Text) (kvs : List (Text × Text)) (x : NodeInfo) : Type 0 where
    k : Text
    v : Text
    id : Text
    value : NodeValue
    there : Has (k, v) kvs
    strips : strip_prefix (prefix s) k ≡ some id
    reads : json.from_str v ≡ some value
    is_node : x ≡ value_info id value

  later_Listed :
      (s : Text) (kv : Text × Text) (kvs : List (Text × Text)) (x : NodeInfo)
      → Listed s kvs x
      → Listed s (kv ∷ kvs) x
  later_Listed s kv kvs x l = record {
    k = l.k;
    v = l.v;
    id = l.id;
    value = l.value;
    there = inr l.there;
    strips = l.strips;
    reads = l.reads;
    is_node = l.is_node;
  }

  as_node-Listed :
      (s k v : Text) (kvs : List (Text × Text)) (x : NodeInfo) (o : Option Text)
      (p : Option NodeValue) (rest : List NodeInfo)
      → strip_prefix (prefix s) k ≡ o
      → json.from_str v ≡ p
      → (Has x rest → Listed s kvs x)
      → Has x (as_node json etcd o p rest)
      → Listed s ((k, v) ∷ kvs) x
  as_node-Listed s k v kvs x none p rest a b later h = later_Listed s (k, v) kvs x (later h)
  as_node-Listed s k v kvs x (some id) none rest a b later h = later_Listed s (k, v) kvs x (later h)
  as_node-Listed s k v kvs x (some id) (some value) rest a b later (inr h) =
      later_Listed s (k, v) kvs x (later h)
  as_node-Listed s k v kvs x (some id) (some value) rest a b later (inl e) = record {
    k = k;
    v = v;
    id = id;
    value = value;
    there = inl refl;
    strips = a;
    reads = b;
    is_node = e;
  }

  nodes_of-Listed :
      (s : Text) (kvs : List (Text × Text)) (x : NodeInfo)
      → Has x (nodes_of json etcd s kvs)
      → Listed s kvs x
  unfolding nodes_of
  nodes_of-Listed s [] x h = elim h [ ]
  nodes_of-Listed s ((k, v) ∷ kvs) x h =
      as_node-Listed s k v kvs x (strip_prefix (prefix s) k) (json.from_str v)
        (nodes_of json etcd s kvs) refl refl (nodes_of-Listed s kvs x) h

  Has-as_node :
      (x : NodeInfo) (o : Option Text) (p : Option NodeValue) (rest : List NodeInfo)
      → Has x rest
      → Has x (as_node json etcd o p rest)
  Has-as_node x none p rest h = h
  Has-as_node x (some id) none rest h = h
  Has-as_node x (some id) (some v) rest h = inr h

  Has-nodes_of :
      (s k v id : Text) (value : NodeValue) (kvs : List (Text × Text))
      → Has (k, v) kvs
      → strip_prefix (prefix s) k ≡ some id
      → json.from_str v ≡ some value
      → Has (value_info id value) (nodes_of json etcd s kvs)
  unfolding nodes_of
  Has-nodes_of s k v id value [] h p q = elim h [ ]
  Has-nodes_of s k v id value ((k', v') ∷ kvs) (inl e) p q =
      let rest = nodes_of json etcd s kvs in
      let p' : strip_prefix (prefix s) k' ≡ some id =
        ap (λ (y : Text × Text). strip_prefix (prefix s) y.0) (sym e) ∙ p in
      let q' : json.from_str v' ≡ some value =
        ap (λ (y : Text × Text). json.from_str y.1) (sym e) ∙ q in
      subst (Has (value_info id value))
        (sym (
          ap (λ o. as_node json etcd o (json.from_str v') rest) p'
          ∙ ap (λ o. as_node json etcd (some id) o rest) q'))
        (inl refl)
  Has-nodes_of s k v id value ((k', v') ∷ kvs) (inr h) p q =
      Has-as_node (value_info id value) (strip_prefix (prefix s) k') (json.from_str v')
        (nodes_of json etcd s kvs) (Has-nodes_of s k v id value kvs h p q)

  discover_lem :
      (s : Text) (kvs : List (Text × Text)) (b : EtcdBackend E)
      → etcd.get_prefix (prefix s) b.client ≡ some kvs
      → discover json etcd s b ≡ nodes_of json etcd s kvs
  unfolding discover
  discover_lem s kvs b h = rw (h, discover) refl

  -- What etcd finds is in the table of the memory backend.
  discover-node :
      (s : Text) (kvs : List (Text × Text)) (x : NodeInfo) (b : EtcdBackend E) (st : RegistryState)
      → Agrees json etcd b st
      → has_slash s ≡ false
      → etcd.get_prefix (prefix s) b.client ≡ some kvs
      → Has x (discover json etcd s b)
      → (id : Text) × (n : NodeRecord) × (node s id st ≡ some n) × (x ≡ info id n)
  discover-node s kvs x b st agrees plain g h =
      let l = nodes_of-Listed s kvs x (subst (Has x) (discover_lem s kvs b g) h) in
      let (rest, e, (lease, there)) =
        etcd.get_prefix-at (prefix s) l.k l.v kvs b.client g l.there in
      let is_key : l.k ≡ key s l.id =
        strip_prefix-some (prefix s) l.k l.id l.strips ∙ prefix-key s l.id in
      let held : etcd.at (key s l.id) b.client ≡ some (l.v, lease) =
        ap (λ k. etcd.at k b.client) (sym is_key) ∙ there in
      let r : recorded s l.id st ≡ some (some l.value) =
        sym (agrees.alike s l.id plain)
        ∙ ap (Option.map (λ y. json.from_str y.0)) held
        ∙ ap some l.reads in
      let (n, e') = is_recorded s l.id st (some l.value) r in
      let same_value : l.value ≡ record { addr = n.addr; meta = n.meta } =
        both_some (sym r ∙ ap (Option.map recorded_value) e') in
      (l.id, n, e', l.is_node ∙ ap (value_info l.id) same_value)

  -- A node of the memory backend's table is found in etcd.
  node-discover :
      (s id : Text) (n : NodeRecord) (kvs : List (Text × Text)) (b : EtcdBackend E)
      (st : RegistryState)
      → Agrees json etcd b st
      → has_slash s ≡ false
      → etcd.get_prefix (prefix s) b.client ≡ some kvs
      → node s id st ≡ some n
      → Has (info id n) (discover json etcd s b)
  node-discover s id n kvs b st agrees plain g e =
      let r : stored json etcd s id b ≡ some (recorded_value n) =
        agrees.alike s id plain ∙ ap (Option.map recorded_value) e in
      elim (Option-cases (etcd.at (key s id) b.client)) [
        | inl q ↦ absurd (none_stored (sym (ap (Option.map (λ y. json.from_str y.0)) q) ∙ r))
        | inr (x, q) ↦
            let reads : json.from_str x.0 ≡ recorded_value n =
              one_some (sym (ap (Option.map (λ y. json.from_str y.0)) q) ∙ r) in
            let there =
              etcd.at-get_prefix (prefix s) id x.0 x.1 kvs b.client g
                (ap (λ k. etcd.at k b.client) (prefix-key s id) ∙ q) in
            subst (Has (info id n)) (sym (discover_lem s kvs b g)) (
              Has-nodes_of s (prefix s ++ id) x.0 id (record { addr = n.addr; meta = n.meta }) kvs
                there (strip_prefix-append (prefix s) id) reads)
      ]

  -- A search finds the same nodes with both.
  pub discover-Agrees :
      (s : Text) (scan : List Text) (kvs : List (Text × Text)) (x : NodeInfo) (b : EtcdBackend E)
      (st : RegistryState)
      → Agrees json etcd b st
      → has_slash s ≡ false
      → etcd.get_prefix (prefix s) b.client ≡ some kvs
      → ((id : Text) (n : NodeRecord) → node s id st ≡ some n → Has id scan)
      → Has x (discover json etcd s b) ↔ Has x (discover_nodes s scan st)
  discover-Agrees s scan kvs x b st agrees plain g visited = (
    λ h.
        let (id, n, e, q) = discover-node s kvs x b st agrees plain g h in
        subst (λ y. Has y (discover_nodes s scan st)) (sym q)
          (Has-discover_nodes s scan id n st (visited id n e) e),
    λ h.
        let (id, n, e, q) = discover_nodes-Has s scan x st h in
        subst (λ y. Has y (discover json etcd s b)) (sym q)
          (node-discover s id n kvs b st agrees plain g e),
  )
