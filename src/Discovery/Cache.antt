-- ===== src/Discovery/Cache.antt =====
-- The cache of a domain's nodes and the choice from it.
use grimoire.Prelude.{
  ℕ, ◌<◌, ◌≡◌, refl, sym, ap, ◌∙◌, arith, inl, inr, Bool-cases, Option-cases, Option, none, some,
  List, length, ok, Text, if◌then◌else◌, ◌==◌, insert, insert-cases, insert_self,
}
use mathlib.Core.Option
use grimoire.Registry.{NodeInfo}
use grimoire.Discovery.{
  Discovery, CacheEntry, World, service_for_domain, need_fetch, fetch, fresh, choose, choose_from,
  resolve,
}
use grimoire.Discovery.Ring.{Slices, build, pick, chosen}
use grimoire.Discovery.Affinity.{chosen-IsOwner}

-- Each ring is that of its nodes.
pub record IsBuilt (sl : Slices) (d : Discovery) : Type 0 where
  pub built : (k : ℕ) (e : CacheEntry) → d.cache k ≡ some e → e.ring ≡ build sl e.nodes

module _ (sl : Slices) where
  -- The node that a key is served by, of those that the registry lists.
  abbrev pub served : Option (List NodeInfo) → ℕ → Option NodeInfo
  served none key = none
  served (some nodes) key = if length nodes == 0 then none else chosen sl nodes key

  -- The nodes to choose from: the cached ones while they are fresh, else the registry's answer.
  abbrev pub nodes_for : World → ℕ → Text → Discovery → Option (List NodeInfo)
  nodes_for w domain svc_name d =
      if need_fetch w.now domain d
      then w.registry svc_name
      else Option.map (λ (e : CacheEntry). e.nodes) (d.cache domain)

  choose-chosen :
      (e : CacheEntry) (key : ℕ) (d : Discovery)
      → e.ring ≡ build sl e.nodes
      → 0 < length e.nodes
      → choose sl e (some key) d ≡ (ok (chosen sl e.nodes key), d)
  unfolding choose chosen
  choose-chosen e key d built some_node =
      let (n, h, x, own) = chosen-IsOwner sl e.nodes key some_node in
      at (pick sl (build sl e.nodes) key) (ap (λ r. pick sl r key) built) refl h
    where
      at :
          (o : Option ℕ)
          → pick sl e.ring key ≡ o
          → pick sl (build sl e.nodes) key ≡ o
          → chosen sl e.nodes key ≡ some ((chosen-IsOwner sl e.nodes key some_node).0)
          → choose sl e (some key) d ≡ (ok (chosen sl e.nodes key), d)
      at none q r h = absurd (ground arith)
      at (some i) q r h = rw (q, choose) (rw (r, chosen) refl)

  choose_from-served :
      (e : CacheEntry) (key : ℕ) (d : Discovery)
      → e.ring ≡ build sl e.nodes
      → choose_from sl (some key) (some e) d ≡ (ok (served (some e.nodes) key), d)
  unfolding choose_from
  choose_from-served e key d built = elim (Bool-cases (length e.nodes == 0)) [
    | inl t ↦ rw (t, choose_from) refl
    | inr t ↦ rw (t, choose_from) (choose-chosen e key d built (ground arith))
  ]

  set_entry-IsBuilt :
      (d : Discovery) (domain at : ℕ) (nodes : List NodeInfo)
      → IsBuilt sl d
      → IsBuilt sl (record d {
        cache =
            insert domain
              (record { nodes = nodes; ring = build sl nodes; fetched_at = at })
              d.cache;
      })
  set_entry-IsBuilt d domain at nodes v = record {
    built = λ k e h.
        elim (insert-cases domain (record { nodes = nodes; ring = build sl nodes; fetched_at = at })
          d.cache k h) [
            | inl (p, q) ↦
                ap (λ (x : CacheEntry). x.ring) (sym q)
                ∙ ap (λ (x : CacheEntry). build sl x.nodes) q
            | inr (p, q) ↦ v.built k e q
          ];
  }

  -- What `fresh` gives: the nodes to choose from, in the entry that the cache then has.
  abbrev Fresh : World → ℕ → Text → Discovery → Option CacheEntry × Discovery → Type 0
  Fresh w domain svc_name d (o, d') =
      (Option.map (λ (e : CacheEntry). e.nodes) o ≡ nodes_for w domain svc_name d)
      × ((e : CacheEntry) → o ≡ some e → (e.ring ≡ build sl e.nodes) × (d'.cache domain ≡ some e))
      × IsBuilt sl d'

  fresh-Fresh :
      (w : World) (domain : ℕ) (svc_name : Text) (d : Discovery)
      → IsBuilt sl d
      → Fresh w domain svc_name d (fresh sl w domain svc_name d)
  unfolding fresh fetch
  fresh-Fresh w domain svc_name d v = elim (Bool-cases (need_fetch w.now domain d)) [
    | inr t ↦ rw (t, fresh) (refl, λ e h. (v.built domain e h, h), v)
    | inl t ↦ elim (Option-cases (w.registry svc_name)) [
      | inl r ↦ rw (t, fresh) (rw (r, fetch) (refl, λ e h. absurd (ground arith), v))
      | inr (nodes, r) ↦
          let x : CacheEntry = record {
            nodes = nodes;
            ring = build sl nodes;
            fetched_at = w.fetched;
          } in
          let there = insert_self domain x d.cache in
          let w' = set_entry-IsBuilt d domain w.fetched nodes v in
          rw (t, fresh)
            (rw (r, fetch)
              (
                ap (Option.map (λ (e : CacheEntry). e.nodes)) there,
                λ e h. (w'.built domain e h, h),
                w',
              ))
    ]
  ]

  choose_from-none : (key : ℕ) (d : Discovery) → choose_from sl (some key) none d ≡ (ok none, d)
  unfolding choose_from
  choose_from-none key d = refl

  -- A keyed lookup of a domain that has a service is answered without a panic: by the node that owns
  -- the key among the cached nodes while these are fresh, else among those that the registry lists,
  -- and by none where there are no nodes or the registry fails. Every ring stays that of its nodes.
  pub resolve-served :
      (w : World) (domain key : ℕ) (svc_name : Text) (d : Discovery)
      → IsBuilt sl d
      → service_for_domain domain ≡ some svc_name
      → ((resolve sl w domain (some key) d).0 ≡ ok (served (nodes_for w domain svc_name d) key))
        × IsBuilt sl (resolve sl w domain (some key) d).1
  unfolding resolve
  resolve-served w domain key svc_name d v known =
      rw (known, resolve) (go (fresh sl w domain svc_name d) (fresh-Fresh w domain svc_name d v))
    where
      go :
          (r : Option CacheEntry × Discovery)
          → Fresh w domain svc_name d r
          → ((choose_from sl (some key) r.0 r.1).0
              ≡ ok (served (nodes_for w domain svc_name d) key))
            × IsBuilt sl (choose_from sl (some key) r.0 r.1).1
      go (none, d') (same, own, v') =
          rw (choose_from-none key d') (ap (λ o. ok (served o key)) same, v')
      go (some e, d') (same, own, v') =
          rw (choose_from-served e key d' (own e refl).0) (ap (λ o. ok (served o key)) same, v')
