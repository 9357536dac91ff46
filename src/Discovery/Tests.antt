-- ===== src/Discovery/Tests.antt =====
-- Runs of the discovery at concrete nodes.
use grimoire.Prelude.{◌≡◌, inl, inr, refl, sym, ◌∙◌, subst, arith, some, [], ◌∷◌, codes, Has, ok}
use grimoire.Common.{domain_battle, svc_battle}
use grimoire.Registry.{NodeInfo}
use grimoire.Discovery.{World, init, resolve, service_for_domain}
use grimoire.Discovery.Ring.{chosen, key_hash, fnv1a}
use grimoire.Discovery.Owner.{IsOwner}
use grimoire.Discovery.Affinity.{IsSeparate, chosen-IsOwner, chosen-keeps}
use grimoire.Discovery.Cache.{IsBuilt, served, nodes_for, resolve-served}
use grimoire.Discovery.Standard.{standard}

abbrev one : NodeInfo
one = record { node_id = codes "battle-svc-1"; addr = []; meta = [] }

abbrev two : NodeInfo
two = record { node_id = codes "battle-svc-2"; addr = []; meta = [] }

chosen-IsOwner_example :
    (n : NodeInfo) × (chosen standard (one ∷ two ∷ []) 7 ≡ some n)
    × Has n (one ∷ two ∷ [])
    × IsOwner (key_hash 7) (one ∷ two ∷ []) n
chosen-IsOwner_example = chosen-IsOwner standard (one ∷ two ∷ []) 7 (omega arith)

-- The reference values of FNV-1a for the empty text and for "a".
fnv1a_values : (fnv1a [] ≡ 0x811c9dc5) × (fnv1a (codes "a") ≡ 0xe40c292c)
unfolding fnv1a
fnv1a_values = (refl, refl)

-- The node that key 7 goes to, of two.
abbrev first_choice : NodeInfo
first_choice = (chosen-IsOwner standard (one ∷ two ∷ []) 7 (omega arith)).0

alone : (n m : NodeInfo) → Has m (n ∷ []) → m ≡ n
alone n m (inl e) = e
alone n m (inr h) = elim h [ ]

alone-IsSeparate : (n : NodeInfo) → IsSeparate (n ∷ [])
alone-IsSeparate n p a b (x, v, c, e) (y, w, d, f) = alone n a x ∙ sym (alone n b y)

-- The other node goes.
chosen-keeps_example : chosen standard (first_choice ∷ []) 7 ≡ some first_choice
chosen-keeps_example =
    chosen-keeps standard (one ∷ two ∷ []) (first_choice ∷ []) 7 first_choice
      (λ m h.
        subst (λ (x : NodeInfo). Has x (one ∷ two ∷ [])) (sym (alone first_choice m h))
          ((chosen-IsOwner standard (one ∷ two ∷ []) 7 (omega arith)).2))
      (alone-IsSeparate first_choice) (inl refl)
      ((chosen-IsOwner standard (one ∷ two ∷ []) 7 (omega arith)).1)

abbrev world : World
world = record { now = 10; fetched = 20; registry = λ svc_name. some (one ∷ two ∷ []) }

init-IsBuilt : IsBuilt standard init
init-IsBuilt = record { built = λ k e h. absurd (ground arith) }

battle_service : service_for_domain domain_battle ≡ some svc_battle
unfolding service_for_domain
battle_service = refl

resolve-served_example :
    ((resolve standard world domain_battle (some 7) init).0
      ≡ ok (served standard (nodes_for standard world domain_battle svc_battle init) 7))
    × IsBuilt standard (resolve standard world domain_battle (some 7) init).1
resolve-served_example =
    resolve-served standard world domain_battle 7 svc_battle init init-IsBuilt battle_service
