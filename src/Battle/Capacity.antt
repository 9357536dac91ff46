-- ===== src/Battle/Capacity.antt =====
-- One request after the other, no battle has more players than its capacity.
use grimoire.Prelude.{
  ℕ, ◌+◌, ◌<◌, ◌≤◌, ◌≡◌, ◌≢◌, ◌%◌, ◌^◌, refl, sym, ap, ◌∙◌, arith, inl, inr, Bool, true, false, ltb,
  ltb→lt, none, some, List, [], ◌∷◌, length, Map, insert, insert-cases, insert_self, Assoc, put,
  erase, Bool-cases, Option-cases, ok,
}
use grimoire.Battle.{Float32, Player, Battle, battle_capacity, new, add_player, is_full}
use grimoire.Battle.Service.{
  App, BattleJoinResp, join_resp, find_room, target_battle, take_place, announce, enter, join,
  bound_battle, with_player, init,
}

module _ {R : Type 0} where
  pub record IsWithin (s : App R) : Type 0 where
    pub fits : (k : ℕ) (b : Battle R) → s.battles k ≡ some b → length b.players ≤ battle_capacity

  pub IsWithin-init : (has_dir : Bool) (n : List ℕ) → IsWithin (init {R = R} has_dir n)
  IsWithin-init has_dir n = record { fits = λ k b h. cc }

  pub set_battle-IsWithin :
      (s t : App R) (k : ℕ) (b : Battle R)
      → IsWithin s
      → t.battles ≡ insert k b s.battles
      → length b.players ≤ battle_capacity
      → IsWithin t
  set_battle-IsWithin s t k b v e room = record {
    fits = λ j x h. elim (insert-cases k b s.battles j (ap (λ m. m j) (sym e) ∙ h)) [
      | inl (p, q) ↦ ground arith
      | inr (p, q) ↦ v.fits j x q
    ];
  }

  announce-battles :
      (id : ℕ) (created full : Bool) (s : App R) → (announce id created full s).battles ≡ s.battles
  unfolding announce
  announce-battles id created full s = ground arith

  announce-bound :
      (id : ℕ) (created full : Bool) (s : App R)
      → (announce id created full s).conn_battle ≡ s.conn_battle
  unfolding announce
  announce-bound id created full s = ground arith

  bound_battle-some :
      (s : App R) (c : ℕ) (x : ℕ × ℕ × Battle R)
      → bound_battle s c ≡ some x
      → s.conn_battle c ≢ none
  unfolding bound_battle
  bound_battle-some s c x h = ground arith

  length-put : (k : ℕ) (v : Player R) (m : Assoc (Player R)) → length (put k v m) ≤ length m + 1
  unfolding put
  length-put k v [] = omega arith
  length-put k v (e ∷ m) = ground (arith, length-put k v m)

  pub length-erase_le : (k : ℕ) (m : Assoc (Player R)) → length (erase k m) ≤ length m
  unfolding erase
  length-erase_le k [] = omega arith
  length-erase_le k (e ∷ m) = ground (arith, length-erase_le k m)

  -- The search finds a battle that is there and has room.
  find_room-some :
      (battles : Map (Battle R)) (scan : List ℕ) (id : ℕ)
      → find_room battles scan ≡ some id
      → (b : Battle R) × (battles id ≡ some b) × (length b.players < battle_capacity)
  unfolding find_room
  find_room-some battles [] id h = cc
  find_room-some battles (k ∷ scan) id h = elim (Option-cases (battles k)) [
    | inl e ↦ find_room-some battles scan id (ground arith)
    | inr (b, e) ↦ elim (Bool-cases (ltb (length b.players) battle_capacity)) [
      | inl l ↦ (b, ground arith, ltb→lt (length b.players) battle_capacity l)
      | inr l ↦ find_room-some battles scan id (ground arith)
    ]
  ]

module _ {R : Type 0} (F : Float32 R) where
  length-with_player :
      (c n : ℕ) (b : Battle R) → length (with_player F c n b).players ≤ length b.players + 1
  unfolding add_player
  length-with_player c n b = length-put n _ b.players

  -- Entering a battle with room, one that is there.
  take_place-IsWithin :
      (s : App R) (c id n : ℕ) (created : Bool) (b : Battle R)
      → IsWithin s
      → s.battles id ≡ some b
      → length b.players < battle_capacity
      → (a : BattleJoinResp R) × (t : App R) × (take_place F c (id, created) n s ≡ (ok a, t))
        × (t.conn_battle c ≡ some (id, n))
        × IsWithin t
  unfolding take_place
  take_place-IsWithin s c id n created b v h room =
      let b' = with_player F c n b in
      let s' = record s {
        battles = insert id b' s.battles;
        conn_battle = insert c (id, n) s.conn_battle;
      } in
      let t = announce id created (is_full b') s' in
      (
        join_resp id n b',
        t,
        rw (h, take_place) refl,
        ap (λ m. m c) (announce-bound id created (is_full b') s')
            ∙ insert_self c (id, n) s.conn_battle,
        set_battle-IsWithin s t id b' v (announce-battles id created (is_full b') s')
            (omega (arith, length-with_player c n b, room)),
      )

  -- In a state where no battle is beyond its capacity, a request to join is answered without a
  -- panic, whatever the order in which the battles are searched, and in the state after it no
  -- battle is beyond its capacity and the connection is bound to a battle.
  pub join-IsWithin :
      (s : App R) (c : ℕ) (scan : List ℕ)
      → IsWithin s
      → (a : BattleJoinResp R) × (t : App R) × (join F c scan s ≡ (ok a, t))
        × (t.conn_battle c ≢ none)
        × IsWithin t
  unfolding join enter target_battle
  join-IsWithin s c scan v = elim (Option-cases (bound_battle s c)) [
    | inr ((bid, pid, b), e) ↦
        rw (e, join) (join_resp bid pid b, s, refl, bound_battle-some s c (bid, pid, b) e, v)
    | inl e ↦ elim (Option-cases (find_room s.battles scan)) [
      | inr (id, q) ↦
          let (b, h, room) = find_room-some s.battles scan id q in
          let t = record s { next_player = (s.next_player + 1) % 2 ^ 32 } in
          let (a, u, w, bound, x) =
            take_place-IsWithin t c id s.next_player false b (record { fits = v.fits }) h room in
          rw (e, join) (rw (q, enter) (rw w (a, u, refl, ground arith, x)))
      | inl q ↦
          let id = s.next_battle in
          let made = record s {
            battles = insert id (new id) s.battles;
            next_battle = (id + 1) % 2 ^ 32;
          } in
          let t = record made { next_player = (s.next_player + 1) % 2 ^ 32 } in
          let ready : IsWithin t = set_battle-IsWithin s t id (new id) v refl (omega arith) in
          let (a, u, w, bound, x) =
            take_place-IsWithin t c id s.next_player true (new id) ready
              (insert_self id (new id) s.battles) (omega arith) in
          rw (e, join) (rw (q, enter) (rw w (a, u, refl, ground arith, x)))
    ]
  ]
