-- ===== src/Battle/Service.antt =====
-- crates/grimoire-battle-svc/src/main.rs, `App`: the battles of the service and its handlers. What
-- is sent out is appended to `out`, as the code ignores what comes back of it; the order in which the
-- map of battles is iterated over is an argument.
use grimoire.Prelude.{
  ℕ, ◌+◌, ◌%◌, ◌^◌, Bool, true, false, ltb, ◌==◌, if◌then◌else◌, Option, none, some, List, [], ◌∷◌,
  ◌++◌, map, length, Map, empty, insert, remove, values, Text, ok, panic, Exec, ◌>>=◌,
}
use grimoire.Common.{domain_battle, battle_frame_sync}
use grimoire.Battle.{
  Float32, Battle, BattlePlayer, FrameSyncPush, battle_capacity, frame_rate, new, is_full, protos,
  snapshot, add_player, remove_player, input, resync, tick_frame,
}

pub data Effect (R : Type 0) : Type 0 where
  push_udp : ℕ → ℕ → FrameSyncPush R → Effect R
  dir_bind : ℕ → ℕ → Text → Effect R
  dir_remove lobby_set lobby_clear : ℕ → ℕ → Effect R

pub record App (R : Type 0) : Type 0 where
  pub battles : Map (Battle R)
  pub conn_battle : Map (ℕ × ℕ)
  pub next_player : ℕ
  pub next_battle : ℕ
  pub has_dir : Bool
  pub node_id : Text
  pub out : List (Effect R)

pub record BattleJoinResp (R : Type 0) : Type 0 where
  pub battle_id : ℕ
  pub player_id : ℕ
  pub frame_rate : ℕ
  pub players : List (BattlePlayer R)

module _ {R : Type 0} where
  abbrev pub init : Bool → Text → App R
  init has_dir node_id = record {
    battles = empty;
    conn_battle = empty;
    next_player = 1;
    next_battle = 1;
    has_dir = has_dir;
    node_id = node_id;
    out = [];
  }

  abbrev pub emit : List (Effect R) → App R → App R
  emit es s = record s { out = s.out ++ es }

  -- What is sent only where there is a session directory.
  abbrev pub emit_dir : List (Effect R) → App R → App R
  emit_dir es s = if s.has_dir then emit es s else s

  abbrev pub join_resp : ℕ → ℕ → Battle R → BattleJoinResp R
  join_resp battle_id player_id b = record {
    battle_id = battle_id;
    player_id = player_id;
    frame_rate = frame_rate;
    players = protos b;
  }

  -- The first battle with room in the order of the iteration.
  unfoldable pub find_room : Map (Battle R) → List ℕ → Option ℕ
  find_room battles [] = none
  find_room battles (id ∷ scan) = elim (battles id) [
    | none ↦ find_room battles scan
    | some b ↦ if ltb (length b.players) battle_capacity then some id else find_room battles scan
  ]

  -- The battle to join, and whether it was created.
  unfoldable pub target_battle : Option ℕ → Exec (App R) (ℕ × Bool)
  target_battle (some id) s = (ok (id, false), s)
  target_battle none s = (
    ok (s.next_battle, true),
    record s {
      battles = insert s.next_battle (new s.next_battle) s.battles;
      next_battle = (s.next_battle + 1) % 2 ^ 32;
    },
  )

  abbrev pub fetch_next_player : Exec (App R) ℕ
  fetch_next_player s = (ok s.next_player, record s { next_player = (s.next_player + 1) % 2 ^ 32 })

  -- The directory entry; a new battle goes to the lobby, a full one leaves it.
  unfoldable pub announce : ℕ → Bool → Bool → App R → App R
  announce id created full s =
      emit_dir
        (dir_bind domain_battle id s.node_id
          ∷ ((if created then lobby_set domain_battle id ∷ [] else [])
              ++ (if full then lobby_clear domain_battle id ∷ [] else [])))
        s

  -- The battle and the player that a connection is bound to, if the battle is there.
  unfoldable pub bound_battle : App R → ℕ → Option (ℕ × ℕ × Battle R)
  bound_battle s conn_id = elim (s.conn_battle conn_id) [
    | none ↦ none
    | some (bid, pid) ↦ elim (s.battles bid) [ none ↦ none | some b ↦ some (bid, pid, b) ]
  ]

  unfoldable pub app_input : ℕ → R → R → ℕ → Exec (App R) Bool
  app_input conn_id dx dy frame s = elim (bound_battle s conn_id) [
    | none ↦ (ok false, s)
    | some (bid, pid, b) ↦
        (ok true, record s { battles = insert bid (input pid dx dy frame b) s.battles })
  ]

  unfoldable pub app_resync : ℕ → ℕ → Exec (App R) (Option (List (FrameSyncPush R)))
  app_resync conn_id last_frame s = elim (bound_battle s conn_id) [
    | none ↦ (ok none, s)
    | some (bid, pid, b) ↦ (ok (some (resync last_frame b)), s)
  ]

  -- The battle without the player: an empty one is closed, one with a single player is put into the
  -- lobby again.
  unfoldable pub after_leave : ℕ → Battle R → App R → App R
  after_leave bid b s =
      if length b.players == 0
      then emit_dir (dir_remove domain_battle bid ∷ [])
          (record s { battles = remove bid s.battles })
      else if length b.players == 1
      then emit_dir (lobby_set domain_battle bid ∷ [])
          (record s { battles = insert bid b s.battles })
      else record s { battles = insert bid b s.battles }

  unfoldable pub leave : ℕ → Exec (App R) Bool
  leave conn_id s = elim (s.conn_battle conn_id) [
    | none ↦ (ok false, s)
    | some (bid, pid) ↦ elim (s.battles bid) [
      | none ↦ (ok true, record s { conn_battle = remove conn_id s.conn_battle })
      | some b ↦ (
        ok true,
        after_leave bid (remove_player pid b)
            (record s { conn_battle = remove conn_id s.conn_battle }),
      )
    ]
  ]

module _ {R : Type 0} (F : Float32 R) where
  -- The battle with the new player in it, at the start place that `add_player` gives.
  abbrev pub with_player : ℕ → ℕ → Battle R → Battle R
  with_player conn_id player_id b =
      add_player F
        (record { player_id = player_id; x = F.lit 0 1; y = F.lit 0 1; conn_id = conn_id }) b

  -- The player joins the battle, under its lock.
  unfoldable pub take_place : ℕ → ℕ × Bool → ℕ → Exec (App R) (BattleJoinResp R)
  take_place conn_id (id, created) player_id s = elim (s.battles id) [
    | none ↦ (panic, s)
    | some b ↦
        let b' = with_player conn_id player_id b in
        (
          ok (join_resp id player_id b'),
          announce id created (is_full b') (record s {
            battles = insert id b' s.battles;
            conn_battle = insert conn_id (id, player_id) s.conn_battle;
          }),
        )
  ]

  -- What follows the search for a battle with room.
  unfoldable pub enter : ℕ → Option ℕ → Exec (App R) (BattleJoinResp R)
  enter conn_id found = do
    target ← target_battle found
    player_id ← fetch_next_player
    take_place conn_id target player_id

  unfoldable pub join : ℕ → List ℕ → Exec (App R) (BattleJoinResp R)
  join conn_id scan s = elim (bound_battle s conn_id) [
    | some (bid, pid, b) ↦ (ok (join_resp bid pid b), s)
    | none ↦ enter conn_id (find_room s.battles scan) s
  ]

  -- One battle's turn in the simulation: the frame, then the same snapshot for each of its players.
  unfoldable pub tick_battle : ℕ → App R → App R
  tick_battle id s = elim (s.battles id) [
    | none ↦ s
    | some b ↦
        let b' = tick_frame F b in
        emit (map (λ p. push_udp p.conn_id battle_frame_sync (snapshot b')) (values b'.players))
          (record s { battles = insert id b' s.battles })
  ]

  -- The battles in the order of the iteration.
  unfoldable pub tick : List ℕ → App R → App R
  tick [] s = s
  tick (id ∷ scan) s = tick scan (tick_battle id s)
