-- ===== src/Room/Service.antt =====
-- crates/grimoire-room-svc/src/main.rs, `App`: sessions and rooms. The profile store is an argument.
use grimoire.Prelude.{
  ℕ, ◌+◌, ◌%◌, ◌^◌, min, max, Bool, true, false, not, leb, ◌==◌, if◌then◌else◌, List, [], ◌∷◌, ◌++◌,
  map, length, retain, Map, insert, remove, Option, none, some, Text, codes, decimal, or_else, Exec,
  ok, pure, modify, ◌>>=◌, ◌>>◌,
}
use grimoire.Common.{domain_room, room_state_push}
use grimoire.Room.{
  Player, Room, RoomInfo, push_state, dir_bind, dir_remove, create_profile, App, info, emit,
  emit_dir, set_online, set_room_id,
}

pub record RoomLoginResp (I : Type 0) : Type 0 where
  pub player_id : ℕ
  pub name : Text
  pub games : I
  pub wins : I

-- What the store answers, over the type of its 64-bit integers.
pub record ProfileStore (I : Type 0) : Type 0 where
  pub zero64 : I
  pub load : ℕ → Option (I × I)
  pub create : ℕ → Text → Option (I × I)

module _ {I : Type 0} (store : ProfileStore I) where
  -- A player without a profile gets one.
  unfoldable pub stats_of : ℕ → Exec App (I × I)
  stats_of player_id s =
      elim (if s.has_store then store.load player_id else some (store.zero64, store.zero64)) [
        | some stats ↦ (ok stats, s)
        | none ↦ (
          ok (or_else (store.create player_id (codes "grimoire")) (store.zero64, store.zero64)),
          emit (create_profile player_id (codes "grimoire") ∷ []) s,
        )
      ]

  abbrev resume : ℕ → App → App
  resume conn_id s =
      set_online conn_id true (record s { pending_removal = remove conn_id s.pending_removal })

  abbrev fetch_next_player : Exec App ℕ
  fetch_next_player s = (ok s.next_player, record s { next_player = (s.next_player + 1) % 2 ^ 32 })

  abbrev add_player : ℕ → ℕ → Text → App → App
  add_player conn_id player_id name s = record s {
    players =
        insert conn_id
          (record {
            conn_id = conn_id;
            player_id = player_id;
            name = name;
            room_id = 0;
            online = true;
          })
          s.players;
  }

  abbrev login_resp : ℕ → Text → Exec App (RoomLoginResp I)
  login_resp player_id name = do
    (games, wins) ← stats_of player_id
    pure (record { player_id = player_id; name = name; games = games; wins = wins })

  abbrev login_as : ℕ → Text → Option Player → Exec App (RoomLoginResp I)
  login_as conn_id name (some p) = do modify (resume conn_id); login_resp p.player_id p.name
  login_as conn_id name none = do
    player_id ← fetch_next_player
    modify (add_player conn_id player_id name)
    login_resp player_id name

  unfoldable pub login : ℕ → Text → Exec App (RoomLoginResp I)
  login conn_id name s = login_as conn_id name (s.players conn_id) s

-- The player is offline; a task with a new generation waits for the end of the grace period.
unfoldable pub mark_disconnected : ℕ → App → App
mark_disconnected conn_id s =
    let gen = (or_else (s.pending_removal conn_id) 0 + 1) % 2 ^ 64 in
    let t = set_online conn_id false s in
    record t {
      pending_removal = insert conn_id gen s.pending_removal;
      timers = t.timers ++ (conn_id, gen) ∷ [];
    }

-- A room without the members that have the player's number; an empty one is closed.
unfoldable pub without_player : ℕ → Room → Room
without_player player_id r = record r {
  members = retain (λ m. not (m.player_id == player_id)) r.members;
}

unfoldable pub put_room : ℕ → Room → App → App
put_room room_id r s =
    if length r.members == 0
    then emit_dir (dir_remove domain_room room_id ∷ [])
        (record s { rooms = remove room_id s.rooms })
    else record s { rooms = insert room_id r s.rooms }

unfoldable pub expire_player : ℕ → Player → App → App
expire_player conn_id p s = elim (s.rooms p.room_id) [
  | none ↦ record s { players = remove conn_id s.players }
  | some r ↦
      put_room p.room_id (without_player p.player_id r)
        (record s { players = remove conn_id s.players })
]

-- What a task does at the end of the grace period.
unfoldable pub expire_session : ℕ → ℕ → App → App
expire_session conn_id gen s = elim (s.pending_removal conn_id) [
  | none ↦ s
  | some g ↦
      if g == gen
      then elim (s.players conn_id) [
        | none ↦ record s { pending_removal = remove conn_id s.pending_removal }
        | some p ↦
            expire_player conn_id p
              (record s { pending_removal = remove conn_id s.pending_removal })
      ]
      else s
]

abbrev pub min_capacity : ℕ
min_capacity = 2

abbrev pub max_capacity : ℕ
max_capacity = 64

abbrev pub new_room : ℕ → Text → ℕ → Player → Room
new_room room_id name capacity p = record {
  id = room_id;
  name = if length name == 0 then codes "房间" ++ decimal 10 room_id else name;
  capacity = max min_capacity (min capacity max_capacity);
  members = p ∷ [];
}

abbrev fetch_next_room : Exec App ℕ
fetch_next_room s = (ok s.next_room, record s { next_room = (s.next_room + 1) % 2 ^ 32 })

abbrev bind_room : ℕ → App → App
bind_room room_id s = emit_dir (dir_bind domain_room room_id s.node_id ∷ []) s

abbrev open_room : ℕ → Text → ℕ → Player → Exec App (Option ℕ)
open_room conn_id name capacity p = do
  room_id ← fetch_next_room
  modify λ s. record s { rooms = insert room_id (new_room room_id name capacity p) s.rooms }
  set_room_id conn_id room_id
  modify (bind_room room_id)
  pure (some room_id)

-- The new room's number; none for a connection without a player, or with one in a room.
unfoldable pub create_room : ℕ → Text → ℕ → Exec App (Option ℕ)
create_room conn_id name capacity s = elim (s.players conn_id) [
  | none ↦ (ok none, s)
  | some p ↦ if p.room_id == 0 then open_room conn_id name capacity p s else (ok none, s)
]

abbrev pub with_member : Player → Room → Room
with_member p r = record r { members = r.members ++ p ∷ [] }

abbrev enter_room : ℕ → ℕ → Player → Room → Exec App (Option RoomInfo)
enter_room conn_id room_id p r = do
  modify λ s. record s { rooms = insert room_id (with_member p r) s.rooms }
  set_room_id conn_id room_id
  modify (bind_room room_id)
  pure (some (info (with_member p r)))

unfoldable pub join_room : ℕ → ℕ → Exec App (Option RoomInfo)
join_room conn_id room_id s = elim (s.players conn_id) [
  | none ↦ (ok none, s)
  | some p ↦ elim (s.rooms room_id) [
    | none ↦ (ok none, s)
    | some r ↦
        if p.room_id == room_id
        then (ok (some (info r)), s)
        else if leb r.capacity (length r.members)
        then (ok none, s)
        else enter_room conn_id room_id p r s
  ]
]

-- The player's own record is written before an empty room goes.
unfoldable pub leave_room : ℕ → Exec App Bool
leave_room conn_id s = elim (s.players conn_id) [
  | none ↦ (ok false, s)
  | some p ↦ elim (s.rooms p.room_id) [
    | none ↦ (ok false, s)
    | some r ↦ (
      ok true,
      put_room p.room_id (without_player p.player_id r)
          (record s { players = insert conn_id (record p { room_id = 0 }) s.players }),
    )
  ]
]

-- The rooms in the order of the iteration.
unfoldable pub list_rooms : Map Room → List ℕ → List RoomInfo
list_rooms rooms [] = []
list_rooms rooms (id ∷ scan) =
    let rest = list_rooms rooms scan in elim (rooms id) [ none ↦ rest | some r ↦ info r ∷ rest ]

unfoldable pub broadcast : Room → Text → ℕ → App → App
broadcast room event actor_id s =
    emit
      (map
        (λ m.
          push_state m.conn_id room_state_push
            (record { event = event; actor_id = actor_id; room = info room }))
        room.members)
      s
