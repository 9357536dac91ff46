-- ===== src/Room.antt =====
-- crates/grimoire-room-svc/src/main.rs: players, rooms and the state of the service. What is sent
-- out is appended to `out`, as the code ignores what comes back of it; the tasks that wait for the
-- end of a grace period are in `timers`.
pub mod Service
pub mod Bridge
pub mod Validity
pub mod Handlers
pub mod Requests
pub mod Grace
pub mod Ghost
mod Tests
use grimoire.Prelude.{
  ℕ, ◌+◌, Bool, ◌==◌, if◌then◌else◌, List, [], ◌∷◌, ◌++◌, map, Map, empty, Option, none, some,
  insert, Text, Exec, ok, panic,
}

pub record Player : Type 0 where
  pub conn_id : ℕ
  pub player_id : ℕ
  pub name : Text
  pub room_id : ℕ
  pub online : Bool

pub record Room : Type 0 where
  pub id : ℕ
  pub name : Text
  pub capacity : ℕ
  pub members : List Player

pub record RoomMember : Type 0 where
  pub player_id : ℕ
  pub name : Text

pub record RoomInfo : Type 0 where
  pub room_id : ℕ
  pub name : Text
  pub capacity : ℕ
  pub members : List RoomMember

abbrev member_info : Player → RoomMember
member_info m = record { player_id = m.player_id; name = m.name }

abbrev pub info : Room → RoomInfo
info r = record {
  room_id = r.id;
  name = r.name;
  capacity = r.capacity;
  members = map member_info r.members;
}

pub record RoomStatePush : Type 0 where
  pub event : Text
  pub actor_id : ℕ
  pub room : RoomInfo

pub record RoomChatPush : Type 0 where
  pub room_id : ℕ
  pub player_id : ℕ
  pub name : Text
  pub text : Text

pub data Effect : Type 0 where
  push_state : ℕ → ℕ → RoomStatePush → Effect
  push_chat : ℕ → ℕ → RoomChatPush → Effect
  dir_bind : ℕ → ℕ → Text → Effect
  dir_remove : ℕ → ℕ → Effect
  create_profile : ℕ → Text → Effect

pub record App : Type 0 where
  pub players : Map Player
  pub rooms : Map Room
  pub next_player : ℕ
  pub next_room : ℕ
  pub pending_removal : Map ℕ
  -- The connection and the generation of each task.
  pub timers : List (ℕ × ℕ)
  pub has_store : Bool
  pub has_dir : Bool
  pub node_id : Text
  pub out : List Effect

abbrev pub init : Bool → Bool → Text → App
init has_store has_dir node_id = record {
  players = empty;
  rooms = empty;
  next_player = 1;
  next_room = 1;
  pending_removal = empty;
  timers = [];
  has_store = has_store;
  has_dir = has_dir;
  node_id = node_id;
  out = [];
}

abbrev pub emit : List Effect → App → App
emit es s = record s { out = s.out ++ es }

-- What is sent only where there is a session directory.
abbrev pub emit_dir : List Effect → App → App
emit_dir es s = if s.has_dir then emit es s else s

-- The first member on the connection.
unfoldable pub mark_member : ℕ → Bool → List Player → List Player
mark_member conn_id online [] = []
mark_member conn_id online (m ∷ ms) =
    let rest = mark_member conn_id online ms in
    if m.conn_id == conn_id then record m { online = online } ∷ ms else m ∷ rest

abbrev pub mark_room : ℕ → Bool → Option Room → ℕ → App → App
mark_room conn_id online none room_id s = s
mark_room conn_id online (some r) room_id s = record s {
  rooms = insert room_id (record r { members = mark_member conn_id online r.members }) s.rooms;
}

abbrev pub mark_player : ℕ → Bool → Option Player → App → App
mark_player conn_id online none s = s
mark_player conn_id online (some p) s =
    mark_room conn_id online (s.rooms p.room_id) p.room_id
      (record s { players = insert conn_id (record p { online = online }) s.players })

unfoldable pub set_online : ℕ → Bool → App → App
set_online conn_id online s = mark_player conn_id online (s.players conn_id) s

-- `players.get_mut(..).unwrap().room_id = ..`
unfoldable pub set_room_id : ℕ → ℕ → Exec App (Unit {0})
set_room_id conn_id room_id s = elim (s.players conn_id) [
  | none ↦ (panic, s)
  | some p ↦
      (ok tt, record s { players = insert conn_id (record p { room_id = room_id }) s.players })
]
