-- ===== src/Room/Tests.antt =====
-- Runs of the room service at concrete states.
use grimoire.Prelude.{
  ℕ, ◌≡◌, refl, arith, true, false, none, some, [], ◌∷◌, insert, empty, ok, codes, ◌++◌,
}
use grimoire.Bridge.{ForwardRequest, message}
use grimoire.Common.{room_create}
use grimoire.Room.{Player, Room, App}
use grimoire.Room.Service.{ProfileStore, join_room, leave_room, expire_session, with_member}
use grimoire.Room.Bridge.{Codec, process, player_connected, player_disconnected}
use grimoire.Room.Validity.{IsValid}
use grimoire.Room.Requests.{Replies, process-Replies}
use grimoire.Room.Handlers.{expire_session-IsValid, player_disconnected-IsValid}
use grimoire.Room.Grace.{resume-expire, stale_timer_expires}
use grimoire.Room.Ghost.{join_ghost}

abbrev ann : Player
ann = record { conn_id = 7; player_id = 1; name = codes "ann"; room_id = 1; online = true }

abbrev bob : Player
bob = record { conn_id = 8; player_id = 2; name = codes "bob"; room_id = 2; online = true }

abbrev cellar : Room
cellar = record { id = 1; name = codes "cellar"; capacity = 2; members = ann ∷ [] }

abbrev attic : Room
attic = record { id = 2; name = codes "attic"; capacity = 4; members = bob ∷ [] }

abbrev house : App
house = record {
  players = insert 7 ann (insert 8 bob empty);
  rooms = insert 1 cellar (insert 2 attic empty);
  next_player = 3;
  next_room = 3;
  pending_removal = empty;
  timers = [];
  has_store = true;
  has_dir = true;
  node_id = codes "room-svc-1";
  out = [];
}

house-IsValid : IsValid house
house-IsValid = record {
  rooms_ok = λ k r h. record {
    number = ground arith;
    least = ground arith;
    most = ground arith;
    inhabited = ground arith;
    fits = ground arith;
  };
  rooms_below = λ k r h. ground arith;
  players_ok = λ c p h. ground arith;
  some_room = omega arith;
}

abbrev store : ProfileStore ℕ
store = record { zero64 = 0; load = λ n. none; create = λ n name. some (n, 0) }

abbrev codec : Codec ℕ
codec = record {
  login_req = λ p. message p;
  create_req = λ p. message (p, 100);
  join_req = λ p. message 2;
  chat_req = λ p. message p;
  login_resp = λ r. r.name;
  create_resp = λ k. k ∷ [];
  join_resp = λ r. r.name;
  leave_resp = [];
  list_resp = λ rs. [];
  chat_resp = [];
}

abbrev request : ForwardRequest
request = record { conn_id = 7; seq = 5; msg_id = room_create; payload = codes "den" }

process-Replies_example :
    Replies store codec request (process store codec (1 ∷ 2 ∷ []) request house)
process-Replies_example =
    process-Replies store codec house (1 ∷ 2 ∷ []) request (omega arith) (omega arith) house-IsValid

resume-expire_example :
    expire_session 7 1 (player_connected 7 (player_disconnected 7 house))
    ≡ player_connected 7 (player_disconnected 7 house)
resume-expire_example = resume-expire house 7 1 ann refl

stale_timer_expires_example :
    let t = player_disconnected 7 house in
    let u = player_disconnected 7 (player_connected 7 t) in
    (t.timers ≡ [] ++ (7, 1) ∷ [])
    × (u.timers ≡ [] ++ (7, 1) ∷ (7, 1) ∷ [])
    × ((expire_session 7 1 u).players 7 ≡ none)
stale_timer_expires_example = stale_timer_expires house 7 ann refl refl

join_ghost_example :
    let t = (join_room 7 2 house).1 in
    let u = (leave_room 7 t).1 in
    (t.rooms 2 ≡ some (with_member ann attic))
    × (u.rooms 1 ≡ some cellar)
    × (u.players 7 ≡ some (record ann { room_id = 0 }))
    × (leave_room 7 u ≡ (ok false, u))
join_ghost_example =
    join_ghost house 7 1 2 ann cellar attic refl refl refl (omega arith) (omega arith) refl

player_disconnected-IsValid_example : IsValid (player_disconnected 7 house)
player_disconnected-IsValid_example = player_disconnected-IsValid house 7 house-IsValid

expire_session-IsValid_example : IsValid (expire_session 7 1 (player_disconnected 7 house))
expire_session-IsValid_example =
    expire_session-IsValid (player_disconnected 7 house) 7 1 player_disconnected-IsValid_example
