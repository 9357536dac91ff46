-- ===== src/Room/Ghost.antt =====
-- Joining a room from another room.
use grimoire.Prelude.{ℕ, ◌<◌, ◌≡◌, ◌≢◌, arith, false, some, none, length, ok}
use grimoire.Room.{App, Player, Room, set_room_id}
use grimoire.Room.Service.{join_room, leave_room, put_room, without_player, with_member}

-- The bug: a player who joins a second room stays a member of the first. After leaving, the player
-- is in no room and cannot leave again, and the first room still lists the player.
pub join_ghost :
    (s : App) (c from to : ℕ) (p : Player) (a b : Room)
    → s.players c ≡ some (record p { room_id = from })
    → s.rooms from ≡ some a
    → s.rooms to ≡ some b
    → from ≢ to
    → length b.members < b.capacity
    → s.rooms 0 ≡ none
    → let t = (join_room c to s).1 in
      let u = (leave_room c t).1 in
      (t.rooms to ≡ some (with_member (record p { room_id = from }) b))
      × (u.rooms from ≡ some a)
      × (u.players c ≡ some (record p { room_id = 0 }))
      × (leave_room c u ≡ (ok false, u))
unfolding join_room leave_room put_room without_player set_room_id
join_ghost s c from to p a b h e q d room zero = ground arith
