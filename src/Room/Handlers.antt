-- ===== src/Room/Handlers.antt =====
-- The handlers of the room service keep its states well-formed, and each request is answered.
use grimoire.Prelude.{
  ℕ, ◌+◌, ◌%◌, ◌^◌, ◌<◌, ◌≡◌, refl, arith, inl, inr, leb, true, false, ◌==◌, Option, some, none, [],
  ◌∷◌, length, length-append, insert, remove, Bool-cases, Option-cases, Exec, ◌>>=◌, codes,
  leb_false→lt, ok, Outcome, Text,
}
use grimoire.Room.{App, Player, Room, info, set_online, set_room_id}
use grimoire.Room.Service.{
  expire_player, expire_session, mark_disconnected, create_room, join_room, leave_room, broadcast,
  new_room, with_member,
}
use grimoire.Room.Bridge.{player_connected, player_disconnected, chat, broadcast_room}
use grimoire.Room.Validity.{
  IsRoom, IsValid, same-IsValid, set_player-IsValid, remove_player-IsValid, set_room-IsValid,
  emit-IsValid, emit_dir-IsValid, set_online-IsValid, put_room-IsValid,
}

-- A result without a panic, and a well-formed state.
abbrev pub Answers : {A : Type 0} → Outcome A × App → Type 0
Answers {A} r = (a : A) × (t : App) × (r ≡ (ok a, t)) × IsValid t

pub Answers-bind :
    {A B : Type 0} (m : Exec App A) (f : A → Exec App B) (s : App)
    → Answers (m s)
    → ((a : A) (t : App) → IsValid t → Answers (f a t))
    → Answers ((m >>= f) s)
Answers-bind m f s (a, t, e, v) next = rw e (next a t v)

expire_player-IsValid : (s : App) (c : ℕ) (p : Player) → IsValid s → IsValid (expire_player c p s)
unfolding expire_player
expire_player-IsValid s c p v = elim (Option-cases (s.rooms p.room_id)) [
  | inl e ↦ rw (e, expire_player) (remove_player-IsValid s c v)
  | inr (r, e) ↦
      rw (e, expire_player)
        (put_room-IsValid (record s { players = remove c s.players }) p.room_id p.player_id r e
          (remove_player-IsValid s c v))
]

-- The end of a grace period keeps a well-formed state well-formed: a room that the player was the
-- last member of is closed.
pub expire_session-IsValid : (s : App) (c gen : ℕ) → IsValid s → IsValid (expire_session c gen s)
unfolding expire_session
expire_session-IsValid s c gen v = elim (Option-cases (s.pending_removal c)) [
  | inl e ↦ rw (e, expire_session) v
  | inr (g, e) ↦ elim (Bool-cases (g == gen)) [
    | inr b ↦ rw (e, b, expire_session) v
    | inl b ↦
        let t = record s { pending_removal = remove c s.pending_removal } in
        let w : IsValid t = same-IsValid s t v refl refl refl refl in
        elim (Option-cases (s.players c)) [
          | inl q ↦ rw (e, b, q, expire_session) w
          | inr (p, q) ↦ rw (e, b, q, expire_session) (expire_player-IsValid t c p w)
        ]
  ]
]

pub resume-IsValid :
    (s : App) (c : ℕ)
    → IsValid s
    → IsValid (set_online c true (record s { pending_removal = remove c s.pending_removal }))
resume-IsValid s c v =
    let t = record s { pending_removal = remove c s.pending_removal } in
    set_online-IsValid t c true (same-IsValid s t v refl refl refl refl)

pub player_connected-IsValid : (s : App) (c : ℕ) → IsValid s → IsValid (player_connected c s)
unfolding player_connected
player_connected-IsValid s c v = elim (Option-cases (s.players c)) [
  | inl e ↦ rw (e, player_connected) v
  | inr (p, e) ↦ rw (e, player_connected) (resume-IsValid s c v)
]

pub broadcast_room-IsValid :
    (r : Option Room) (event : Text) (n : ℕ) (s : App)
    → IsValid s
    → IsValid (broadcast_room r event n s)
unfolding broadcast
broadcast_room-IsValid none event n s v = v
broadcast_room-IsValid (some r) event n s v = emit-IsValid s _ v

-- The loss of a connection keeps a well-formed state well-formed.
pub player_disconnected-IsValid : (s : App) (c : ℕ) → IsValid s → IsValid (player_disconnected c s)
unfolding player_disconnected mark_disconnected
player_disconnected-IsValid s c v = elim (Option-cases (s.players c)) [
  | inl e ↦ rw (e, player_disconnected) v
  | inr (p, e) ↦
      let t = mark_disconnected c s in
      rw (e, player_disconnected)
        (broadcast_room-IsValid (t.rooms p.room_id) (codes "offline") p.player_id t (
          same-IsValid (set_online c false s) t (set_online-IsValid s c false v) refl refl refl
            refl))
]

pub chat-IsValid : (s : App) (c : ℕ) (text : Text) → IsValid s → IsValid (chat c text s)
unfolding chat
chat-IsValid s c text v = elim (Option-cases (s.players c)) [
  | inl e ↦ rw (e, chat) v
  | inr (p, e) ↦ elim (Option-cases (s.rooms p.room_id)) [
    | inl q ↦ rw (e, q, chat) v
    | inr (r, q) ↦ rw (e, q, chat) (emit-IsValid s _ v)
  ]
]

pub leave_room-Answers : (s : App) (c : ℕ) → IsValid s → Answers (leave_room c s)
unfolding leave_room
leave_room-Answers s c v = elim (Option-cases (s.players c)) [
  | inl e ↦ rw (e, leave_room) (false, s, refl, v)
  | inr (p, e) ↦
      let (i, b) = v.players_ok c p e in
      elim (Option-cases (s.rooms p.room_id)) [
        | inl q ↦ rw (e, q, leave_room) (false, s, refl, v)
        | inr (r, q) ↦
            rw (e, q, leave_room)
              (
                true,
                _,
                refl,
                put_room-IsValid
                    (record s { players = insert c (record p { room_id = 0 }) s.players }) p.room_id
                    p.player_id r q (set_player-IsValid s c (record p { room_id = 0 }) v i b),
              )
      ]
]

set_room_id_lem :
    (s : App) (c n : ℕ) (p : Player)
    → s.players c ≡ some p
    → set_room_id c n s
      ≡ (ok tt, record s { players = insert c (record p { room_id = n }) s.players })
unfolding set_room_id
set_room_id_lem s c n p h = rw (h, set_room_id) refl

-- What creating and joining have in common: a room is put in, the player points to it, and the
-- directory is told.
moved :
    (s : App) (c k : ℕ) (p : Player) (r : Room)
    → s.players c ≡ some p
    → IsValid s
    → IsRoom k r
    → 0 < k
    → k < s.next_room
    → let t = record s { rooms = insert k r s.rooms } in
      let u = record t { players = insert c (record p { room_id = k }) s.players } in
      (set_room_id c k t ≡ (ok tt, u)) × IsValid u
moved s c k p r h v i pos below =
    let (a, b) = v.players_ok c p h in
    let t = record s { rooms = insert k r s.rooms } in
    (
      set_room_id_lem t c k p h,
      set_player-IsValid t c (record p { room_id = k }) (set_room-IsValid s k r v i pos below) a b,
    )

pub create_room-Answers :
    (s : App) (c : ℕ) (name : Text) (n : ℕ)
    → s.next_room + 1 < 2 ^ 32
    → IsValid s
    → Answers (create_room c name n s)
unfolding create_room
create_room-Answers s c name n small v = elim (Option-cases (s.players c)) [
  | inl e ↦ rw (e, create_room) (none, s, refl, v)
  | inr (p, e) ↦ elim (Bool-cases (p.room_id == 0)) [
    | inr b ↦ rw (e, b, create_room) (none, s, refl, v)
    | inl b ↦
        let k = s.next_room in
        let t = record s { next_room = (k + 1) % 2 ^ 32 } in
        let more : IsValid t = record {
          rooms_ok = v.rooms_ok;
          rooms_below = λ j r q. let (x, y) = v.rooms_below j r q in (x, omega arith);
          players_ok = v.players_ok;
          some_room = omega arith;
        } in
        let (q, w) =
          moved t c k p (new_room k name n p) e more
            (record {
              number = refl;
              least = omega arith;
              most = omega arith;
              inhabited = omega arith;
              fits = omega arith;
            })
            v.some_room (omega arith) in
        rw (e, b, create_room) (rw q (some k, _, refl, emit_dir-IsValid _ _ w))
  ]
]

pub join_room-Answers : (s : App) (c k : ℕ) → IsValid s → Answers (join_room c k s)
unfolding join_room
join_room-Answers s c k v = elim (Option-cases (s.players c)) [
  | inl e ↦ rw (e, join_room) (none, s, refl, v)
  | inr (p, e) ↦ elim (Option-cases (s.rooms k)) [
    | inl q ↦ rw (e, q, join_room) (none, s, refl, v)
    | inr (r, q) ↦ elim (Bool-cases (p.room_id == k)) [
      | inl b ↦ rw (e, q, b, join_room) (some (info r), s, refl, v)
      | inr b ↦ elim (Bool-cases (leb r.capacity (length r.members))) [
        | inl l ↦ rw (e, q, b, l, join_room) (none, s, refl, v)
        | inr l ↦
            let i = v.rooms_ok k r q in
            let (pos, below) = v.rooms_below k r q in
            let size = length-append r.members (p ∷ []) in
            let room = leb_false→lt r.capacity (length r.members) l in
            let (x, w) =
              moved s c k p (with_member p r) e v
                (record {
                  number = i.number;
                  least = i.least;
                  most = i.most;
                  inhabited = omega (arith, size);
                  fits = omega (arith, size, room);
                })
                pos below in
            rw (e, q, b, l, join_room)
              (rw x (some (info (with_member p r)), _, refl, emit_dir-IsValid _ _ w))
      ]
    ]
  ]
]
