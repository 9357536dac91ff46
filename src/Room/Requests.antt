-- ===== src/Room/Requests.antt =====
-- Every request to the room service is answered.
use grimoire.Prelude.{
  ℕ, ◌+◌, ◌%◌, ◌^◌, ◌<◌, ◌≡◌, refl, arith, inl, inr, Bool, true, false, ◌==◌, if◌then◌else◌, Option,
  some, none, List, insert, remove, Option-cases, Exec, ◌>>=◌, codes, ok, Outcome, Text,
}
use grimoire.Common.{room_login, room_create, room_join, room_leave, room_list, room_chat}
use grimoire.Bridge.{ForwardRequest, ForwardReply, Decoded, message, malformed}
use grimoire.Room.{App, Player, RoomInfo, set_online}
use grimoire.Room.Service.{
  ProfileStore, login, stats_of, list_rooms, create_room, join_room, leave_room,
}
use grimoire.Room.Bridge.{
  Codec, process, chat, broadcast_room, answer_login, answer_create, answer_join, answer_chat,
  joined, created,
}
use grimoire.Room.Validity.{IsValid, set_player-IsValid, emit-IsValid}
use grimoire.Room.Handlers.{
  Answers, Answers-bind, resume-IsValid, create_room-Answers, join_room-Answers, leave_room-Answers,
  chat-IsValid, broadcast_room-IsValid,
}

module _ {I : Type 0} (store : ProfileStore I) where
  stats_of-Answers : (s : App) (n : ℕ) → IsValid s → Answers (stats_of store n s)
  unfolding stats_of
  stats_of-Answers s n v =
      elim (Option-cases
        (if s.has_store then store.load n else some (store.zero64, store.zero64))) [
          | inl e ↦ rw (e, stats_of) (_, _, refl, emit-IsValid s _ v)
          | inr (x, e) ↦ rw (e, stats_of) (x, s, refl, v)
        ]

  pub login-Answers :
      (s : App) (c : ℕ) (name : Text)
      → s.next_player + 1 < 2 ^ 32
      → IsValid s
      → Answers (login store c name s)
  unfolding login
  login-Answers s c name small v = elim (Option-cases (s.players c)) [
    | inr (p, e) ↦
        rw (e, login)
          (Answers-bind (stats_of store p.player_id) _
            (set_online c true (record s { pending_removal = remove c s.pending_removal }))
            (stats_of-Answers _ p.player_id (resume-IsValid s c v)) λ a t w. (_, t, refl, w))
    | inl e ↦
        let n = s.next_player in
        let t = record s { next_player = (n + 1) % 2 ^ 32 } in
        let more : IsValid t = record {
          rooms_ok = v.rooms_ok;
          rooms_below = v.rooms_below;
          players_ok = λ d p h. let (x, y) = v.players_ok d p h in (x, omega arith);
          some_room = v.some_room;
        } in
        let p : Player = record {
          conn_id = c;
          player_id = n;
          name = name;
          room_id = 0;
          online = true;
        } in
        rw (e, login)
          (Answers-bind (stats_of store n) _ (record t { players = insert c p s.players })
            (stats_of-Answers _ n (set_player-IsValid t c p more refl (omega arith)))
            λ a t w. (_, t, refl, w))
  ]

  module _ (codec : Codec I) where
    -- `Answers` for a reply that names the request it is for.
    abbrev pub Replies : ForwardRequest → Outcome ForwardReply × App → Type 0
    Replies req r =
        (a : ForwardReply) × (t : App) × (r ≡ (ok a, t))
        × (a.conn_id ≡ req.conn_id)
        × (a.seq ≡ req.seq)
        × (a.msg_id ≡ req.msg_id)
        × IsValid t

    Replies-bind :
        {A : Type 0} (req : ForwardRequest) (m : Exec App A) (f : A → Exec App ForwardReply)
        (s : App)
        → Answers (m s)
        → ((a : A) (t : App) → IsValid t → Replies req (f a t))
        → Replies req ((m >>= f) s)
    Replies-bind req m f s (a, t, e, v) next = rw e (next a t v)

    replied :
        (req : ForwardRequest) (s : App) (code : ℕ) (payload : List ℕ)
        → IsValid s
        → Replies req (
          ok (record {
            conn_id = req.conn_id;
            seq = req.seq;
            msg_id = req.msg_id;
            code = code;
            payload = payload;
          }),
          s,
        )
    replied req s code payload v = (_, s, refl, refl, refl, refl, v)

    if-Replies :
        (req : ForwardRequest) (b : Bool) (m n : Exec App ForwardReply) (s : App)
        → Replies req (m s)
        → Replies req (n s)
        → Replies req ((if b then m else n) s)
    if-Replies req true m n s x y = x
    if-Replies req false m n s x y = y

    answer_login-Replies :
        (s : App) (req : ForwardRequest) (d : Decoded Text)
        → s.next_player + 1 < 2 ^ 32
        → IsValid s
        → Replies req (answer_login store codec req d s)
    answer_login-Replies s req (malformed e) small v = replied req s 1 _ v
    answer_login-Replies s req (message name) small v =
        Replies-bind req (login store req.conn_id name) _ s
          (login-Answers s req.conn_id name small v) λ a t w. replied req t 0 _ w

    answer_create-Replies :
        (s : App) (req : ForwardRequest) (d : Decoded (Text × ℕ))
        → s.next_room + 1 < 2 ^ 32
        → IsValid s
        → Replies req (answer_create store codec req d s)
    answer_create-Replies s req (malformed e) small v = replied req s 1 _ v
    answer_create-Replies s req (message (name, n)) small v =
        Replies-bind req (create_room req.conn_id name n) _ s
          (create_room-Answers s req.conn_id name n small v) created_replies
      where
        created_replies :
            (a : Option ℕ) (t : App) → IsValid t → Replies req (ok (created store codec req a), t)
        created_replies none t w = replied req t 1 _ w
        created_replies (some k) t w = replied req t 0 _ w

    joined-Replies :
        (req : ForwardRequest) (k : ℕ) (r : Option RoomInfo) (t : App)
        → IsValid t
        → Replies req (joined store codec req k r t)
    joined-Replies req k none t w = replied req t 1 _ w
    joined-Replies req k (some r) t w =
        replied req (broadcast_room (t.rooms k) (codes "join") req.conn_id t) 0 _
          (broadcast_room-IsValid (t.rooms k) (codes "join") req.conn_id t w)

    answer_join-Replies :
        (s : App) (req : ForwardRequest) (d : Decoded ℕ)
        → IsValid s
        → Replies req (answer_join store codec req d s)
    answer_join-Replies s req (malformed e) v = replied req s 1 _ v
    answer_join-Replies s req (message k) v =
        Replies-bind req (join_room req.conn_id k) _ s (join_room-Answers s req.conn_id k v)
          (joined-Replies req k)

    answer_chat-Replies :
        (s : App) (req : ForwardRequest) (d : Decoded Text)
        → IsValid s
        → Replies req (answer_chat store codec req d s)
    answer_chat-Replies s req (malformed e) v = replied req s 1 _ v
    answer_chat-Replies s req (message text) v =
        replied req (chat req.conn_id text s) 0 _ (chat-IsValid s req.conn_id text v)

    -- A request in a well-formed state, before the numbers of players and rooms run out, is answered
    -- without a panic, whatever its kind, its payload and the sender's session; the reply bears the
    -- request's connection, sequence number and kind, and the state is well-formed again.
    pub process-Replies :
        (s : App) (scan : List ℕ) (req : ForwardRequest)
        → s.next_player + 1 < 2 ^ 32
        → s.next_room + 1 < 2 ^ 32
        → IsValid s
        → Replies req (process store codec scan req s)
    unfolding process
    process-Replies s scan req players rooms v =
        let is = λ (id : ℕ). req.msg_id == id in
        let payload = req.payload in
        if-Replies req (is room_login) _ _ s
          (answer_login-Replies s req (codec.login_req payload) players v)
          (if-Replies req (is room_create) _ _ s
            (answer_create-Replies s req (codec.create_req payload) rooms v)
            (if-Replies req (is room_join) _ _ s
              (answer_join-Replies s req (codec.join_req payload) v)
              (if-Replies req (is room_leave) _ _ s
                (Replies-bind req (leave_room req.conn_id) _ s (leave_room-Answers s req.conn_id v)
                  λ a t w. replied req t 0 codec.leave_resp w)
                (if-Replies req (is room_list) _ _ s
                  (replied req s 0 (codec.list_resp (list_rooms s.rooms scan)) v)
                  (if-Replies req (is room_chat) _ _ s
                    (answer_chat-Replies s req (codec.chat_req payload) v)
                    (replied req s 1 _ v))))))
