-- ===== src/Room/Bridge.antt =====
-- crates/grimoire-room-svc/src/main.rs: `process` and the bridge's handlers.
use grimoire.Prelude.{
  ℕ, true, ◌==◌, if◌then◌else◌, Option, none, some, List, [], ◌∷◌, map, remove, Text, codes,
  Outcome, Exec, ok, panic, pure, gets, modify, ◌>>=◌, ◌>>◌,
}
use grimoire.Common.{
  room_login, room_create, room_join, room_leave, room_list, room_chat, room_chat_push,
}
use grimoire.Bridge.{
  ForwardRequest, ForwardReply, Decoded, message, malformed, reply, error_reply, bad_payload,
  unknown_msg,
}
use grimoire.Room.{App, Room, RoomInfo, push_chat, emit, set_online}
use grimoire.Room.Service.{
  ProfileStore, RoomLoginResp, login, create_room, join_room, leave_room, list_rooms, broadcast,
  mark_disconnected,
}

-- The protobuf library's part: a creation request has the name and the capacity.
pub record Codec (I : Type 0) : Type 0 where
  pub login_req : List ℕ → Decoded Text
  pub create_req : List ℕ → Decoded (Text × ℕ)
  pub join_req : List ℕ → Decoded ℕ
  pub chat_req : List ℕ → Decoded Text
  pub login_resp : RoomLoginResp I → List ℕ
  pub create_resp : ℕ → List ℕ
  pub join_resp : RoomInfo → List ℕ
  pub leave_resp : List ℕ
  pub list_resp : List RoomInfo → List ℕ
  pub chat_resp : List ℕ

abbrev pub broadcast_room : Option Room → Text → ℕ → App → App
broadcast_room none event actor_id s = s
broadcast_room (some r) event actor_id s = broadcast r event actor_id s

-- The text goes to every member of the room that the player is in.
unfoldable pub chat : ℕ → Text → App → App
chat conn_id text s = elim (s.players conn_id) [
  | none ↦ s
  | some p ↦ elim (s.rooms p.room_id) [
    | none ↦ s
    | some r ↦
        emit
          (map
            (λ m.
              push_chat m.conn_id room_chat_push
                (record { room_id = r.id; player_id = p.player_id; name = p.name; text = text }))
            r.members)
          s
  ]
]

module _ {I : Type 0} (store : ProfileStore I) (codec : Codec I) where
  abbrev pub answer_login : ForwardRequest → Decoded Text → Exec App ForwardReply
  answer_login req (malformed e) = pure (bad_payload req e)
  answer_login req (message name) = do
    resp ← login store req.conn_id name
    pure (reply req (codec.login_resp resp))

  abbrev pub created : ForwardRequest → Option ℕ → ForwardReply
  created req (some room_id) = reply req (codec.create_resp room_id)
  created req none = error_reply req (codes "已在房间中")

  abbrev pub answer_create : ForwardRequest → Decoded (Text × ℕ) → Exec App ForwardReply
  answer_create req (malformed e) = pure (bad_payload req e)
  answer_create req (message (name, capacity)) = do
    r ← create_room req.conn_id name capacity
    pure (created req r)

  abbrev pub joined : ForwardRequest → ℕ → Option RoomInfo → Exec App ForwardReply
  joined req room_id none = pure (error_reply req (codes "房间不存在或已满"))
  joined req room_id (some r) = do
    modify λ s. broadcast_room (s.rooms room_id) (codes "join") req.conn_id s
    pure (reply req (codec.join_resp r))

  abbrev pub answer_join : ForwardRequest → Decoded ℕ → Exec App ForwardReply
  answer_join req (malformed e) = pure (bad_payload req e)
  answer_join req (message room_id) = do r ← join_room req.conn_id room_id; joined req room_id r

  abbrev pub answer_chat : ForwardRequest → Decoded Text → Exec App ForwardReply
  answer_chat req (malformed e) = pure (bad_payload req e)
  answer_chat req (message text) = do
    modify (chat req.conn_id text)
    pure (reply req codec.chat_resp)

  -- `scan` is the order in which the rooms are iterated over. Requests to leave and to list are not
  -- decoded.
  unfoldable pub process : List ℕ → ForwardRequest → Exec App ForwardReply
  process scan req =
      if req.msg_id == room_login
      then answer_login req (codec.login_req req.payload)
      else if req.msg_id == room_create
      then answer_create req (codec.create_req req.payload)
      else if req.msg_id == room_join
      then answer_join req (codec.join_req req.payload)
      else if req.msg_id == room_leave
      then (do left ← leave_room req.conn_id; pure (reply req codec.leave_resp))
      else if req.msg_id == room_list
      then (do
        rooms ← gets (λ s. s.rooms)
        pure (reply req (codec.list_resp (list_rooms rooms scan))))
      else if req.msg_id == room_chat
      then answer_chat req (codec.chat_req req.payload)
      else pure (unknown_msg req)

  abbrev and_then :
      Outcome ForwardReply × App → (App → List ForwardReply × App) → List ForwardReply × App
  and_then (ok r, s) next = let (rs, s') = next s in (r ∷ rs, s')
  and_then (panic, s) next = ([], s)

  -- One stream: the requests are processed in order, and a panic ends its task.
  unfoldable pub bridge_stream : List (List ℕ × ForwardRequest) → App → List ForwardReply × App
  bridge_stream [] s = ([], s)
  bridge_stream ((scan, req) ∷ rest) s = and_then (process scan req s) (bridge_stream rest)

-- A connection that comes back cancels the task that waits for it.
unfoldable pub player_connected : ℕ → App → App
player_connected conn_id s = elim (s.players conn_id) [
  | none ↦ s
  | some p ↦
      set_online conn_id true (record s { pending_removal = remove conn_id s.pending_removal })
]

unfoldable pub player_disconnected : ℕ → App → App
player_disconnected conn_id s = elim (s.players conn_id) [
  | none ↦ s
  | some p ↦
      let t = mark_disconnected conn_id s in
      broadcast_room (t.rooms p.room_id) (codes "offline") p.player_id t
]
