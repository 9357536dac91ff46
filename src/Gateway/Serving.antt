-- ===== src/Gateway/Serving.antt =====
-- crates/grimoire-gateway/src/session.rs: a connection's life, from its acceptance to the end of its
-- grace period, and the frames that the gateway answers itself.
use grimoire.Prelude.{
  ℕ, ◌+◌, ◌*◌, ◌%◌, ◌^◌, Bool, true, false, ◌==◌, if◌then◌else◌, none, some, List, [], length, map,
  insert, remove, Text, codes, same,
}
use grimoire.Common.{make, sys_conn_id, sys_resume, sys_bind_session, sys_auth}
use grimoire.Net.{PType, Frame}
use grimoire.Net.Word.{u32_be, from_be, byte}
use grimoire.Gateway.{
  SocketAddr, Session, notify_disconnected, Ctx, emit, new, response, update, send, rebind, domains,
  close_frame,
}

abbrev welcome : ℕ → Frame
welcome conn_id = record {
  ptype = PType.push;
  msg_id = sys_conn_id;
  seq = 0;
  payload = u32_be conn_id [];
}

-- A new connection: its session, its number, and the frame that tells the client the number.
unfoldable pub accept : Ctx → ℕ × ℕ × Ctx
accept c =
    let ref = c.next_ref in
    let conn_id = make c.gateway_id c.next_conn_id in
    let c' = record c {
      next_ref = ref + 1;
      next_conn_id = (c.next_conn_id + 1) % 2 ^ 32;
      sessions = insert conn_id ref c.sessions;
      store = insert ref (new conn_id) c.store;
    } in
    (ref, conn_id, (send ref (welcome conn_id) c').1)

abbrev pub reply : ℕ → ℕ → ℕ → List ℕ → Ctx → Ctx
reply ref msg_id seq payload c = (send ref (response msg_id seq payload) c).1

abbrev pub payload_u32 : List ℕ → ℕ → ℕ
payload_u32 p i = from_be (byte p i) (byte p (i + 1)) (byte p (i + 2)) (byte p (i + 3))

-- The old session's socket is told to close, the present session takes the old number.
unfoldable pub migrate : ℕ → ℕ → ℕ → ℕ → Ctx → Ctx
migrate ref old_ref new_conn_id old c =
    let d =
      (send old_ref (close_frame (codes "migrated"))
        (record c { sessions = remove old c.sessions })).1 in
    elim (d.store ref) [
      | none ↦ d
      | some s ↦ record d {
        sessions = insert old ref (remove new_conn_id d.sessions);
        store = insert ref (rebind old s) d.store;
      }
    ]

unfoldable pub resume_as : ℕ → ℕ → ℕ → Frame → Ctx → Ctx
resume_as ref new_conn_id old f c = elim (if old == new_conn_id then none else c.sessions old) [
  | none ↦ reply ref 0 f.seq (codes "err:no session to resume") c
  | some old_ref ↦
      reply ref sys_resume f.seq (u32_be old []) (migrate ref old_ref new_conn_id old c)
]

-- `new_conn_id` is the number that the connection was accepted under.
unfoldable pub handle_resume : ℕ → ℕ → Frame → Ctx → Ctx
handle_resume ref new_conn_id f c =
    if length f.payload == 4
    then resume_as ref new_conn_id (payload_u32 f.payload 0) f c
    else reply ref 0 f.seq (codes "err:bad resume payload") c

unfoldable pub handle_bind_session : ℕ → Session → Frame → Ctx → Ctx
handle_bind_session ref s f c =
    if length f.payload == 5
    then reply ref sys_bind_session f.seq [] (record c {
      conn_session =
          insert s.conn_id (byte f.payload 0 * 2 ^ 24, payload_u32 f.payload 1) c.conn_session;
    })
    else reply ref 0 f.seq [] c

-- What the reading loop does next.
pub data Next : Type 0 where
  go_on stop : Next
  forward : Frame → Next

module _ (from_utf8_lossy : List ℕ → Text) where
  abbrev pub token_ok : List ℕ → Text → Bool
  token_ok payload secret =
      if length secret == 0 then true else same (from_utf8_lossy payload) secret

  unfoldable pub handle_auth : ℕ → Session → Frame → Ctx → Ctx
  handle_auth ref s f c =
      let ok = token_ok f.payload c.auth_secret in
      reply ref (if ok then sys_auth else 0) f.seq [] (update ref (record s { authed = ok }) c)

  unfoldable pub handle_request : ℕ → ℕ → Session → Frame → Ctx → Next × Ctx
  handle_request ref conn_id s f c =
      if f.msg_id == sys_resume
      then (go_on, handle_resume ref conn_id f c)
      else if f.msg_id == sys_bind_session
      then (go_on, handle_bind_session ref s f c)
      else if f.msg_id == sys_auth
      then (go_on, handle_auth ref s f c)
      else if length c.auth_secret == 0
      then (forward f, c)
      else if s.authed
      then (forward f, c)
      else (go_on, reply ref 0 f.seq (codes "err:unauthorized") c)

  abbrev alive : Bool × Ctx → Next × Ctx
  alive (true, c) = (go_on, c)
  alive (false, c) = (stop, c)

  abbrev heartbeat_frame : Frame
  heartbeat_frame = record { ptype = PType.heartbeat; msg_id = 0; seq = 0; payload = [] }

  -- One frame from the client; `conn_id` is the number that the connection was accepted under, `s` the
  -- session that `ref` refers to.
  unfoldable pub receive : ℕ → ℕ → Session → Frame → Ctx → Next × Ctx
  receive ref conn_id s f c = elim f.ptype [
    | PType.request ↦ handle_request ref conn_id s f c
    | PType.response ↦ (go_on, c)
    | PType.push ↦ (go_on, c)
    | PType.heartbeat ↦ alive (send ref heartbeat_frame c)
    | PType.close ↦ (stop, c)
  ]

-- The end of the reading loop: the services of the active domains are told.
unfoldable pub closed : ℕ → ℕ → Ctx → Ctx
closed ref conn_id c = elim (c.store ref) [
  | none ↦ c
  | some s ↦ emit (map (λ d. notify_disconnected d conn_id) (domains s)) c
]

-- The end of the grace period: the entries of the number go if it is still this session's.
unfoldable pub expire : ℕ → ℕ → Ctx → Ctx
expire ref conn_id c = elim (c.sessions conn_id) [
  | none ↦ c
  | some cur ↦
      if cur == ref
      then record c {
        sessions = remove conn_id c.sessions;
        kcp_sessions = remove conn_id c.kcp_sessions;
      }
      else c
]

-- A datagram's source becomes the session's address.
unfoldable pub bind_udp : ℕ → SocketAddr → Ctx → Ctx
bind_udp ref addr c = elim (c.store ref) [
  | none ↦ c
  | some s ↦ update ref (record s { udp_addr = some addr }) c
]
