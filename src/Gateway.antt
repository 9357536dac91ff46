-- ===== src/Gateway.antt =====
-- crates/grimoire-gateway/src: the sessions of the gateway (session.rs) and the pushes to them
-- (main.rs). A session is shared (`Arc`), so the tables hold references and `store` holds the
-- sessions. What goes to sockets and services is appended to `out`.
pub mod Serving
pub mod Migration
pub mod Access
pub mod Streams
pub mod Forwarding
pub mod Requests
pub mod Replies
pub mod Kcp
mod Tests
use grimoire.Prelude.{
  ℕ, ◌+◌, ◌*◌, ◌/◌, ◌%◌, ◌^◌, Bool, true, false, ◌==◌, if◌then◌else◌, Option, none, some, List, [],
  ◌∷◌, ◌++◌, Map, empty, insert, remove, Text, or_else,
}
use grimoire.Net.{PType, Frame}
use grimoire.Net.Udp.{peer_packet, push_datagram}

-- A socket address, as a number.
abbrev pub SocketAddr : Type 0
SocketAddr = ℕ

-- `writable` tells whether the task that writes to the socket still takes frames.
pub record Session : Type 0 where
  pub conn_id : ℕ
  pub active_domains : ℕ
  pub udp_addr : Option SocketAddr
  pub authed : Bool
  pub writable : Bool

pub data Effect : Type 0 where
  to_client : ℕ → Frame → Effect
  to_udp : SocketAddr → List ℕ → Effect
  to_kcp : ℕ → List ℕ → Effect
  notify_disconnected : ℕ → ℕ → Effect

-- `kcp_sessions` tells of each KCP session whether it takes packets, `udp_open` whether the task that
-- sends datagrams does.
pub record Ctx : Type 0 where
  pub sessions : Map ℕ
  pub store : Map Session
  pub next_ref : ℕ
  pub next_conn_id : ℕ
  pub gateway_id : ℕ
  pub kcp_sessions : Map Bool
  pub udp_open : Bool
  pub conn_session : Map (ℕ × ℕ)
  pub auth_secret : Text
  pub out : List Effect

abbrev pub emit : List Effect → Ctx → Ctx
emit es c = record c { out = c.out ++ es }

abbrev pub new : ℕ → Session
new conn_id = record {
  conn_id = conn_id;
  active_domains = 0;
  udp_addr = none;
  authed = false;
  writable = true;
}

abbrev pub response : ℕ → ℕ → List ℕ → Frame
response msg_id seq payload = record {
  ptype = PType.response;
  msg_id = msg_id;
  seq = seq;
  payload = payload;
}

-- Writes to a shared session.
abbrev pub update : ℕ → Session → Ctx → Ctx
update ref s c = record c { store = insert ref s c.store }

-- Whether the frame was taken.
unfoldable pub send : ℕ → Frame → Ctx → Bool × Ctx
send ref f c = elim (c.store ref) [
  | none ↦ (false, c)
  | some s ↦ if s.writable then (true, emit (to_client ref f ∷ []) c) else (false, c)
]

-- The connection moves to another number and no domain is active.
abbrev pub rebind : ℕ → Session → Session
rebind new_id s = record s { conn_id = new_id; active_domains = 0 }

-- The bit of a domain, and whether it is set.
abbrev pub domain_bit : ℕ → ℕ
domain_bit domain = 2 ^ (domain / 2 ^ 24 % 32)

abbrev pub is_active : ℕ → ℕ → Bool
is_active bits domain = bits / domain_bit domain % 2 == 1

-- Whether the domain is newly active.
unfoldable pub mark_domain : ℕ → Session → Bool × Session
mark_domain domain s =
    if is_active s.active_domains domain
    then (false, s)
    else (true, record s { active_domains = s.active_domains + domain_bit domain })

-- The active ones of the three domains.
unfoldable pub domains_among : List ℕ → Session → List ℕ
domains_among [] s = []
domains_among (d ∷ ds) s =
    let rest = domains_among ds s in
    if s.active_domains / 2 ^ d % 2 == 1 then d * 2 ^ 24 ∷ rest else rest

abbrev pub domains : Session → List ℕ
domains s = domains_among (1 ∷ 2 ∷ 3 ∷ []) s

-- `send_kcp`, `send_udp`: whether the packet was taken.
unfoldable pub send_kcp : Session → ℕ → List ℕ → Ctx → Bool × Ctx
send_kcp s msg_id payload c =
    if or_else (c.kcp_sessions s.conn_id) false
    then (true, emit (to_kcp s.conn_id (peer_packet s.conn_id msg_id payload) ∷ []) c)
    else (false, c)

unfoldable pub send_udp : Session → ℕ → ℕ → List ℕ → Ctx → Bool × Ctx
send_udp s msg_id seq payload c = elim s.udp_addr [
  | none ↦ (false, c)
  | some addr ↦
      if c.udp_open
      then (true, emit (to_udp addr (push_datagram msg_id seq payload) ∷ []) c)
      else (false, c)
]

-- The second way where the first took nothing.
abbrev pub otherwise : Bool × Ctx → (Ctx → Bool × Ctx) → Bool × Ctx
otherwise (true, c) next = (true, c)
otherwise (false, c) next = next c

abbrev push_frame : ℕ → List ℕ → Frame
push_frame msg_id payload = record {
  ptype = PType.push;
  msg_id = msg_id;
  seq = 0;
  payload = payload;
}

-- KCP, then UDP, then TCP.
unfoldable pub push_msg : ℕ → Session → ℕ → List ℕ → Bool → Ctx → Bool × Ctx
push_msg ref s msg_id payload prefer_udp c =
    if prefer_udp
    then otherwise (otherwise (send_kcp s msg_id payload c) (send_udp s msg_id 0 payload))
        (send ref (push_frame msg_id payload))
    else send ref (push_frame msg_id payload) c

-- `ctx.sessions.get(..)`: the reference and its session.
unfoldable pub session_of : ℕ → Ctx → Option (ℕ × Session)
session_of conn_id c = elim (c.sessions conn_id) [
  | none ↦ none
  | some ref ↦ elim (c.store ref) [ none ↦ none | some s ↦ some (ref, s) ]
]

-- main.rs, `route_push`.
unfoldable pub route_push : ℕ → ℕ → List ℕ → Bool → Ctx → Bool × Ctx
route_push conn_id msg_id payload udp c = elim (session_of conn_id c) [
  | none ↦ (false, c)
  | some (ref, s) ↦ push_msg ref s msg_id payload udp c
]

abbrev pub close_frame : List ℕ → Frame
close_frame payload = record { ptype = PType.close; msg_id = 0; seq = 0; payload = payload }

-- main.rs, `kick`, with the text of the reason and the detail.
unfoldable pub kick : ℕ → List ℕ → Ctx → Bool × Ctx
kick conn_id text c = elim (c.sessions conn_id) [
  | none ↦ (false, c)
  | some ref ↦
      (true, (send ref (close_frame text) (record c { sessions = remove conn_id c.sessions })).1)
]
