-- ===== src/Gateway/Kcp.antt =====
-- crates/grimoire-gateway/src/kcp.rs, `handle_kcp_datagram` of session.rs and the choice of the channel
-- in main.rs. The KCP library is an interface; the tasks that drive sessions are a list.
pub mod Driving
use grimoire.Prelude.{
  ℕ, zero, suc, ◌+◌, ◌*◌, ◌<◌, ◌≡◌, Bool, true, false, ◌==◌, ◌&&◌, leb, if◌then◌else◌, Option, none,
  some, List, [], ◌∷◌, ◌++◌, length, get_elem?, remove_at, Map, insert, remove,
}
use grimoire.Net.Word.{byte, from_be}
use grimoire.Net.Udp.{parse_peer_packet}
use grimoire.Discovery.Ring.{Slices}
use grimoire.Gateway.{SocketAddr, session_of}
use grimoire.Gateway.Forwarding.{Hub, Outside}
use grimoire.Gateway.Requests.{datagram_to}

-- A session of the library: what is fed to it, the clock, and the application's messages that it gives,
-- of which finitely many are queued. That `recv` gives none stands for each of its errors: that nothing
-- is queued, or that the next message does not fit the buffer of 4096 bytes and stays queued.
pub record Kcp (K : Type 0) : Type 0 where
  pub new : ℕ → SocketAddr → K
  pub input : List ℕ → K → K
  pub update : ℕ → K → K
  pub recv : K → Option (List ℕ) × K
  pub send : List ℕ → K → Bool × K
  pub queued : K → ℕ
  pub recv-queued :
      (k k' : K) (message : List ℕ) → recv k ≡ (some message, k') → queued k' < queued k

-- A task that drives a session: the session's number, its reference and the source of its first packet.
pub record Driver : Type 0 where
  pub conv : ℕ
  pub ref : ℕ
  pub src : SocketAddr

pub record Kcps (K : Type 0) : Type 0 where
  pub table : Map ℕ
  pub store : Map K
  pub next_ref : ℕ
  pub drivers : List Driver

-- Where a datagram goes, by its first bytes; a KCP session's number stands there least byte first.
pub data Channel : Type 0 where
  udp : Channel
  kcp : ℕ → Channel
  nowhere : Channel

abbrev from_le : ℕ → ℕ → ℕ → ℕ → ℕ
from_le a b c d = from_be d c b a

unfoldable pub channel_of : List ℕ → Channel
channel_of d =
    if leb 2 (length d) && (byte d 0 == b'M' && byte d 1 == b'U')
    then udp
    else if leb 4 (length d)
    then kcp (from_le (byte d 0) (byte d 1) (byte d 2) (byte d 3))
    else nowhere

module _ {K : Type 0} (lib : Kcp K) where
  -- A new session under a number, with the task that drives it.
  unfoldable pub open_session : ℕ → SocketAddr → Kcps K → ℕ × Kcps K
  open_session conv src t = (
    t.next_ref,
    record t {
      table = insert conv t.next_ref t.table;
      store = insert t.next_ref (lib.new conv src) t.store;
      next_ref = t.next_ref + 1;
      drivers = t.drivers ++ record { conv = conv; ref = t.next_ref; src = src } ∷ [];
    },
  )

  unfoldable pub feed : ℕ → List ℕ → Kcps K → Kcps K
  feed ref bytes t = elim (t.store ref) [
    | none ↦ t
    | some k ↦ record t { store = insert ref (lib.input bytes k) t.store }
  ]

  abbrev pub session_for : ℕ → SocketAddr → Option ℕ → Kcps K → ℕ × Kcps K
  session_for conv src none t = open_session conv src t
  session_for conv src (some ref) t = (ref, t)

  unfoldable pub handle_kcp_datagram : ℕ → SocketAddr → List ℕ → Kcps K → Kcps K
  handle_kcp_datagram conv src bytes t =
      let (ref, d) = session_for conv src (t.table conv) t in feed ref bytes d

  -- The end of a connection's grace period takes its session away.
  unfoldable pub forget_session : ℕ → Kcps K → Kcps K
  forget_session conv t = record t { table = remove conv t.table }

  -- `send_packet`: whether the session takes the packet.
  abbrev pub sent : ℕ → Bool × K → Kcps K → Bool × Kcps K
  sent ref (ok, k) t = (ok, record t { store = insert ref k t.store })

  unfoldable pub send_packet : ℕ → List ℕ → Kcps K → Bool × Kcps K
  send_packet ref bytes t = elim (t.store ref) [
    | none ↦ (false, t)
    | some k ↦ sent ref (lib.send bytes k) t
  ]

  abbrev drain_on : (K → List (List ℕ) × K) → Option (List ℕ) × K → List (List ℕ) × K
  drain_on rest (none, k) = ([], k)
  drain_on rest (some message, k) = let (messages, k') = rest k in (message ∷ messages, k')

  -- The messages that a session gives, until `recv` gives none.
  unfoldable pub drain : ℕ → K → List (List ℕ) × K
  drain zero k = ([], k)
  drain (suc fuel) k = drain_on (drain fuel) (lib.recv k)

  -- The round of a session's task: its clock, then what it has received.
  unfoldable pub round : ℕ → Driver → Kcps K → List (List ℕ) × Kcps K
  round now d t = elim (t.store d.ref) [
    | none ↦ ([], t)
    | some k ↦
        let k' = lib.update now k in
        let (messages, k'') = drain (lib.queued k' + 1) k' in
        (messages, record t { store = insert d.ref k'' t.store })
  ]

  -- Whether the session is no longer the one under its number.
  unfoldable pub is_gone : Driver → Kcps K → Bool
  is_gone d t = elim (t.table d.conv) [
    | none ↦ true
    | some ref ↦ if ref == d.ref then false else true
  ]

  -- A round of the task at a place in the list; it ends if its session is gone.
  abbrev pub rounded : ℕ → ℕ → Driver → Kcps K → Kcps K
  rounded now i d t =
      let (messages, t') = round now d t in
      if is_gone d t' then record t' { drivers = remove_at t'.drivers i } else t'

  unfoldable pub driver_round : ℕ → ℕ → Kcps K → Kcps K
  driver_round now i t = elim (get_elem? t.drivers i) [ none ↦ t | some d ↦ rounded now i d t ]

-- What the gateway does with a message that a session has received.
unfoldable pub on_data : Slices → Outside → SocketAddr → List ℕ → Hub → Hub
on_data sl o src packet h = elim (parse_peer_packet packet) [
  | none ↦ h
  | some (conn_id, msg_id, payload) ↦
      datagram_to sl o src msg_id payload (session_of conn_id h.ctx) h
]
