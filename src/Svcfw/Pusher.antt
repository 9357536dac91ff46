-- ===== src/Svcfw/Pusher.antt =====
-- crates/grimoire-svcfw/src/pusher.rs: pushes to the gateway that a connection's number names. What
-- the network answers during a call is an argument.
use grimoire.Prelude.{
  ℕ, min, ltb, remove, ◌+◌, ◌*◌, ◌-◌, Bool, true, false, ◌==◌, ◌&&◌, leb, if◌then◌else◌, Option,
  none, some, List, [], ◌∷◌, ◌++◌, Map, empty, insert, find, Text, codes, same, or_else,
}
use grimoire.Common.{gateway_id_of, svc_gateway}
use grimoire.Registry.{NodeInfo, Meta}
use grimoire.Discovery.{Channel}

pub record PushRequest : Type 0 where
  pub conn_id : ℕ
  pub msg_id : ℕ
  pub payload : List ℕ
  pub udp : Bool

-- Channels and streams by the gateway's number. `open_streams` tells of each stream that is
-- still there how many more requests its channel has room for, `sent` is what each took.
pub record Pusher : Type 0 where
  pub channels : Map Channel
  pub streams : Map ℕ
  pub open_streams : Map ℕ
  pub next_stream : ℕ
  pub sent : List (ℕ × PushRequest)

-- `mpsc::channel(1024)`
abbrev pub stream_capacity : ℕ
stream_capacity = 1024

abbrev pub init : Pusher
init = record {
  channels = empty;
  streams = empty;
  open_streams = empty;
  next_stream = 0;
  sent = [];
}

-- What the registry answers to a search for a service, the connecting to an address, whether the
-- gateway opens a stream, and what it answers to a kick.
pub record Network : Type 0 where
  pub registry : Text → Option (List NodeInfo)
  pub connect : Text → Option Channel
  pub opens : Channel → Bool
  pub kicked : Channel → ℕ → Option Bool

-- `meta.get("id")`
unfoldable pub get_meta : Text → Meta → Option Text
get_meta key [] = none
get_meta key ((k, v) ∷ meta) = if same key k then some v else get_meta key meta

-- The digits of a number below 256.
unfoldable pub parse_digits : ℕ → Text → Option ℕ
parse_digits acc [] = some acc
parse_digits acc (c ∷ cs) =
    let next = parse_digits (acc * 10 + (c - b'0')) cs in
    if leb b'0' c && (leb c b'9' && leb (acc * 10 + (c - b'0')) 255) then next else none

abbrev digits : Text → Option ℕ
digits [] = none
digits (c ∷ cs) = parse_digits 0 (c ∷ cs)

-- `parse::<u8>()`: digits, perhaps after a plus sign.
unfoldable pub parse_u8 : Text → Option ℕ
parse_u8 [] = none
parse_u8 (c ∷ cs) = if c == b'+' then digits cs else digits (c ∷ cs)

abbrev is_number : ℕ → Option ℕ → Bool
is_number gw none = false
is_number gw (some n) = n == gw

abbrev parsed : Option Text → Option ℕ
parsed none = none
parsed (some v) = parse_u8 v

unfoldable pub is_gateway : ℕ → NodeInfo → Bool
is_gateway gw n = is_number gw (parsed (get_meta (codes "id") n.meta))

-- The gateway's node among those that the registry lists.
unfoldable pub find_gateway : Network → ℕ → Option NodeInfo
find_gateway w gw = elim (w.registry svc_gateway) [
  | none ↦ none
  | some nodes ↦ find (is_gateway gw) nodes
]

unfoldable pub channel_for : Network → ℕ → Pusher → Option Channel × Pusher
channel_for w conn_id p = elim (p.channels (gateway_id_of conn_id)) [
  | some ch ↦ (some ch, p)
  | none ↦ elim (find_gateway w (gateway_id_of conn_id)) [
    | none ↦ (none, p)
    | some n ↦ elim (w.connect n.addr) [
      | none ↦ (none, p)
      | some ch ↦ (some ch, record p { channels = insert (gateway_id_of conn_id) ch p.channels })
    ]
  ]
]

abbrev pub open_on : Network → ℕ → Option Channel × Pusher → Option ℕ × Pusher
open_on w gw (none, p) = (none, p)
open_on w gw (some ch, p) =
    if w.opens ch
    then (
      some p.next_stream,
      record p {
        streams = insert gw p.next_stream p.streams;
        open_streams = insert p.next_stream stream_capacity p.open_streams;
        next_stream = p.next_stream + 1;
      },
    )
    else (none, p)

unfoldable pub stream_for : Network → ℕ → Pusher → Option ℕ × Pusher
stream_for w conn_id p = elim (p.streams (gateway_id_of conn_id)) [
  | some s ↦ (some s, p)
  | none ↦ open_on w (gateway_id_of conn_id) (channel_for w conn_id p)
]

-- The end of a gateway's stream: its entry goes if it is still this stream's. The channel stays.
unfoldable pub close_stream : ℕ → ℕ → Pusher → Pusher
close_stream gw ref p =
    let closed = record p { open_streams = remove ref p.open_streams } in
    elim (p.streams gw) [
      | none ↦ closed
      | some cur ↦
          if cur == ref
          then record closed { streams = λ k. if k == gw then none else p.streams k }
          else closed
    ]

-- The network takes a request off a stream's channel.
unfoldable pub send_one : ℕ → Pusher → Pusher
send_one ref p = elim (p.open_streams ref) [
  | none ↦ p
  | some room ↦ record p {
    open_streams = insert ref (min (room + 1) stream_capacity) p.open_streams;
  }
]

abbrev pub send_with : PushRequest → ℕ → Option ℕ → Pusher → Bool × Pusher
send_with req s none p = (false, p)
send_with req s (some room) p =
    if ltb 0 room
    then (
      true,
      record p {
        open_streams = insert s (room - 1) p.open_streams;
        sent = p.sent ++ (s, req) ∷ [];
      },
    )
    else (false, p)

-- A full channel drops the request.
abbrev pub try_send : PushRequest → Option ℕ × Pusher → Bool × Pusher
try_send req (none, p) = (false, p)
try_send req (some s, p) = send_with req s (p.open_streams s) p

unfoldable pub push_via : Network → ℕ → ℕ → List ℕ → Bool → Pusher → Bool × Pusher
push_via w conn_id msg_id payload udp p =
    try_send (record { conn_id = conn_id; msg_id = msg_id; payload = payload; udp = udp })
      (stream_for w conn_id p)

abbrev pub push : Network → ℕ → ℕ → List ℕ → Pusher → Bool × Pusher
push w conn_id msg_id payload p = push_via w conn_id msg_id payload false p

abbrev pub push_udp : Network → ℕ → ℕ → List ℕ → Pusher → Bool × Pusher
push_udp w conn_id msg_id payload p = push_via w conn_id msg_id payload true p

abbrev kick_on : Network → ℕ → Option Channel × Pusher → Bool × Pusher
kick_on w conn_id (none, p) = (false, p)
kick_on w conn_id (some ch, p) = (or_else (w.kicked ch conn_id) false, p)

unfoldable pub kick : Network → ℕ → Pusher → Bool × Pusher
kick w conn_id p = kick_on w conn_id (channel_for w conn_id p)
