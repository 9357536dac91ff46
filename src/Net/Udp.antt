-- ===== src/Net/Udp.antt =====
-- crates/grimoire-net/src/lib.rs, module `udp`: the datagrams of the low-latency channel.
use grimoire.Prelude.{
  ℕ, ◌<◌, ◌≡◌, arith, not, ◌&&◌, ◌||◌, ltb, ◌==◌, if◌then◌else◌, Option, none, some, List, ◌∷◌,
  length, drop,
}
use grimoire.Net.Word.{u32_mod, u32_be, from_be, byte, from_be-u32, u32_be-from, IsBytes}

abbrev pub header_len : ℕ
header_len = 10

-- Client to gateway.
unfoldable pub peer_packet : ℕ → ℕ → List ℕ → List ℕ
peer_packet conn_id msg_id payload = b'M' ∷ b'U' ∷ u32_be conn_id (u32_be msg_id payload)

unfoldable pub parse_peer_packet : List ℕ → Option (ℕ × ℕ × List ℕ)
parse_peer_packet d =
    if ltb (length d) header_len || not (byte d 0 == b'M' && byte d 1 == b'U')
    then none
    else some (
      from_be (byte d 2) (byte d 3) (byte d 4) (byte d 5),
      from_be (byte d 6) (byte d 7) (byte d 8) (byte d 9),
      drop header_len d,
    )

-- Gateway to client.
unfoldable pub push_datagram : ℕ → ℕ → List ℕ → List ℕ
push_datagram msg_id seq payload = b'M' ∷ b'U' ∷ u32_be msg_id (u32_be seq payload)

unfoldable pub parse_push_datagram : List ℕ → Option (ℕ × ℕ × List ℕ)
parse_push_datagram d =
    if ltb (length d) header_len || not (byte d 0 == b'M' && byte d 1 == b'U')
    then none
    else some (
      from_be (byte d 2) (byte d 3) (byte d 4) (byte d 5),
      from_be (byte d 6) (byte d 7) (byte d 8) (byte d 9),
      drop header_len d,
    )

-- What a client packs the gateway parses.
pub parse-peer_packet :
    (conn_id msg_id : ℕ) (payload : List ℕ)
    → conn_id < u32_mod
    → msg_id < u32_mod
    → parse_peer_packet (peer_packet conn_id msg_id payload) ≡ some (conn_id, msg_id, payload)
unfolding parse_peer_packet peer_packet
parse-peer_packet conn_id msg_id payload h k =
    ground (arith, from_be-u32 conn_id h, from_be-u32 msg_id k)

-- What the gateway packs a client parses.
pub parse-push_datagram :
    (msg_id seq : ℕ) (payload : List ℕ)
    → msg_id < u32_mod
    → seq < u32_mod
    → parse_push_datagram (push_datagram msg_id seq payload) ≡ some (msg_id, seq, payload)
unfolding parse_push_datagram push_datagram
parse-push_datagram msg_id seq payload h k = ground (arith, from_be-u32 msg_id h, from_be-u32 seq k)

-- A parsed packet was packed from the three parts that it is parsed into.
pub peer_packet-parse :
    (d : List ℕ) {conn_id msg_id : ℕ} {payload : List ℕ}
    → IsBytes d
    → parse_peer_packet d ≡ some (conn_id, msg_id, payload)
    → peer_packet conn_id msg_id payload ≡ d
unfolding parse_peer_packet peer_packet
peer_packet-parse (a ∷ b ∷ c ∷ e ∷ f ∷ g ∷ h ∷ i ∷ j ∷ k ∷ r)
      (_, (_, (vc, (ve, (vf, (vg, (vh, (vi, (vj, (vk, _)))))))))) q =
    ground (
      arith,
      u32_be-from c e f g (u32_be (from_be h i j k) r) vc ve vf vg,
      u32_be-from h i j k r vh vi vj vk,
    )
peer_packet-parse d v q = ground arith
