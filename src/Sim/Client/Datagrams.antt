-- ===== src/Sim/Client/Datagrams.antt =====
-- crates/grimoire-sim/src/client.rs: the datagrams of a client, over UDP (UdpBattle) and over KCP
-- (UdpKcp). The KCP library carries packets; the coding of inputs is an argument.
use grimoire.Prelude.{
  ℕ, zero, suc, ◌+◌, ◌<◌, ◌≤◌, ◌≡◌, ◌≢◌, refl, sym, ap, subst, ◌⊎◌, ◌∙◌, inl, inr, arith, true,
  false, Bool, Bool-cases, Option-cases, Option, none, some, List, [], ◌∷◌, ◌++◌, take, length,
  or_else,
}
use grimoire.Common.{battle_input, sys_conn_id}
use grimoire.Sim.Client.{connected, receive, receive_push}
use grimoire.Net.{Frame, PType}
use grimoire.Net.Word.{u32_mod}
use grimoire.Net.Udp.{
  peer_packet, parse_peer_packet, push_datagram, parse_push_datagram, parse-peer_packet,
  parse-push_datagram,
}
use grimoire.Gateway.{
  Session, Ctx, Effect, to_client, to_udp, to_kcp, notify_disconnected, send, send_kcp, send_udp,
  push_msg, otherwise,
}

-- The first packet, which makes the gateway know the source.
abbrev pub bind_packet : ℕ → List ℕ
bind_packet conn_id = peer_packet conn_id battle_input []

abbrev pub input_packet : ℕ → List ℕ → List ℕ
input_packet conn_id payload = peer_packet conn_id battle_input payload

abbrev pub max_datagram : ℕ
max_datagram = 2048

-- What is read of a datagram is what the buffer holds of it.
unfoldable pub recv_push : List ℕ → Option (ℕ × ℕ × List ℕ)
recv_push datagram = parse_push_datagram (take max_datagram datagram)

abbrev pub without_conn : Option (ℕ × ℕ × List ℕ) → Option (ℕ × ℕ × List ℕ)
without_conn none = none
without_conn (some (conn_id, msg_id, payload)) = some (msg_id, 0, payload)

unfoldable pub recv_kcp : List ℕ → Option (ℕ × ℕ × List ℕ)
recv_kcp packet = without_conn (parse_peer_packet packet)

-- The first push that a client's subscribers see.
abbrev first_push : List Frame → Option (ℕ × ℕ × List ℕ)
first_push [] = none
first_push (f ∷ fs) = some (f.msg_id, f.seq, f.payload)

-- What a client that was just connected gets of what the gateway puts out: a frame through its reading
-- task, which keeps the frame with the connection's number to itself, a datagram from its socket.
abbrev pub got : Effect → Option (ℕ × ℕ × List ℕ)
got (to_client ref f) = first_push (receive f connected).1.pushes
got (to_udp addr datagram) = recv_push datagram
got (to_kcp conn_id packet) = recv_kcp packet
got (notify_disconnected domain conn_id) = none

receive-push :
    (msg_id : ℕ) (payload : List ℕ)
    → (msg_id ≢ sys_conn_id) ⊎ (length payload ≢ 4)
    → (receive
        (record { ptype = PType.push; msg_id = msg_id; seq = 0; payload = payload })
        connected).1.pushes
      ≡ record { ptype = PType.push; msg_id = msg_id; seq = 0; payload = payload } ∷ []
unfolding receive receive_push
receive-push msg_id payload (inl n) = ground arith
receive-push msg_id payload (inr n) = ground arith

take_all : {A : Type 0} (n : ℕ) (xs : List A) → length xs ≤ n → take n xs ≡ xs
take_all zero [] h = refl
take_all zero (x ∷ xs) h = absurd (omega arith)
take_all (suc n) [] h = refl
take_all (suc n) (x ∷ xs) h = ap (λ ys. x ∷ ys) (take_all n xs (omega arith))

length-push_datagram :
    (msg_id seq : ℕ) (payload : List ℕ)
    → length (push_datagram msg_id seq payload) ≡ length payload + 10
unfolding push_datagram
length-push_datagram msg_id seq payload = omega arith

recv_push-push_datagram :
    (msg_id seq : ℕ) (payload : List ℕ)
    → msg_id < u32_mod
    → seq < u32_mod
    → length payload ≤ 2038
    → recv_push (push_datagram msg_id seq payload) ≡ some (msg_id, seq, payload)
unfolding recv_push
recv_push-push_datagram msg_id seq payload h k l =
    ap parse_push_datagram (
      take_all max_datagram (push_datagram msg_id seq payload)
        (omega (arith, length-push_datagram msg_id seq payload)))
    ∙ parse-push_datagram msg_id seq payload h k

recv_kcp-peer_packet :
    (conn_id msg_id : ℕ) (payload : List ℕ)
    → conn_id < u32_mod
    → msg_id < u32_mod
    → recv_kcp (peer_packet conn_id msg_id payload) ≡ some (msg_id, 0, payload)
unfolding recv_kcp
recv_kcp-peer_packet conn_id msg_id payload h k =
    ap without_conn (parse-peer_packet conn_id msg_id payload h k)

-- One way of pushing: nothing was taken, or one thing went out, from which the client gets the message.
abbrev Delivers : ℕ → List ℕ → Ctx → Bool × Ctx → Type 0
Delivers msg_id payload c x =
    ((x.0 ≡ false) × (x.1 ≡ c))
    ⊎ ((x.0 ≡ true)
        × ((e : Effect) × (x.1.out ≡ c.out ++ e ∷ []) × (got e ≡ some (msg_id, 0, payload))))

otherwise-Delivers :
    (msg_id : ℕ) (payload : List ℕ) (c : Ctx) (x : Bool × Ctx) (next : Ctx → Bool × Ctx)
    → Delivers msg_id payload c x
    → Delivers msg_id payload c (next c)
    → Delivers msg_id payload c (otherwise x next)
otherwise-Delivers msg_id payload c (true, d) next h k = h
otherwise-Delivers msg_id payload c (false, d) next (inl (a, e)) k =
    subst (λ b. Delivers msg_id payload c (next b)) (sym e) k
otherwise-Delivers msg_id payload c (false, d) next (inr (a, e)) k = cc

module _ (msg_id : ℕ) (payload : List ℕ) (own : (msg_id ≢ sys_conn_id) ⊎ (length payload ≢ 4))
    (small : msg_id < u32_mod) (fits : length payload ≤ 2038) where
  send-Delivers :
      (ref : ℕ) (c : Ctx)
      → Delivers msg_id payload c
          (send ref (record { ptype = PType.push; msg_id = msg_id; seq = 0; payload = payload }) c)
  unfolding send
  send-Delivers ref c = elim (Option-cases (c.store ref)) [
    | inl e ↦ rw (e, send) (inl (refl, refl))
    | inr (s, e) ↦ elim (Bool-cases s.writable) [
      | inl b ↦
          rw (e, send)
            (rw b (
              inr (
                refl,
                (
                  to_client ref
                      (record { ptype = PType.push; msg_id = msg_id; seq = 0; payload = payload }),
                  refl,
                  ap first_push (receive-push msg_id payload own),
                ),
              )))
      | inr b ↦ rw (e, send) (rw b (inl (refl, refl)))
    ]
  ]

  send_kcp-Delivers :
      (s : Session) (c : Ctx)
      → s.conn_id < u32_mod
      → Delivers msg_id payload c (send_kcp s msg_id payload c)
  unfolding send_kcp
  send_kcp-Delivers s c h = elim (Bool-cases (or_else (c.kcp_sessions s.conn_id) false)) [
    | inl b ↦ rw b (
        inr (
          refl,
          (
            to_kcp s.conn_id (peer_packet s.conn_id msg_id payload),
            refl,
            recv_kcp-peer_packet s.conn_id msg_id payload h small,
          ),
        ))
    | inr b ↦ rw b (inl (refl, refl))
  ]

  send_udp-Delivers :
      (s : Session) (c : Ctx) → Delivers msg_id payload c (send_udp s msg_id 0 payload c)
  unfolding send_udp
  send_udp-Delivers s c = elim (Option-cases s.udp_addr) [
    | inl e ↦ rw (e, send_udp) (inl (refl, refl))
    | inr (addr, e) ↦ elim (Bool-cases c.udp_open) [
      | inl b ↦
          rw (e, send_udp)
            (rw b (
              inr (
                refl,
                (
                  to_udp addr (push_datagram msg_id 0 payload),
                  refl,
                  recv_push-push_datagram msg_id 0 payload small (omega arith) fits,
                ),
              )))
      | inr b ↦ rw (e, send_udp) (rw b (inl (refl, refl)))
    ]
  ]

taken_one :
    (msg_id : ℕ) (payload : List ℕ) (c : Ctx) (x : Bool × Ctx)
    → x.0 ≡ true
    → Delivers msg_id payload c x
    → (e : Effect) × (x.1.out ≡ c.out ++ e ∷ []) × (got e ≡ some (msg_id, 0, payload))
taken_one msg_id payload c x h (inl (a, e)) = cc
taken_one msg_id payload c x h (inr (a, r)) = r

-- A push that the gateway takes puts out one thing, and whichever way it goes, TCP, KCP or UDP, the
-- client gets the message's number and the payload from it: if the payload has at most 2038 bytes,
-- which is what the client's buffer holds of a datagram, and if the push does not look like the
-- connection's number (its message number with four bytes), which the client keeps to itself.
pub push_msg-got :
    (ref msg_id : ℕ) (s : Session) (payload : List ℕ) (prefer_udp : Bool) (c : Ctx)
    → s.conn_id < u32_mod
    → msg_id < u32_mod
    → length payload ≤ 2038
    → (msg_id ≢ sys_conn_id) ⊎ (length payload ≢ 4)
    → (push_msg ref s msg_id payload prefer_udp c).0 ≡ true
    → (e : Effect) × ((push_msg ref s msg_id payload prefer_udp c).1.out ≡ c.out ++ e ∷ [])
      × (got e ≡ some (msg_id, 0, payload))
unfolding push_msg
push_msg-got ref msg_id s payload false c h k l own taken =
    taken_one msg_id payload c (push_msg ref s msg_id payload false c) taken
      (send-Delivers msg_id payload own k l ref c)
push_msg-got ref msg_id s payload true c h k l own taken =
    taken_one msg_id payload c (push_msg ref s msg_id payload true c) taken (
      otherwise-Delivers msg_id payload c
        (otherwise (send_kcp s msg_id payload c) (send_udp s msg_id 0 payload))
        (send ref (record { ptype = PType.push; msg_id = msg_id; seq = 0; payload = payload }))
        (otherwise-Delivers msg_id payload c (send_kcp s msg_id payload c)
          (send_udp s msg_id 0 payload) (send_kcp-Delivers msg_id payload own k l s c h)
          (send_udp-Delivers msg_id payload own k l s c))
        (send-Delivers msg_id payload own k l ref c))
