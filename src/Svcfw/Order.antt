-- ===== src/Svcfw/Order.antt =====
-- Which stream a push takes.
use grimoire.Prelude.{
  ℕ, ◌+◌, ◌-◌, ◌<◌, ◌⊎◌, ltb, ltb→lt, false, Bool-cases, insert, insert_self, ◌≡◌, inl, inr, refl,
  sym, ap, ◌∙◌, arith, Bool, true, Option, none, some, List, [], ◌∷◌, ◌++◌, Option-cases,
}
use grimoire.Common.{gateway_id_of}
use grimoire.Discovery.{Channel}
use grimoire.Svcfw.Pusher.{
  Pusher, PushRequest, Network, channel_for, open_on, stream_for, send_with, try_send, push_via,
}

-- A channel that is looked up leaves the streams alone.
channel_for-sent :
    (w : Network) (conn_id : ℕ) (p : Pusher) → (channel_for w conn_id p).1.sent ≡ p.sent
unfolding channel_for
channel_for-sent w conn_id p = ground arith

open_on-streams :
    (w : Network) (gw : ℕ) (c : Option Channel) (p : Pusher) (s : ℕ)
    → (open_on w gw (c, p)).0 ≡ some s
    → (open_on w gw (c, p)).1.streams gw ≡ some s
open_on-streams w gw none p s h = absurd (ground arith)
open_on-streams w gw (some ch) p s h = ground arith

open_on-sent :
    (w : Network) (gw : ℕ) (c : Option Channel) (p : Pusher) → (open_on w gw (c, p)).1.sent ≡ p.sent
open_on-sent w gw none p = refl
open_on-sent w gw (some ch) p = ground arith

stream_for-some :
    (w : Network) (conn_id s : ℕ) (p : Pusher)
    → p.streams (gateway_id_of conn_id) ≡ some s
    → stream_for w conn_id p ≡ (some s, p)
unfolding stream_for
stream_for-some w conn_id s p h = rw (h, stream_for) refl

stream_for-none :
    (w : Network) (conn_id : ℕ) (p : Pusher)
    → p.streams (gateway_id_of conn_id) ≡ none
    → stream_for w conn_id p ≡ open_on w (gateway_id_of conn_id) (channel_for w conn_id p)
unfolding stream_for
stream_for-none w conn_id p h = rw (h, stream_for) refl

abbrev Found : Type 0
Found = Option ℕ × Pusher

stream_for-streams :
    (w : Network) (conn_id s : ℕ) (p : Pusher)
    → (stream_for w conn_id p).0 ≡ some s
    → (stream_for w conn_id p).1.streams (gateway_id_of conn_id) ≡ some s
stream_for-streams w conn_id s p h =
    let gw = gateway_id_of conn_id in
    elim (Option-cases (p.streams gw)) [
      | inl e ↦
          let q = stream_for-none w conn_id p e in
          let (c, p') = channel_for w conn_id p in
          ap (λ (x : Found). x.1.streams gw) q
          ∙ open_on-streams w gw c p' s (sym (ap (λ (x : Found). x.0) q) ∙ h)
      | inr (t, e) ↦
          let q = stream_for-some w conn_id t p e in
          ap (λ (x : Found). x.1.streams gw) q ∙ e ∙ sym (ap (λ (x : Found). x.0) q) ∙ h
    ]

stream_for-sent :
    (w : Network) (conn_id : ℕ) (p : Pusher) → (stream_for w conn_id p).1.sent ≡ p.sent
stream_for-sent w conn_id p =
    let gw = gateway_id_of conn_id in
    elim (Option-cases (p.streams gw)) [
      | inl e ↦
          let (c, p') = channel_for w conn_id p in
          ap (λ (x : Found). x.1.sent) (stream_for-none w conn_id p e)
          ∙ open_on-sent w gw c p'
          ∙ channel_for-sent w conn_id p
      | inr (t, e) ↦ ap (λ (x : Found). x.1.sent) (stream_for-some w conn_id t p e)
    ]

-- What a push that was taken leaves behind.
try_send-true :
    (req : PushRequest) (o : Option ℕ) (p : Pusher)
    → (try_send req (o, p)).0 ≡ true
    → (s : ℕ) × (room : ℕ) × (o ≡ some s)
      × (p.open_streams s ≡ some (room + 1))
      × (try_send req (o, p) ≡ (
        true,
        record p { open_streams = insert s room p.open_streams; sent = p.sent ++ (s, req) ∷ [] },
      ))
try_send-true req none p h = absurd (ground arith)
try_send-true req (some s) p h = elim (Option-cases (p.open_streams s)) [
  | inl e ↦ absurd (ground arith)
  | inr (room, e) ↦
      let some_room : 0 < room = ground arith in
      (s, room - 1, refl, e ∙ ap some (omega arith), ap (λ x. send_with req s x p) e ∙ ground arith)
]

abbrev pub request : ℕ → ℕ → List ℕ → Bool → PushRequest
request conn_id msg_id payload udp = record {
  conn_id = conn_id;
  msg_id = msg_id;
  payload = payload;
  udp = udp;
}

push_via-true :
    (w : Network) (conn_id msg_id : ℕ) (payload : List ℕ) (udp : Bool) (p : Pusher)
    → (push_via w conn_id msg_id payload udp p).0 ≡ true
    → let t = (push_via w conn_id msg_id payload udp p).1 in
      (s : ℕ) × (room : ℕ) × (t.streams (gateway_id_of conn_id) ≡ some s)
      × (t.open_streams s ≡ some room)
      × (t.sent ≡ p.sent ++ (s, request conn_id msg_id payload udp) ∷ [])
unfolding push_via
push_via-true w conn_id msg_id payload udp p h =
    let req = request conn_id msg_id payload udp in
    let (o, p') = stream_for w conn_id p in
    let (s, room, there, is_open, e) = try_send-true req o p' h in
    (
      s,
      room,
      ap (λ (x : Bool × Pusher). x.1.streams (gateway_id_of conn_id)) e
          ∙ stream_for-streams w conn_id s p there,
      ap (λ (x : Bool × Pusher). x.1.open_streams s) e ∙ insert_self s room p'.open_streams,
      ap (λ (x : Bool × Pusher). x.1.sent) e
          ∙ ap (λ xs. xs ++ (s, req) ∷ []) (stream_for-sent w conn_id p),
    )

push_via-open :
    (w : Network) (conn_id msg_id s room : ℕ) (payload : List ℕ) (udp : Bool) (p : Pusher)
    → p.streams (gateway_id_of conn_id) ≡ some s
    → p.open_streams s ≡ some room
    → push_via w conn_id msg_id payload udp p
      ≡ send_with (request conn_id msg_id payload udp) s (some room) p
unfolding push_via
push_via-open w conn_id msg_id s room payload udp p e is_open =
    let req = request conn_id msg_id payload udp in
    ap (try_send req) (stream_for-some w conn_id s p e) ∙ ap (λ x. send_with req s x p) is_open

-- After a push that was taken, a push to a connection of the same gateway, TCP or UDP, whatever the
-- network answers, needs neither the registry nor a new connection. If the stream's channel has room,
-- it is taken and goes over the same stream, right behind the first; if the first has filled the
-- channel, it is dropped, and nothing changes.
pub push_via-push_via :
    (w w' : Network) (c c' m m' : ℕ) (payload payload' : List ℕ) (udp udp' : Bool) (p : Pusher)
    → (push_via w c m payload udp p).0 ≡ true
    → gateway_id_of c' ≡ gateway_id_of c
    → let t = (push_via w c m payload udp p).1 in
      let t' = push_via w' c' m' payload' udp' t in
      (s : ℕ) × (room : ℕ) × (t.streams (gateway_id_of c) ≡ some s)
      × (t.open_streams s ≡ some room)
      × (t.sent ≡ p.sent ++ (s, request c m payload udp) ∷ [])
      × (((0 < room)
            × (t'.0 ≡ true)
            × (t'.1.streams (gateway_id_of c) ≡ some s)
            × (t'.1.sent
                ≡ (p.sent ++ (s, request c m payload udp) ∷ [])
                  ++ (s, request c' m' payload' udp') ∷ []))
          ⊎ ((room ≡ 0) × (t' ≡ (false, t))))
push_via-push_via w w' c c' m m' payload payload' udp udp' p h same =
    let t = (push_via w c m payload udp p).1 in
    let req = request c' m' payload' udp' in
    let (s, room, there, is_open, e) = push_via-true w c m payload udp p h in
    let q = push_via-open w' c' m' s room payload' udp' t (ap t.streams same ∙ there) is_open in
    (
      s,
      room,
      there,
      is_open,
      e,
      elim (Bool-cases (ltb 0 room)) [
        | inl some_room ↦
            let taken : send_with req s (some room) t ≡ (
              true,
              record t {
                open_streams = insert s (room - 1) t.open_streams;
                sent = t.sent ++ (s, req) ∷ [];
              },
            ) =
              rw some_room refl in
            inl (
              ltb→lt 0 room some_room,
              ap (λ (x : Bool × Pusher). x.0) (q ∙ taken),
              ap (λ (x : Bool × Pusher). x.1.streams (gateway_id_of c)) (q ∙ taken) ∙ there,
              ap (λ (x : Bool × Pusher). x.1.sent) (q ∙ taken) ∙ ap (λ xs. xs ++ (s, req) ∷ []) e,
            )
        | inr full ↦ inr (ground arith, q ∙ rw full refl)
      ],
    )
