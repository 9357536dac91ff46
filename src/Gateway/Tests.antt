-- ===== src/Gateway/Tests.antt =====
-- Runs of the gateway at concrete states.
use grimoire.Prelude.{
  inl, inr, ℕ, Has, ap, Option, ◌<◌, ◌≡◌, ◌≢◌, ◌⊎◌, refl, sym, subst, arith, true, false, none, ◌∷◌,
  ◌++◌, some, [], insert, empty, codes, length, Text, List,
}
use grimoire.Common.{sys_resume, sys_bind_session, sys_auth, room_list}
use grimoire.Net.{Frame, PType}
use grimoire.Gateway.{SocketAddr, Ctx, new, to_client}
use grimoire.Gateway.Serving.{receive, handle_request, handle_auth, closed, expire, token_ok}
use grimoire.Gateway.Migration.{resume_request, resume_leaks}
use grimoire.Gateway.Access.{receive-forward, handle_auth-authed}
use grimoire.Bridge.{ForwardReply}
use grimoire.Discovery
use grimoire.Gateway.Streams.{init, Streams, dropped, expect_reply, receive_reply}
use grimoire.Gateway.Forwarding.{Hub, Outside, done, expect}
use grimoire.Gateway.Requests.{finish_request, fail_request}
use grimoire.Gateway.Kcp.{
  Kcp, Kcps, Driver, handle_kcp_datagram, open_session, feed, forget_session, driver_round, is_gone,
  round,
}
use grimoire.Gateway.Kcp.Driving.{
  Call, packet, ends, has_round, run, no_sessions, apply, run-IsDriven,
}
use grimoire.Gateway.Replies.{receive_replies, finish-receive_reply, duplicate_loses_both}

abbrev plain : List ℕ → Text
plain bytes = bytes

-- Two connections, of which the first is authenticated.
abbrev desk : Ctx
desk = record {
  sessions = insert 10 0 (insert 11 1 empty);
  store = insert 0 (record (new 10) { authed = true }) (insert 1 (new 11) empty);
  next_ref = 2;
  next_conn_id = 12;
  gateway_id = 0;
  kcp_sessions = empty;
  udp_open = true;
  conn_session = empty;
  auth_secret = codes "secret";
  out = [];
}

resume_leaks_example :
    let t = (receive plain 1 11 (new 11) (resume_request 3 10) desk).1 in
    (expire 1 11 (closed 1 11 t)).sessions 10 ≡ some 1
resume_leaks_example =
    resume_leaks plain 1 0 11 10 3 (new 11) desk refl refl (omega arith) (omega arith)

abbrev listing : Frame
listing = record { ptype = PType.request; msg_id = room_list; seq = 4; payload = [] }

receive-forward_example :
    (listing ≡ listing)
    × (PType.request ≡ PType.request)
    × (room_list ≢ sys_resume)
    × (room_list ≢ sys_bind_session)
    × (room_list ≢ sys_auth)
    × ((length (codes "secret") ≡ 0) ⊎ (true ≡ true))
    × ((receive plain 0 10 (record (new 10) { authed = true }) listing desk).1 ≡ desk)
unfolding receive handle_request
receive-forward_example =
    receive-forward plain 0 10 (record (new 10) { authed = true }) listing listing desk refl

abbrev token : Frame
token = record { ptype = PType.request; msg_id = sys_auth; seq = 5; payload = codes "wrong" }

handle_auth-authed_example :
    (handle_auth plain 0 (record (new 10) { authed = true }) token desk).store 0
    ≡ some (record (new 10) { authed = token_ok plain token.payload desk.auth_secret })
handle_auth-authed_example =
    handle_auth-authed plain 0 (record (new 10) { authed = true }) token desk

-- Connection 10 waits, with ticket 0, for the reply to its request 4.
abbrev hub : Hub
hub = record {
  ctx = desk;
  discovery = grimoire.Discovery.init;
  streams = (expect_reply 10 4 grimoire.Gateway.Streams.init).1;
  session_cache = λ domain sid. none;
  events = [];
}

hub-pending : hub.streams.pending 10 4 ≡ some 0
unfolding expect_reply
hub-pending = refl

hub-next_ticket : hub.streams.next_ticket ≡ 1
unfolding expect_reply
hub-next_ticket = refl

abbrev outside : Outside
outside = record {
  now = 0;
  has_dir = false;
  lobby_take = λ domain. none;
  lookup = λ domain sid. none;
  by_directory = record { now = 0; fetched = 0; registry = λ svc_name. none };
  by_ring = record { now = 0; fetched = 0; registry = λ svc_name. none };
  notice_attempts = [];
  stream_attempts = [];
  open_error = none;
}

abbrev listed : ForwardReply
listed = record { conn_id = 10; seq = 4; msg_id = room_list; code = 0; payload = 1 ∷ 2 ∷ [] }

-- A reply for another request.
abbrev unknown : ForwardReply
unknown = record listed { seq = 9 }

only_unknown : (x : ForwardReply) → Has x (unknown ∷ []) → (x.conn_id ≢ 10) ⊎ (x.seq ≢ 4)
only_unknown x (inl e) = inr (let n : x.seq ≡ 9 = ap (λ (y : ForwardReply). y.seq) e in omega arith)
only_unknown x (inr h) = elim h [ ]

finish-receive_reply_example :
    let h = record hub { streams = init } in
    let waits = (expect 10 4 h).1 in
    let replied = record waits {
      streams = receive_reply listed (receive_replies (unknown ∷ []) waits.streams);
    } in
    let end = finish_request outside 0 10 listing h.streams.next_ticket replied in
    ((expect 10 4 h).0 ≡ done h.streams.next_ticket)
    × (end.ctx ≡ record (h.ctx) {
      out =
          h.ctx.out
          ++ to_client 0
              (record { ptype = PType.response; msg_id = room_list; seq = 4; payload = 1 ∷ 2 ∷ [] })
            ∷ [];
    })
    × (end.streams.pending 10 4 ≡ none)
finish-receive_reply_example =
    finish-receive_reply outside 0 10 listing (record (new 10) { authed = true }) (unknown ∷ [])
      listed (record hub { streams = init }) only_unknown refl refl refl refl

-- The same request again, before the reply.
duplicate_loses_both_example :
    let second = hub.streams.next_ticket in
    let h1 = (expect 10 4 hub).1 in
    let h2 = finish_request outside 0 10 listing 0 h1 in
    (h1.streams.tickets 0 ≡ some dropped)
    × (h2 ≡ fail_request outside 0 10 listing (codes "bridge stream closed") h1)
    × (h2.streams.tickets second ≡ some dropped)
    × (receive_reply listed h2.streams ≡ h2.streams)
duplicate_loses_both_example =
    duplicate_loses_both outside 0 10 0 listing listed hub hub-pending
      (subst (λ n. 0 < n) (sym hub-next_ticket) (omega arith)) refl refl

-- A KCP library whose sessions are queues of messages.
abbrev take_first : List (List ℕ) → Option (List ℕ) × List (List ℕ)
take_first [] = (none, [])
take_first (m ∷ ms) = (some m, ms)

take_first-lt :
    (k k' : List (List ℕ)) (message : List ℕ)
    → take_first k ≡ (some message, k')
    → length k' < length k
take_first-lt [] k' message h = absurd (ground arith)
take_first-lt (m ∷ ms) k' message h =
    let e : ms ≡ k' = ap (λ (x : Option (List ℕ) × List (List ℕ)). x.1) h in ground arith

abbrev queues : Kcp (List (List ℕ))
queues = record {
  new = λ conv src. [];
  input = λ bytes k. k ++ bytes ∷ [];
  update = λ now k. k;
  recv = take_first;
  send = λ bytes k. (true, k);
  queued = λ k. length k;
  recv-queued = take_first-lt;
}

abbrev no_kcps : Kcps (List (List ℕ))
no_kcps = no_sessions queues

-- A first packet has come in under number 10.
abbrev one_kcp : Kcps (List (List ℕ))
one_kcp = handle_kcp_datagram queues 10 7 (codes "packet") no_kcps

abbrev kcp_driver : Driver
kcp_driver = record { conv = 10; ref = 0; src = 7 }

abbrev kcp_calls : List (Call queues)
kcp_calls =
    packet 10 7 (codes "a") ∷ has_round 5 0 ∷ ends 10 ∷ packet 10 7 (codes "b") ∷ has_round 6 0 ∷ []

run-IsDriven_example :
    (src : SocketAddr) × Has
      (record { conv = 10; ref = 1; src = src })
      (run queues kcp_calls no_kcps).drivers
unfolding handle_kcp_datagram open_session feed forget_session driver_round round is_gone run apply
run-IsDriven_example =
    run-IsDriven queues kcp_calls no_kcps (λ conv ref h. absurd (ground arith)) 10 1 refl
