-- ===== src/Gateway/Requests.antt =====
-- crates/grimoire-gateway/src/session.rs: `forward_request` with its failures, datagrams, and the
-- notices of closed connections. The number of a session's connection is read once per request.
use grimoire.Prelude.{
  ℕ, Bool, true, false, ◌==◌, if◌then◌else◌, Option, none, some, List, ◌++◌, Text, codes,
  hexadecimal, utf8,
}
use grimoire.Common.{domain_of}
use grimoire.Bridge.{ForwardRequest, ForwardReply}
use grimoire.Net.{Frame}
use grimoire.Net.Udp.{parse_peer_packet}
use grimoire.Discovery.{resolve, service_for_domain}
use grimoire.Discovery.Ring.{Slices}
use grimoire.Gateway.{Session, SocketAddr, response, send, session_of}
use grimoire.Gateway.Serving.{bind_udp, reply}
use grimoire.Gateway.Streams.{Ticket, waiting, dropped, answered, forget}
use grimoire.Gateway.Forwarding.{
  Hub, Outside, Attempt, done, failed, crash, Run, change, ◌>>=◌, ◌>>◌, player_disconnected,
  try_matchmake, invalidate_session, target_node, resolved, introduce, get_or_open, expect, submit,
  channel_to, tell,
}

abbrev pub request_of : ℕ → Frame → ForwardRequest
request_of conn_id f = record {
  conn_id = conn_id;
  seq = f.seq;
  msg_id = f.msg_id;
  payload = f.payload;
}

abbrev pub unknown_domain : ℕ → Text
unknown_domain domain = codes "unknown domain 0x" ++ hexadecimal 8 domain

abbrev named : ℕ → Option Text → Run Text
named domain none h = (failed (unknown_domain domain), h)
named domain (some svc_name) h = (done svc_name, h)

abbrev with_ticket : ℕ → Run ℕ
with_ticket t h = (done t, h)

-- Up to the wait for the reply: the ticket to wait for.
unfoldable pub start_request : Slices → Outside → ℕ → ℕ → Frame → Run ℕ
start_request sl o ref conn_id f = do
  let domain = domain_of f.msg_id
  svc_name ← named domain (service_for_domain domain)
  change (try_matchmake o domain f.msg_id conn_id)
  n ← target_node sl o domain svc_name conn_id
  introduce o ref domain conn_id n
  stream ← get_or_open o domain n
  t ← expect conn_id f.seq
  submit stream (request_of conn_id f)
  with_ticket t

-- The session that the connection is bound to goes, if it is of the request's domain.
abbrev invalidate_bound : Outside → ℕ → ℕ → Option (ℕ × ℕ) → Hub → Hub
invalidate_bound o domain conn_id none h = h
invalidate_bound o domain conn_id (some (d, sid)) h =
    if d == domain then invalidate_session o domain conn_id sid h else h

abbrev forget_request : ℕ → ℕ → Hub → Hub
forget_request conn_id seq h = record h { streams = forget conn_id seq h.streams }

abbrev respond : ℕ → ℕ → ℕ → List ℕ → Hub → Hub
respond ref msg_id seq payload h = record h { ctx = reply ref msg_id seq payload h.ctx }

unfoldable pub fail_request : Outside → ℕ → ℕ → Frame → Text → Hub → Hub
fail_request o ref conn_id f e h =
    let domain = domain_of f.msg_id in
    respond ref 0 f.seq (utf8 (codes "err:" ++ e)) (
      forget_request conn_id f.seq
        (invalidate_bound o domain conn_id (h.ctx.conn_session conn_id) h))

-- How far a request is: it waits for a ticket, it is over, or its task has panicked.
pub data Progress : Type 0 where
  waits : ℕ → Progress
  over crashed : Progress

abbrev pub progress : Outside → ℕ → ℕ → Frame → Attempt ℕ × Hub → Progress × Hub
progress o ref conn_id f (done t, h) = (waits t, h)
progress o ref conn_id f (failed e, h) = (over, fail_request o ref conn_id f e h)
progress o ref conn_id f (crash, h) = (crashed, h)

unfoldable pub forward_request : Slices → Outside → ℕ → ℕ → Frame → Hub → Progress × Hub
forward_request sl o ref conn_id f h = progress o ref conn_id f (start_request sl o ref conn_id f h)

-- The frame for the client: an error has message number 0.
unfoldable pub reply_frame : Frame → ForwardReply → Frame
reply_frame f r =
    if r.code == 0 then response r.msg_id r.seq r.payload else response 0 f.seq r.payload

abbrev sent_or_failed : Outside → ℕ → ℕ → Frame → Bool → Hub → Hub
sent_or_failed o ref conn_id f true h = h
sent_or_failed o ref conn_id f false h = fail_request o ref conn_id f (codes "session closed") h

abbrev deliver : Outside → ℕ → ℕ → Frame → ForwardReply → Hub → Hub
deliver o ref conn_id f r h =
    let (taken, c) = send ref (reply_frame f r) h.ctx in
    sent_or_failed o ref conn_id f taken (record h { ctx = c })

-- What the receiving half sees, once it has come to something or the wait has run out.
unfoldable pub finish_with : Outside → ℕ → ℕ → Frame → Option Ticket → Hub → Hub
finish_with o ref conn_id f (some (answered r)) h = deliver o ref conn_id f r h
finish_with o ref conn_id f (some dropped) h =
    fail_request o ref conn_id f (codes "bridge stream closed") h
finish_with o ref conn_id f (some waiting) h =
    fail_request o ref conn_id f (codes "timeout waiting reply") h
finish_with o ref conn_id f none h = h

unfoldable pub finish_request : Outside → ℕ → ℕ → Frame → ℕ → Hub → Hub
finish_request o ref conn_id f t h = finish_with o ref conn_id f (h.streams.tickets t) h

module _ (sl : Slices) where
  -- One way, with sequence number 0; what fails is ignored.
  unfoldable pub forward_udp : Outside → ℕ → ℕ → ℕ → List ℕ → Run (Unit {0})
  forward_udp o ref conn_id msg_id payload = do
    let domain = domain_of msg_id
    svc_name ← named domain (service_for_domain domain)
    n ← λ h. resolved svc_name (resolve sl o.by_ring domain (some conn_id) h.discovery) h
    introduce o ref domain conn_id n
    stream ← get_or_open o domain n
    submit stream (record { conn_id = conn_id; seq = 0; msg_id = msg_id; payload = payload })

  unfoldable pub datagram_to : Outside → SocketAddr → ℕ → List ℕ → Option (ℕ × Session) → Hub → Hub
  datagram_to o src msg_id payload none h = h
  datagram_to o src msg_id payload (some (ref, s)) h =
      (forward_udp o ref s.conn_id msg_id payload (record h { ctx = bind_udp ref src h.ctx })).1

  unfoldable pub handle_udp_datagram : Outside → SocketAddr → List ℕ → Hub → Hub
  handle_udp_datagram o src bytes h = elim (parse_peer_packet bytes) [
    | none ↦ h
    | some (conn_id, msg_id, payload) ↦
        datagram_to o src msg_id payload (session_of conn_id h.ctx) h
  ]

  -- The service that the ring gives for the connection is told of its end.
  unfoldable pub notify_service : Outside → ℕ → ℕ → Run (Unit {0})
  notify_service o domain conn_id = do
    svc_name ← named domain (service_for_domain domain)
    n ← λ h. resolved svc_name (resolve sl o.by_ring domain (some conn_id) h.discovery) h
    c ← channel_to n.addr o.notice_attempts
    tell (player_disconnected n.addr conn_id) c
