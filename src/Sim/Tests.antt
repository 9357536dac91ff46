-- ===== src/Sim/Tests.antt =====
-- Runs of the client at concrete states, and against the gateway.
use grimoire.Prelude.{
  ℕ, ◌≡◌, refl, sym, subst, arith, true, some, List, [], ◌∷◌, ◌++◌, Text, codes, insert, empty, inl,
  inr, Has,
}
use grimoire.Common.{sys_resume}
use grimoire.Net.{Frame, PType}
use grimoire.Gateway.{Ctx, Effect, new, response, to_client, push_msg, send_kcp}
use grimoire.Gateway.Serving
use grimoire.Sim.Client.{
  connected, request_frame, start_request, finish_request, checked, finish_resume, resume_payload,
  receive,
}
use grimoire.Sim.Client.Datagrams.{got, push_msg-got}
use grimoire.Sim.Client.Responses.{
  Event, arrives, asks, run, LeavesOpen, IsNumbered, request-receive,
}
use grimoire.Sim.Agreement.{resume-receive}

connected-IsNumbered : IsNumbered connected
connected-IsNumbered = record { below = λ k t h. absurd (ground arith); small = omega arith }

-- A heartbeat and the response to request 2 come in meanwhile, and request 2 starts.
abbrev heartbeat_back : Frame
heartbeat_back = record { ptype = PType.heartbeat; msg_id = 0; seq = 1; payload = [] }

abbrev meanwhile : List Event
meanwhile = arrives heartbeat_back ∷ asks 1001 [] ∷ arrives (response 1001 2 []) ∷ []

meanwhile-LeavesOpen : (e : Event) → Has e meanwhile → LeavesOpen 1 e
meanwhile-LeavesOpen e (inl h) = subst (LeavesOpen 1) (sym h) (λ x. cc, λ x. absurd (cc))
meanwhile-LeavesOpen e (inr (inl h)) = subst (LeavesOpen 1) (sym h) tt
meanwhile-LeavesOpen e (inr (inr (inl h))) =
    subst (LeavesOpen 1) (sym h) (λ x. cc, λ x. omega arith)
meanwhile-LeavesOpen e (inr (inr (inr h))) = elim h [ ]

request-receive_example :
    let (t, d) = start_request 1000 (codes "hello") connected in
    finish_request t (receive (response 1000 1 (codes "done")) (run meanwhile d)).1
    ≡ checked (response 1000 1 (codes "done"))
request-receive_example =
    request-receive 1000 (codes "hello") connected meanwhile (response 1000 1 (codes "done"))
      connected-IsNumbered refl (omega arith) meanwhile-LeavesOpen refl refl

abbrev plain : List ℕ → Text
plain bytes = bytes

-- Two connections, of which the second is this client's.
abbrev desk : Ctx
desk = record {
  sessions = insert 10 0 (insert 11 1 empty);
  store = insert 0 (record (new 10) { authed = true }) (insert 1 (new 11) empty);
  next_ref = 2;
  next_conn_id = 12;
  gateway_id = 0;
  kcp_sessions = insert 11 true empty;
  udp_open = true;
  conn_session = empty;
  auth_secret = codes "secret";
  out = [];
}

resume-receive_example :
    let f = request_frame 1 sys_resume (resume_payload 10) in
    let (t, d) = start_request sys_resume (resume_payload 10) connected in
    let g' = (Serving.receive plain 1 11 (new 11) f desk).1 in
    (d.sent ≡ f ∷ [])
    × ((before : List Effect) × (r : Frame) × (g'.out ≡ before ++ to_client 1 r ∷ [])
        × (let c' = (receive r (run meanwhile d)).1 in
            let (resumed, c'') = finish_resume (finish_request t c') c' in
            (resumed ≡ true) × (c''.conn_id ≡ 10)))
    × (g'.sessions 10 ≡ some 1)
resume-receive_example =
    resume-receive plain 1 0 11 10 (new 11) desk connected meanwhile refl refl refl (omega arith)
      (omega arith) (omega arith) connected-IsNumbered refl (omega arith) meanwhile-LeavesOpen

push_msg-got_example :
    (e : Effect) × ((push_msg 1 (new 11) 1200 (codes "tick") true desk).1.out ≡ e ∷ [])
    × (got e ≡ some (1200, 0, codes "tick"))
unfolding push_msg send_kcp
push_msg-got_example =
    push_msg-got 1 1200 (new 11) (codes "tick") true desk (omega arith) (omega arith) (omega arith)
      (inl (omega arith)) refl
