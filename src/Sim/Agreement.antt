-- ===== src/Sim/Agreement.antt =====
-- What a client and the gateway agree on after a request that the gateway answers itself.
use grimoire.Prelude.{
  ℕ, ◌^◌, ◌<◌, ◌≡◌, ◌≢◌, refl, ap, ◌∙◌, arith, Bool, true, some, List, [], ◌∷◌, ◌++◌, length, Has,
}
use grimoire.Common.{sys_resume}
use grimoire.Net.{Frame}
use grimoire.Net.Word.{u32_be, from_be-u32, u32_mod}
use grimoire.Gateway.{Session, Ctx, Effect, to_client, rebind, response}
use grimoire.Gateway.Serving
use grimoire.Gateway.Serving.{
  handle_resume, handle_request, handle_bind_session, migrate, payload_u32,
}
use grimoire.Gateway.Migration.{migrate_lem, handled, resumed, resume_request, receive_resume}
use grimoire.Gateway.Replies.{send_open}
use grimoire.Sim.Client.{
  Client, request_frame, start_request, finish_request, checked, finish_resume, resume_payload,
  receive, expect_response, send,
}
use grimoire.Sim.Client.Responses.{IsNumbered, Event, LeavesOpen, run, request-receive}

finished_resume :
    (old seq : ℕ) (c : Client)
    → old < u32_mod
    → let (resumed, c') = finish_resume (checked (response sys_resume seq (u32_be old []))) c in
      (resumed ≡ true) × (c'.conn_id ≡ old)
unfolding finish_resume checked
finished_resume old seq c small = (refl, from_be-u32 old small)

start_request-sent :
    (msg_id : ℕ) (payload : List ℕ) (c : Client)
    → c.writable ≡ true
    → (start_request msg_id payload c).1.sent ≡ c.sent ++ request_frame c.seq msg_id payload ∷ []
unfolding start_request expect_response send
start_request-sent msg_id payload c h = ground arith

module _ (from_utf8_lossy : List ℕ → List ℕ) where
  -- The gateway's answer to a request to resume.
  receive_resume-out :
      (ref old_ref conn_id old seq : ℕ) (s : Session) (g : Ctx)
      → g.store ref ≡ some s
      → s.writable ≡ true
      → g.sessions old ≡ some old_ref
      → conn_id ≢ old
      → old < u32_mod
      → (before : List Effect) × ((Serving.receive from_utf8_lossy ref conn_id s
            (resume_request seq old)
            g).1.out
          ≡ before ++ to_client ref (response sys_resume seq (u32_be old [])) ∷ [])
  unfolding Serving.receive handle_request
  receive_resume-out ref old_ref conn_id old seq s g there open_still e ne small =
      let f = resume_request seq old in
      let m = migrate ref old_ref conn_id old g in
      let (a, b, moved) = migrate_lem ref old_ref conn_id old s g there ne in
      (
        m.out,
        ap (λ (x : Ctx). x.out)
              (handled ref conn_id old seq g small ∙ resumed ref old_ref conn_id old f g e ne)
            ∙ ap (λ (x : Bool × Ctx). x.1.out)
                (send_open ref (rebind old s) (response sys_resume seq (u32_be old [])) m moved
                  open_still),
      )

  -- A client that resumes and the gateway come to the same number. The request goes out; where the
  -- old connection's session is in the table, the gateway answers with a frame that, however many
  -- other frames the client gets before it, and requests it starts, makes `resume` succeed: the
  -- client's number is the old one, under which the gateway's table has this connection.
  pub resume-receive :
      (ref old_ref conn_id old : ℕ) (s : Session) (g : Ctx) (c : Client) (es : List Event)
      → g.store ref ≡ some s
      → s.writable ≡ true
      → g.sessions old ≡ some old_ref
      → conn_id ≢ old
      → ref ≢ old_ref
      → old < u32_mod
      → IsNumbered c
      → c.writable ≡ true
      → length es < 2 ^ 32
      → ((e : Event) → Has e es → LeavesOpen c.seq e)
      → let f = request_frame c.seq sys_resume (resume_payload old) in
        let (t, d) = start_request sys_resume (resume_payload old) c in
        let g' = (Serving.receive from_utf8_lossy ref conn_id s f g).1 in
        (d.sent ≡ c.sent ++ f ∷ [])
        × ((before : List Effect) × (r : Frame) × (g'.out ≡ before ++ to_client ref r ∷ [])
            × (let c' = (receive r (run es d)).1 in
                let (resumed, c'') = finish_resume (finish_request t c') c' in
                (resumed ≡ true) × (c''.conn_id ≡ old)))
        × (g'.sessions old ≡ some ref)
  resume-receive ref old_ref conn_id old s g c es there open_still e ne differ small v writes few
        all =
      let r = response sys_resume c.seq (u32_be old []) in
      let (t, d) = start_request sys_resume (resume_payload old) c in
      let c' = (receive r (run es d)).1 in
      let (before, out) =
        receive_resume-out ref old_ref conn_id old c.seq s g there open_still e ne small in
      let answer =
        request-receive sys_resume (resume_payload old) c es r v writes few all refl refl in
      let (x, y) = finished_resume old c.seq c' small in
      (
        start_request-sent sys_resume (resume_payload old) c writes,
        (
          before,
          r,
          out,
          (
            ap (λ k. (finish_resume k c').0) answer ∙ x,
            ap (λ k. (finish_resume k c').1.conn_id) answer ∙ y,
          ),
        ),
        (receive_resume from_utf8_lossy ref old_ref conn_id old c.seq s g there e ne differ
            small).0,
      )
