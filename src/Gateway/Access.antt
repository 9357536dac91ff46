-- ===== src/Gateway/Access.antt =====
-- Which requests that come in over TCP reach the services.
use grimoire.Prelude.{ℕ, ◌≡◌, ◌≢◌, ◌⊎◌, arith, true, some, List, length, Text}
use grimoire.Common.{sys_resume, sys_bind_session, sys_auth}
use grimoire.Net.{Frame, PType}
use grimoire.Gateway.{Session, Ctx, send}
use grimoire.Gateway.Serving.{forward, receive, handle_request, handle_auth, token_ok}

module _ (from_utf8_lossy : List ℕ → Text) where
  -- Of the frames that come in over TCP, what is passed on to a service is the client's frame itself, a
  -- request for no system message, and only where no secret is set or the session has authenticated.
  -- Nothing changes thereby. Datagrams, over UDP or KCP, do not come this way.
  pub receive-forward :
      (ref conn_id : ℕ) (s : Session) (f g : Frame) (c : Ctx)
      → (receive from_utf8_lossy ref conn_id s f c).0 ≡ forward g
      → (g ≡ f)
        × (f.ptype ≡ PType.request)
        × (f.msg_id ≢ sys_resume)
        × (f.msg_id ≢ sys_bind_session)
        × (f.msg_id ≢ sys_auth)
        × ((length c.auth_secret ≡ 0) ⊎ (s.authed ≡ true))
        × ((receive from_utf8_lossy ref conn_id s f c).1 ≡ c)
  unfolding receive handle_request
  receive-forward ref conn_id s f g c h = ground arith

  -- After a request to authenticate, the session's flag says whether the token was right: a wrong one
  -- takes back an earlier success.
  pub handle_auth-authed :
      (ref : ℕ) (s : Session) (f : Frame) (c : Ctx)
      → (handle_auth from_utf8_lossy ref s f c).store ref
        ≡ some (record s { authed = token_ok from_utf8_lossy f.payload c.auth_secret })
  unfolding handle_auth send
  handle_auth-authed ref s f c = ground arith
