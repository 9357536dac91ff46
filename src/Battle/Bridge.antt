-- ===== src/Battle/Bridge.antt =====
-- crates/grimoire-battle-svc/src/main.rs: `process` and the bridge's handlers.
use grimoire.Prelude.{
  ℕ, Bool, ◌==◌, if◌then◌else◌, Option, none, some, List, [], ◌∷◌, Text, codes, Outcome, Exec, ok,
  panic, pure, ◌>>=◌,
}
use grimoire.Common.{battle_join, battle_input, battle_resync, battle_leave}
use grimoire.Bridge.{
  ForwardRequest, ForwardReply, Decoded, message, malformed, reply, error_reply, bad_payload,
  unknown_msg,
}
use grimoire.Battle.{Float32, FrameSyncPush}
use grimoire.Battle.Service.{App, BattleJoinResp, join, app_input, app_resync, leave}

-- The protobuf library's part: an input has its direction and its frame.
pub record Codec (R : Type 0) : Type 0 where
  pub join_req : List ℕ → Decoded (Unit {0})
  pub input_req : List ℕ → Decoded (R × R × ℕ)
  pub resync_req : List ℕ → Decoded ℕ
  pub join_resp : BattleJoinResp R → List ℕ
  pub input_resp : List ℕ
  pub resync_resp : List (FrameSyncPush R) → List ℕ
  pub leave_resp : List ℕ

abbrev pub not_in_battle : Text
not_in_battle = codes "未在对局中"

module _ {R : Type 0} (F : Float32 R) (codec : Codec R) where
  abbrev answer_join : ForwardRequest → List ℕ → Decoded (Unit {0}) → Exec (App R) ForwardReply
  answer_join req scan (malformed e) = pure (bad_payload req e)
  answer_join req scan (message m) = do
    resp ← join F req.conn_id scan
    pure (reply req (codec.join_resp resp))

  abbrev answer_input : ForwardRequest → Decoded (R × R × ℕ) → Exec (App R) ForwardReply
  answer_input req (malformed e) = pure (bad_payload req e)
  answer_input req (message (dx, dy, frame)) = do
    found ← app_input req.conn_id dx dy frame
    pure (reply req codec.input_resp)

  abbrev frames_reply : ForwardRequest → Option (List (FrameSyncPush R)) → ForwardReply
  frames_reply req (some frames) = reply req (codec.resync_resp frames)
  frames_reply req none = error_reply req not_in_battle

  abbrev answer_resync : ForwardRequest → Decoded ℕ → Exec (App R) ForwardReply
  answer_resync req (malformed e) = pure (bad_payload req e)
  answer_resync req (message last_frame) = do
    frames ← app_resync req.conn_id last_frame
    pure (frames_reply req frames)

  -- `scan` is the order in which the battles are iterated over. A request to leave is not decoded.
  unfoldable pub process : List ℕ → ForwardRequest → Exec (App R) ForwardReply
  process scan req =
      if req.msg_id == battle_join
      then answer_join req scan (codec.join_req req.payload)
      else if req.msg_id == battle_input
      then answer_input req (codec.input_req req.payload)
      else if req.msg_id == battle_resync
      then answer_resync req (codec.resync_req req.payload)
      else if req.msg_id == battle_leave
      then (do left ← leave req.conn_id; pure (reply req codec.leave_resp))
      else pure (unknown_msg req)

  abbrev and_then :
      Outcome ForwardReply × App R → (App R → List ForwardReply × App R) → List ForwardReply × App R
  and_then (ok r, s) next = let (rs, s') = next s in (r ∷ rs, s')
  and_then (panic, s) next = ([], s)

  -- One stream: the requests are processed in order, and a panic ends its task.
  unfoldable pub bridge_stream : List (List ℕ × ForwardRequest) → App R → List ForwardReply × App R
  bridge_stream [] s = ([], s)
  bridge_stream ((scan, req) ∷ rest) s = and_then (process scan req s) (bridge_stream rest)

module _ {R : Type 0} where
  unfoldable pub player_connected : ℕ → Exec (App R) Bool
  player_connected conn_id = pure Bool.true

  unfoldable pub player_disconnected : ℕ → Exec (App R) Bool
  player_disconnected conn_id = do left ← leave conn_id; pure Bool.true
