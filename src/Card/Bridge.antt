-- ===== src/Card/Bridge.antt =====
-- crates/grimoire-card-svc/src/main.rs: `process` and the bridge's handlers.
use grimoire.Prelude.{
  ℕ, Bool, ◌==◌, if◌then◌else◌, Option, List, [], ◌∷◌, ok, panic, pure, ◌>>=◌, ◌>>◌, Outcome,
}
use grimoire.Common.{card_start, card_play, card_end_turn, card_state}
use grimoire.Bridge.{
  ForwardRequest, ForwardReply, Decoded, message, malformed, reply, bad_payload, unknown_msg,
}
use grimoire.Card.{CardDef, CardGameState}
use grimoire.Card.Service.{App, Handler, start}
use grimoire.Card.Play.{CardPlayResp, CardEndTurnResp, play, end_turn, state, leave}

-- The protobuf library's part: a play request has the hand index and the target.
pub record Codec : Type 0 where
  pub start_req : List ℕ → Decoded (Unit {0})
  pub play_req : List ℕ → Decoded (ℕ × ℕ)
  pub end_turn_req : List ℕ → Decoded (Unit {0})
  pub state_req : List ℕ → Decoded (Unit {0})
  pub start_resp : CardGameState → List ℕ
  pub play_resp : CardPlayResp → List ℕ
  pub end_turn_resp : CardEndTurnResp → List ℕ
  pub state_resp : Option CardGameState → List ℕ

-- Runs a handler on a decoded payload and encodes what it answers.
abbrev pub answer {ℓ} :
    {M : Type ℓ} {A : Type 0}
    → ForwardRequest
    → Decoded M
    → (M → Handler A)
    → (A → List ℕ)
    → Handler ForwardReply
answer req (malformed e) run encode = pure (bad_payload req e)
answer req (message m) run encode = do a ← run m; pure (reply req (encode a))

abbrev and_then :
    Outcome ForwardReply × App → (App → List ForwardReply × App) → List ForwardReply × App
and_then (ok r, s) next = let (rs, s') = next s in (r ∷ rs, s')
and_then (panic, s) next = ([], s)

module _ (codec : Codec) where
  -- `scan` is the order in which the games are iterated over, `shuffled` a shuffled deck.
  unfoldable pub process : List ℕ → List CardDef → ForwardRequest → Handler ForwardReply
  process scan shuffled req =
      if req.msg_id == card_start
      then answer req (codec.start_req req.payload) (λ _. start req.conn_id scan shuffled)
          codec.start_resp
      else if req.msg_id == card_play
      then answer req (codec.play_req req.payload) (λ (i, t). play req.conn_id i t) codec.play_resp
      else if req.msg_id == card_end_turn
      then answer req (codec.end_turn_req req.payload) (λ _. end_turn req.conn_id)
          codec.end_turn_resp
      else if req.msg_id == card_state
      then answer req (codec.state_req req.payload) (λ _. state req.conn_id) codec.state_resp
      else pure (unknown_msg req)

  -- One stream: the requests are processed in order, and a panic ends its task. The replies that
  -- were sent stay sent.
  unfoldable pub bridge_stream :
      List (List ℕ × List CardDef × ForwardRequest) → App → List ForwardReply × App
  bridge_stream [] s = ([], s)
  bridge_stream ((scan, shuffled, req) ∷ rest) s =
      and_then (process scan shuffled req s) (bridge_stream rest)

-- `EventReply { ok: true }` in both cases.
unfoldable pub player_connected : ℕ → Handler Bool
player_connected conn_id = pure Bool.true

unfoldable pub player_disconnected : ℕ → Handler Bool
player_disconnected conn_id = do leave conn_id; pure Bool.true
