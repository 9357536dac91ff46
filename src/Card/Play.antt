-- ===== src/Card/Play.antt =====
-- crates/grimoire-card-svc/src/main.rs: the moves of a player (`play`, `end_turn`), the state query
-- and `leave`.
use grimoire.Prelude.{
  ℕ, ◌+◌, ◌-◌, ◌%◌, ◌^◌, Bool, true, false, not, ◌||◌, ltb, ◌==◌, if◌then◌else◌, Option, none, some,
  List, [], ◌∷◌, map, length, get_elem?, remove_at, modify_at, Text, position, remove, ok, panic,
  pure, abort, unwrap, modify, ◌>>=◌, ◌>>◌,
}
use mathlib.Core.Option
use grimoire.Common.{domain_card}
use grimoire.Card.{
  CardDef, CardGame, GamePlayer, CardGameState, phase_playing, phase_finished, player_idx_of,
  check_finish, view_for,
}
use grimoire.Card.Service.{
  Handler, dir_remove, record_game, emit, set_game, push_snapshot, bound_game,
}

-- The texts that a move answers; `damage` has the card's name and power.
pub data Detail : Type 0 where
  not_in_game game_over not_your_turn bad_hand_index no_opponent : Detail
  damage : Text → ℕ → Detail

pub record CardPlayResp : Type 0 where
  pub ok : Bool
  pub detail : Detail
  pub state : Option CardGameState

-- A move is refused, panics, or gives the new game and the card that was played.
pub data Played : Type 0 where
  refused : Detail → Played
  panicked : Played
  played : CardGame → CardDef → Played

-- `filter(|t| *t != idx).unwrap_or(other)`
abbrev allowed : ℕ → Option ℕ → ℕ → ℕ
allowed idx none other = other
allowed idx (some t) other = if t == idx then other else t

-- The index of the victim: the named target, if it is another player of the game, else the first
-- other player; `none` where `unwrap` panics.
unfoldable pub victim_of : CardGame → ℕ → GamePlayer → ℕ → Option ℕ
victim_of g idx me target =
    Option.map (λ other. if target == 0 then other else allowed idx (player_idx_of g target) other)
      (position (λ p. not (p.player_id == me.player_id)) g.players)

-- Card `c` of player `idx` hits player `victim`.
unfoldable pub hit : CardGame → ℕ → ℕ → ℕ → CardDef → CardGame
hit g idx hand_index victim c = record g {
  players =
      modify_at
        (modify_at (modify_at g.players idx (λ p. record p { hand = remove_at p.hand hand_index }))
          victim (λ p. record p { hp = p.hp - c.power }))
        idx (λ p. record p { score = (p.score + c.power) % 2 ^ 32 });
}

-- The turn goes to the victim unless the game is over.
unfoldable pub next_turn : CardGame → ℕ → CardGame
next_turn g victim = if g.phase == phase_playing then record g { turn = victim } else g

abbrev pub strike : CardGame → ℕ → ℕ → CardDef → Option ℕ → Played
strike g idx hand_index c none = panicked
strike g idx hand_index c (some victim) =
    played (next_turn (check_finish (hit g idx hand_index victim c)) victim) c

unfoldable pub play_card : CardGame → ℕ → ℕ → ℕ → Option GamePlayer → Played
play_card g idx hand_index target none = panicked
play_card g idx hand_index target (some me) = elim (get_elem? me.hand hand_index) [
  | none ↦ refused bad_hand_index
  | some c ↦
      if ltb 1 (length g.players)
      then strike g idx hand_index c (victim_of g idx me target)
      else refused no_opponent
]

-- What `play` does to a game under its lock.
unfoldable pub play_game : CardGame → ℕ → ℕ → ℕ → Played
unfolding play_card
play_game g idx hand_index target =
    if not (g.phase == phase_playing)
    then refused game_over
    else if not (g.turn == idx)
    then refused not_your_turn
    else play_card g idx hand_index target (get_elem? g.players idx)

abbrev pub refusal : Detail → CardPlayResp
refusal d = record { ok = false; detail = d; state = none }

unfoldable pub persist_result : ℕ → ℕ → Handler (Unit {0})
persist_result gid winner s =
    if s.has_store
    then elim (s.games gid) [
      | none ↦ (ok tt, s)
      | some g ↦ emit (record_game (map (λ p. p.player_id) g.players) winner ∷ []) s
    ]
    else (ok tt, s)

-- What follows a played card once the game's lock is released.
unfoldable pub report : ℕ → CardGame → CardDef → CardGameState → Handler CardPlayResp
unfolding persist_result push_snapshot
report gid g c view = do
  if not (g.phase == phase_playing) then persist_result gid g.winner else pure tt
  push_snapshot gid
  pure (record { ok = true; detail = damage c.name c.power; state = some view })

unfoldable pub settle : ℕ → ℕ → Played → Handler CardPlayResp
unfolding report
settle gid idx (refused d) = pure (refusal d)
settle gid idx panicked = abort
settle gid idx (played g c) = do set_game gid g; view ← unwrap (view_for g idx); report gid g c view

unfoldable pub play : ℕ → ℕ → ℕ → Handler CardPlayResp
unfolding settle play_game
play conn_id hand_index target s = elim (s.conn_game conn_id) [
  | none ↦ (ok (refusal not_in_game), s)
  | some (gid, idx) ↦ elim (s.games gid) [
    | none ↦ (panic, s)
    | some g ↦ settle gid idx (play_game g idx hand_index target) s
  ]
]

pub record CardEndTurnResp : Type 0 where
  pub ok : Bool
  pub state : Option CardGameState

-- The turn goes to the next player of the list.
abbrev pub passed : ℕ → CardGame → CardGame
passed idx g = record g { turn = (idx + 1) % length g.players }

unfoldable pub pass_turn : ℕ → ℕ → CardGame → Handler CardEndTurnResp
unfolding push_snapshot
pass_turn gid idx g =
    if not (g.phase == phase_playing) || not (g.turn == idx)
    then pure (record { ok = false; state = none })
    else do
      let g' = passed idx g
      set_game gid g'
      view ← unwrap (view_for g' idx)
      push_snapshot gid
      pure (record { ok = true; state = some view })

unfoldable pub end_turn : ℕ → Handler CardEndTurnResp
unfolding pass_turn
end_turn conn_id s = elim (s.conn_game conn_id) [
  | none ↦ (ok (record { ok = false; state = none }), s)
  | some (gid, idx) ↦ elim (s.games gid) [ none ↦ (panic, s) | some g ↦ pass_turn gid idx g s ]
]

-- `state`: the view of the connection's game, if there is one.
unfoldable pub state : ℕ → Handler (Option CardGameState)
unfolding bound_game
state conn_id s = elim (bound_game s conn_id) [
  | none ↦ (ok none, s)
  | some (g, idx) ↦ (do view ← unwrap (view_for g idx); pure (some view)) s
]

-- The first player left wins.
abbrev pub first_id : List GamePlayer → ℕ → ℕ
first_id [] winner = winner
first_id (p ∷ ps) winner = p.player_id

abbrev close_game : ℕ → Handler (Unit {0})
close_game gid s = if s.has_dir then emit (dir_remove domain_card gid ∷ []) s else (ok tt, s)

unfoldable pub after_leave : ℕ → CardGame → Handler (Unit {0})
unfolding push_snapshot
after_leave gid g s =
    if length g.players == 0
    then (modify (λ s. record s { games = remove gid s.games }) >> close_game gid) s
    else if g.phase == phase_playing
    then (set_game gid (record g { phase = phase_finished; winner = first_id g.players g.winner })
          >> push_snapshot gid)
        s
    else set_game gid g s

-- `Vec::remove` panics on an index out of range.
unfoldable pub leave_game : ℕ → ℕ → CardGame → Handler (Unit {0})
unfolding after_leave
leave_game gid idx g s =
    if ltb idx (length g.players)
    then after_leave gid (record g { players = remove_at g.players idx }) s
    else (panic, s)

unfoldable pub leave : ℕ → Handler (Unit {0})
unfolding leave_game
leave conn_id s = elim (s.conn_game conn_id) [
  | none ↦ (ok tt, s)
  | some (gid, idx) ↦ elim (s.games gid) [
    | none ↦ (ok tt, record s { conn_game = remove conn_id s.conn_game })
    | some g ↦ leave_game gid idx g (record s { conn_game = remove conn_id s.conn_game })
  ]
]
