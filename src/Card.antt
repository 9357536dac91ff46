-- ===== src/Card.antt =====
-- crates/grimoire-card-svc/src/main.rs: the card game. This file has the game itself; the service
-- around it is in Service, and what goes over the bridge in Bridge. A view that indexes a player
-- out of range panics: such a function returns `none`.
pub mod Service
pub mod Play
pub mod Bridge
pub mod Duel
pub mod Stalemate
pub mod Views
pub mod Validity
pub mod Moves
pub mod Entry
pub mod Leaving
pub mod Race
mod Tests
use grimoire.Prelude.{
  ℕ, zero, suc, ◌+◌, ◌-◌, ◌%◌, ◌^◌, Bool, true, false, not, ltb, leb, ◌==◌, if◌then◌else◌, Option,
  none, some, List, [], ◌∷◌, ◌++◌, length, get_elem?, take, Text, codes, decimal, position, find,
  or_else,
}
use mathlib.Core.Option

abbrev pub game_capacity : ℕ
game_capacity = 2

abbrev pub init_hp : ℕ
init_hp = 20

abbrev pub hand_size : ℕ
hand_size = 3

abbrev pub phase_playing : ℕ
phase_playing = 0

abbrev pub phase_finished : ℕ
phase_finished = 1

pub record CardDef : Type 0 where
  pub id : ℕ
  pub name : Text
  pub power : ℕ

abbrev card : ℕ → Text → ℕ → CardDef
card i n p = record { id = i; name = n; power = p }

unfoldable pub deck : List CardDef
deck =
    card 1 (codes "火球") 8
    ∷ card 2 (codes "冰锥") 6
    ∷ card 3 (codes "闪电") 9
    ∷ card 4 (codes "暗刃") 5
    ∷ card 5 (codes "盾击") 4
    ∷ card 6 (codes "毒液") 7
    ∷ []

-- The argument is the deck as the random shuffle left it.
abbrev pub deal_hand : List CardDef → List CardDef
deal_hand shuffled = take hand_size shuffled

pub record GamePlayer : Type 0 where
  pub player_id : ℕ
  pub name : Text
  pub hp : ℕ
  pub score : ℕ
  pub hand : List CardDef
  pub conn_id : ℕ

pub record CardGame : Type 0 where
  pub id : ℕ
  pub phase : ℕ
  pub turn : ℕ
  pub winner : ℕ
  pub players : List GamePlayer

-- `format!("玩家{}", player_id)`; a 32-bit number has at most ten digits.
pub player_name : ℕ → Text
player_name player_id = codes "玩家" ++ decimal 10 player_id

abbrev pub new_player : ℕ → ℕ → List CardDef → GamePlayer
new_player conn_id player_id shuffled = record {
  player_id = player_id;
  name = player_name player_id;
  hp = init_hp;
  score = 0;
  hand = deal_hand shuffled;
  conn_id = conn_id;
}

abbrev pub new : ℕ → ℕ → ℕ → List CardDef → CardGame
new id conn_id player_id shuffled = record {
  id = id;
  phase = phase_playing;
  turn = 0;
  winner = 0;
  players = new_player conn_id player_id shuffled ∷ [];
}

unfoldable pub add_player : ℕ → ℕ → List CardDef → CardGame → CardGame
add_player conn_id player_id shuffled g = record g {
  players = g.players ++ new_player conn_id player_id shuffled ∷ [];
}

abbrev pub is_full : CardGame → Bool
is_full g = leb game_capacity (length g.players)

unfoldable pub player_idx_of : CardGame → ℕ → Option ℕ
player_idx_of g player_id = position (λ p. p.player_id == player_id) g.players

-- The opponent of the player that was found without hit points.
abbrev pub winner_over : CardGame → GamePlayer → ℕ
winner_over g p =
    or_else (Option.map (λ o. o.player_id) (find (λ o. not (o.player_id == p.player_id)) g.players))
      0

unfoldable pub check_finish : CardGame → CardGame
check_finish g = elim (find (λ p. p.hp == 0) g.players) [
  | none ↦ g
  | some p ↦ record g { phase = phase_finished; winner = winner_over g p }
]

pub record CardPlayerView : Type 0 where
  pub player_id : ℕ
  pub name : Text
  pub hp : ℕ
  pub score : ℕ
  pub hand : List CardDef
  pub hand_count : ℕ

pub record CardGameState : Type 0 where
  pub game_id : ℕ
  pub turn_player : ℕ
  pub phase : ℕ
  pub winner : ℕ
  pub players : List CardPlayerView

unfoldable pub player_view : Bool → GamePlayer → CardPlayerView
player_view mine p = record {
  player_id = p.player_id;
  name = p.name;
  hp = p.hp;
  score = p.score;
  hand = if mine then p.hand else [];
  hand_count = length p.hand % 2 ^ 32;
}

-- The players from index `i` on, as the recipient sees them.
unfoldable pub player_views : ℕ → ℕ → List GamePlayer → List CardPlayerView
player_views recipient i [] = []
player_views recipient i (p ∷ ps) =
    player_view (i == recipient) p ∷ player_views recipient (i + 1) ps

unfoldable pub view_for : CardGame → ℕ → Option CardGameState
view_for g recipient = elim (get_elem? g.players g.turn) [
  | none ↦ none
  | some current ↦ some (record {
    game_id = g.id;
    turn_player = current.player_id;
    phase = g.phase;
    winner = g.winner;
    players = player_views recipient 0 g.players;
  })
]
