-- ===== src/Card/Tests.antt =====
-- Runs of the card service at concrete states.
use grimoire.Prelude.{
  List, ◌∷◌, codes, ℕ, ◌≡◌, refl, arith, inl, true, false, some, [], insert, empty, ok, panic,
  position, any,
}
use grimoire.Card.Stalemate.{Move, plays, passes, all_after, total, stalemate}
use grimoire.Card.{
  new, new_player, CardDef, CardGame, GamePlayer, phase_playing, phase_finished, deck, view_for,
  player_view, player_views, player_idx_of,
}
use grimoire.Card.Service.{
  App, init, start, enter, target_game, take_seat, seat, opened, announce, find_waiting, bound_game,
}
use grimoire.Card.Play.{played, play_game, play, end_turn, state, leave}
use grimoire.Card.Duel.{duel, struck, play_game-duel}
use grimoire.Card.Views.{view_for-SeenAlike}
use grimoire.Card.Validity.{IsValid, init-IsValid}
use grimoire.Card.Moves.{Answers, play-Answers, end_turn-Answers, state-Answers}
use grimoire.Card.Entry.{start-Answers}
use grimoire.Card.Leaving.{IsDuel, leave_second, leave_panics}
use grimoire.Card.Race.{race_shares_seat}

abbrev fireball : CardDef
fireball = record { id = 1; name = []; power = 8 }

abbrev frost : CardDef
frost = record { id = 2; name = []; power = 6 }

abbrev ann : GamePlayer
ann = record { player_id = 1; name = []; hp = 20; score = 0; hand = fireball ∷ []; conn_id = 100 }

abbrev bob : GamePlayer
bob = record { player_id = 2; name = []; hp = 7; score = 3; hand = frost ∷ []; conn_id = 200 }

abbrev match : CardGame
match = record { id = 1; phase = phase_playing; turn = 0; winner = 0; players = ann ∷ bob ∷ [] }

abbrev table : ℕ → App
table turn = record {
  games = insert 1 (record match { turn = turn }) empty;
  conn_game = insert 100 (1, 0) (insert 200 (1, 1) empty);
  next_player = 3;
  next_game = 2;
  has_store = true;
  has_dir = true;
  node_id = [];
  out = [];
}

table-IsValid : IsValid (table 0)
table-IsValid = record {
  games_ok = λ k g e. ground arith;
  games_below = λ k g e. ground arith;
  ids_below = λ k g e. ground arith;
  bound = λ c k i e. (match, ground arith, ground arith);
}

table-IsDuel : (turn : ℕ) → IsDuel (table turn) 1 (record match { turn = turn }) ann bob 100 200
table-IsDuel turn = record { there = refl; first = refl; second = refl; differ = omega arith }

play_game-duel_example :
    play_game (duel match 0 ann bob) 0 0 9 ≡ played (struck match 0 ann bob 0 fireball) fireball
play_game-duel_example =
    play_game-duel match 0 ann bob 0 9 fireball (omega arith) (omega arith) (omega arith)
      (omega arith) refl

view_for-SeenAlike_example :
    view_for (record match { players = ann ∷ bob ∷ [] }) 0
    ≡ view_for (record match { players = ann ∷ record bob { hand = fireball ∷ [] } ∷ [] }) 0
view_for-SeenAlike_example =
    view_for-SeenAlike match 0 (ann ∷ bob ∷ []) (ann ∷ record bob { hand = fireball ∷ [] } ∷ [])
      (refl, refl, refl, refl, refl, refl, (refl, refl, refl, refl, refl, refl, tt))

init-IsValid_example : IsValid (init true false [])
init-IsValid_example = init-IsValid true false []

play-Answers_example : Answers (play 100 0 2 (table 0))
play-Answers_example = play-Answers (table 0) 100 0 2 table-IsValid

end_turn-Answers_example : Answers (end_turn 100 (table 0))
end_turn-Answers_example = end_turn-Answers (table 0) 100 table-IsValid

state-Answers_example : Answers (state 200 (table 0)) × ((state 200 (table 0)).1 ≡ table 0)
state-Answers_example = state-Answers (table 0) 200 table-IsValid

start-Answers_example : Answers (start 300 (1 ∷ []) (fireball ∷ frost ∷ []) (table 0))
start-Answers_example =
    start-Answers (table 0) 300 (1 ∷ []) (fireball ∷ frost ∷ []) table-IsValid (omega arith)
      (omega arith)

leave_second_example :
    ((leave 200 (table 0)).0 ≡ ok tt)
    × ((leave 200 (table 0)).1.games 1
        ≡ some (record match { phase = phase_finished; winner = 1; players = ann ∷ [] }))
leave_second_example = leave_second (table 0) 1 match ann bob 100 200 (table-IsDuel 0) refl

leave_panics_example :
    ((leave 100 (table 1)).0 ≡ panic)
    × ((leave 100 (table 1)).1.out ≡ (table 1).out)
    × ((leave 100 (table 1)).1.games 1
        ≡ some (record match { turn = 1; phase = phase_finished; winner = 2; players = bob ∷ [] }))
leave_panics_example =
    leave_panics (table 1) 1 (record match { turn = 1 }) ann bob bob 100 200 100 (table-IsDuel 1)
      (inl (refl, refl)) refl

abbrev waiting_room : App
waiting_room = record (table 0) { games = insert 1 (record match { players = ann ∷ [] }) empty }

race_shares_seat_example :
    let t = (enter 300 (some 1) (frost ∷ []) waiting_room).1 in
    let r = enter 400 (some 1) (frost ∷ []) t in
    (t.conn_game 300 ≡ some (1, 1)) × (r.1.conn_game 400 ≡ some (1, 0)) × (r.1.games 1 ≡ t.games 1)
race_shares_seat_example =
    race_shares_seat waiting_room 1 300 400 match ann (frost ∷ []) (frost ∷ []) refl (omega arith)

-- Two players start on an empty service; the first draws the deck as it is.
first_start : (start 100 [] deck (init false false [])).1.conn_game 100 ≡ some (1, 0)
unfolding start enter target_game take_seat seat opened announce find_waiting bound_game
    player_idx_of position any view_for player_views player_view
first_start = refl

-- Hands of the deck that cannot end a game.
abbrev weak_hand : List CardDef
weak_hand =
    record { id = 2; name = codes "冰锥"; power = 6 }
    ∷ record { id = 4; name = codes "暗刃"; power = 5 }
    ∷ record { id = 5; name = codes "盾击"; power = 4 }
    ∷ []

abbrev slow_moves : List Move
slow_moves =
    plays 0 0 8
    ∷ plays 1 0 7
    ∷ plays 1 0 7
    ∷ passes 0
    ∷ plays 1 1 7
    ∷ plays 0 0 0
    ∷ passes 1
    ∷ plays 0 0 8
    ∷ []

stalemate_example :
    let g' =
      all_after slow_moves (
        duel (new 1 100 7 weak_hand) 0 (new_player 100 7 weak_hand) (new_player 200 8 weak_hand)) in
    (g'.phase ≡ phase_playing) × (g'.winner ≡ 0)
unfolding total
stalemate_example =
    stalemate (new 1 100 7 weak_hand) 0 (new_player 100 7 weak_hand) (new_player 200 8 weak_hand)
      slow_moves (omega arith) (omega arith) (omega arith) (omega arith)
