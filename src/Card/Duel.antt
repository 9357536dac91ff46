-- ===== src/Card/Duel.antt =====
-- The rules of a move in a game of two, against `play_game`.
use grimoire.Prelude.{
  ℕ, zero, suc, ◌+◌, ◌-◌, ◌%◌, ◌^◌, ◌<◌, ◌≡◌, ◌≢◌, arith, leb, if◌then◌else◌, some, List, [], ◌∷◌,
  get_elem?, remove_at, modify_at, position, find,
}
use grimoire.Card.{
  CardDef, CardGame, GamePlayer, phase_playing, phase_finished, player_idx_of, check_finish,
}
use grimoire.Card.Play.{played, hit, next_turn, victim_of, play_game}

-- Two players in the order of their seats: `a` sits at `idx`.
abbrev pub seats : ℕ → GamePlayer → GamePlayer → List GamePlayer
seats zero a b = a ∷ b ∷ []
seats (suc i) a b = b ∷ a ∷ []

abbrev pub duel : CardGame → ℕ → GamePlayer → GamePlayer → CardGame
duel g idx me foe = record g { phase = phase_playing; turn = idx; players = seats idx me foe }

-- The game after card `c` from place `i` of the hand of `me`.
abbrev pub struck : CardGame → ℕ → GamePlayer → GamePlayer → ℕ → CardDef → CardGame
struck g idx me foe i c = record g {
  phase = if leb foe.hp c.power then phase_finished else phase_playing;
  turn = if leb foe.hp c.power then idx else 1 - idx;
  winner = if leb foe.hp c.power then me.player_id else g.winner;
  players =
      seats idx (record me { hand = remove_at me.hand i; score = (me.score + c.power) % 2 ^ 32 })
        (record foe { hp = foe.hp - c.power });
}

-- In a game of two living players with different numbers, the player whose turn it is plays a card
-- of the hand: whatever target is named, the opponent loses the card's power in hit points, down
-- to 0; the card leaves the hand and its power is added to the score (modulo 2^32). If the opponent
-- is down to 0 the game is over, the mover has won and keeps the turn; else the turn passes.
pub play_game-duel :
    (g : CardGame) (idx : ℕ) (me foe : GamePlayer) (i target : ℕ) (c : CardDef)
    → idx < 2
    → me.player_id ≢ foe.player_id
    → 0 < me.hp
    → 0 < foe.hp
    → get_elem? me.hand i ≡ some c
    → play_game (duel g idx me foe) idx i target ≡ played (struck g idx me foe i c) c
unfolding play_game hit next_turn victim_of check_finish player_idx_of position find modify_at
play_game-duel g zero me foe i target c h d p q e = ground arith
play_game-duel g (suc zero) me foe i target c h d p q e = ground arith
play_game-duel g (suc (suc n)) me foe i target c h d p q e = absurd (omega arith)
