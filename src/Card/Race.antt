-- ===== src/Card/Race.antt =====
-- The search for a waiting game and the taking of a seat are two steps, and other requests run
-- between them.
use grimoire.Prelude.{ℕ, ◌≡◌, ◌≢◌, arith, some, List, [], ◌∷◌, any, position}
use grimoire.Card.{
  CardDef, CardGame, GamePlayer, phase_playing, view_for, add_player, player_idx_of,
}
use grimoire.Card.Service.{
  App, push_snapshot, snapshots, enter, target_game, take_seat, seat, opened, announce,
}

-- The bug: two connections find the same waiting game before either has entered it. The one that
-- enters second is bound to the seat of the player who waited, and the game is as it was.
pub race_shares_seat :
    (s : App) (gid a b : ℕ) (g : CardGame) (p : GamePlayer) (first second : List CardDef)
    → s.games gid ≡ some (record g { phase = phase_playing; turn = 0; players = p ∷ [] })
    → p.conn_id ≢ a
    → let t = (enter a (some gid) first s).1 in
      let r = enter b (some gid) second t in
      (t.conn_game a ≡ some (gid, 1))
      × (r.1.conn_game b ≡ some (gid, 0))
      × (r.1.games gid ≡ t.games gid)
unfolding enter target_game take_seat seat opened announce push_snapshot snapshots view_for
    add_player player_idx_of any position
race_shares_seat s gid a b g p first second h d = ground arith
