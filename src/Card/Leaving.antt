-- ===== src/Card/Leaving.antt =====
-- What `leave` does to a game of two.
use grimoire.Prelude.{inl, inr, ℕ, ◌≡◌, ◌≢◌, ◌⊎◌, arith, none, some, [], ◌∷◌, ok, panic}
use grimoire.Card.{CardGame, GamePlayer, phase_playing, phase_finished, view_for}
use grimoire.Card.Service.{App, push_snapshot, snapshots}
use grimoire.Card.Play.{leave, after_leave}

-- Connections `a` and `b` are bound to the two seats of game `gid`, which is played.
pub record IsDuel (s : App) (gid : ℕ) (g : CardGame) (p q : GamePlayer) (a b : ℕ) : Type 0 where
  pub there : s.games gid ≡ some (record g { phase = phase_playing; players = p ∷ q ∷ [] })
  pub first : s.conn_game a ≡ some (gid, 0)
  pub second : s.conn_game b ≡ some (gid, 1)
  pub differ : a ≢ b

-- While it is the first player's turn, the second one leaves: the first has won, and the game is
-- over with this player alone in it.
pub leave_second :
    (s : App) (gid : ℕ) (g : CardGame) (p q : GamePlayer) (a b : ℕ)
    → IsDuel s gid g p q a b
    → g.turn ≡ 0
    → ((leave b s).0 ≡ ok tt)
      × ((leave b s).1.games gid
          ≡ some (record g { phase = phase_finished; winner = p.player_id; players = p ∷ [] }))
unfolding leave after_leave push_snapshot snapshots view_for
leave_second s gid g p q a b d e = ground (arith, d.there, d.second)

-- The bug: while it is the second player's turn, whoever of the two leaves, the handler panics,
-- since the snapshot looks up a player at place 1, and nothing has gone out to anyone: the other player
-- is not told, although the game is over and that player alone in it.
pub leave_panics :
    (s : App) (gid : ℕ) (g : CardGame) (p q stays : GamePlayer) (a b c : ℕ)
    → IsDuel s gid g p q a b
    → ((c ≡ a) × (stays ≡ q)) ⊎ ((c ≡ b) × (stays ≡ p))
    → g.turn ≡ 1
    → ((leave c s).0 ≡ panic)
      × ((leave c s).1.out ≡ s.out)
      × ((leave c s).1.games gid
          ≡ some
              (record g { phase = phase_finished; winner = stays.player_id; players = stays ∷ [] }))
unfolding leave after_leave push_snapshot snapshots view_for
leave_panics s gid g p q stays a b c d (inl (w, y)) e = ground (arith, d.there, d.first, d.second)
leave_panics s gid g p q stays a b c d (inr (w, y)) e = ground (arith, d.there, d.first, d.second)

-- The bug: after the first player has left, the second is still bound to place 1 of a game of one;
-- when the second leaves too, the handler panics and the game stays.
pub leave_strands :
    (s : App) (gid : ℕ) (g : CardGame) (p q : GamePlayer) (a b : ℕ)
    → IsDuel s gid g p q a b
    → let t = (leave a s).1 in
      (t.conn_game b ≡ some (gid, 1)) × ((leave b t).0 ≡ panic) × ((leave b t).1.games gid ≢ none)
unfolding leave after_leave push_snapshot snapshots view_for
leave_strands s gid g p q a b d = ground (arith, d.there, d.first, d.second)
