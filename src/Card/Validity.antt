-- ===== src/Card/Validity.antt =====
-- The well-formed states of the card service.
use grimoire.Prelude.{
  ℕ, ◌<◌, ◌≡◌, ◌≢◌, ◌⊎◌, sym, subst, arith, inl, inr, Bool, ◌==◌, some, List, [], ◌∷◌, map,
  get_elem?, All, insert, insert-cases, Bool-cases,
}
use grimoire.Card.{CardGame, phase_playing}
use grimoire.Card.Service.{App, init}

abbrev pub ids : CardGame → List ℕ
ids g = map (λ p. p.player_id) g.players

abbrev pub conns : CardGame → List ℕ
conns g = map (λ p. p.conn_id) g.players

-- One or two players, with different numbers, the turn at one of them.
abbrev pub AreSeated : List ℕ → ℕ → Type 0
AreSeated [] turn = ⊥
AreSeated (a ∷ []) turn = turn ≡ 0
AreSeated (a ∷ b ∷ []) turn = (a ≢ b) × (turn < 2)
AreSeated (a ∷ b ∷ c ∷ r) turn = ⊥

pub record IsGame (g : CardGame) : Type 0 where
  pub seated : AreSeated (ids g) g.turn
  -- While the game is played, its players live.
  pub alive : (g.phase ≢ phase_playing) ⊎ All (λ p. 0 < p.hp) g.players

-- Games are well-formed and below the counters; each bound connection has its seat in a game.
pub record IsValid (s : App) : Type 0 where
  pub games_ok : (k : ℕ) (g : CardGame) → s.games k ≡ some g → IsGame g
  pub games_below : (k : ℕ) (g : CardGame) → s.games k ≡ some g → k < s.next_game
  pub ids_below : (k : ℕ) (g : CardGame) → s.games k ≡ some g → All (λ n. n < s.next_player) (ids g)
  pub bound :
      (c k i : ℕ)
      → s.conn_game c ≡ some (k, i)
      → (g : CardGame) × (s.games k ≡ some g) × (get_elem? (conns g) i ≡ some c)

pub init-IsValid :
    (has_store has_dir : Bool) (node_id : List ℕ) → IsValid (init has_store has_dir node_id)
init-IsValid a b n = record {
  games_ok = λ k g e. cc;
  games_below = λ k g e. cc;
  ids_below = λ k g e. cc;
  bound = λ c k i e. cc;
}

-- A game may be replaced by one with the same seats.
pub set_game-IsValid :
    (s : App) (k : ℕ) (g g' : CardGame)
    → IsValid s
    → s.games k ≡ some g
    → IsGame g'
    → ids g' ≡ ids g
    → conns g' ≡ conns g
    → IsValid (record s { games = insert k g' s.games })
set_game-IsValid s k g g' v e ok i c = record {
  games_ok = λ j x h. ground (arith, v.games_ok j x);
  games_below = λ j x h. elim (insert-cases k g' s.games j h) [
    | inl (p, q) ↦ ground (arith, v.games_below k g e)
    | inr (p, q) ↦ v.games_below j x q
  ];
  ids_below = λ j x h. elim (insert-cases k g' s.games j h) [
    | inl (p, q) ↦
        subst (λ (y : CardGame). All (λ n. n < s.next_player) (ids y)) q
          (subst (All (λ n. n < s.next_player)) (sym i) (v.ids_below k g e))
    | inr (p, q) ↦ v.ids_below j x q
  ];
  bound = λ n j m h. bound_after n j m (v.bound n j m h);
}
  where
    bound_after :
        (n j m : ℕ)
        → (x : CardGame) × (s.games j ≡ some x) × (get_elem? (conns x) m ≡ some n)
        → (x : CardGame) × (insert k g' s.games j ≡ some x) × (get_elem? (conns x) m ≡ some n)
    bound_after n j m (x, p, q) = elim (Bool-cases (k == j)) [
      | inl t ↦ (g', ground arith, rw c (ground arith))
      | inr t ↦ (x, ground arith, q)
    ]
