-- ===== src/Card/Views.antt =====
-- What a player's view of a game shows of the others.
use grimoire.Prelude.{
  ℕ, zero, suc, ◌+◌, ◌≡◌, refl, ap, arith, ◌==◌, if◌then◌else◌, Option, none, some, List, [], ◌∷◌,
  length, get_elem?,
}
use grimoire.Card.{CardGame, GamePlayer, player_view, player_views, view_for}

-- The lists differ at most in the cards of players other than the recipient. `i` is the place of
-- the first player.
abbrev pub SeenAlike : ℕ → ℕ → List GamePlayer → List GamePlayer → Type 0
SeenAlike r i [] [] = Unit
SeenAlike r i [] (q ∷ qs) = ⊥
SeenAlike r i (p ∷ ps) [] = ⊥
SeenAlike r i (p ∷ ps) (q ∷ qs) =
    (p.player_id ≡ q.player_id)
    × (p.name ≡ q.name)
    × (p.hp ≡ q.hp)
    × (p.score ≡ q.score)
    × (length p.hand ≡ length q.hand)
    × ((if i == r then p.hand else []) ≡ (if i == r then q.hand else []))
    × SeenAlike r (i + 1) ps qs

player_views-SeenAlike :
    (r i : ℕ) (ps qs : List GamePlayer)
    → SeenAlike r i ps qs
    → player_views r i ps ≡ player_views r i qs
unfolding player_views player_view
player_views-SeenAlike r i [] [] h = refl
player_views-SeenAlike r i [] (q ∷ qs) h = absurd h
player_views-SeenAlike r i (p ∷ ps) [] h = absurd h
player_views-SeenAlike r i (p ∷ ps) (q ∷ qs) h =
    ground (arith, player_views-SeenAlike r (i + 1) ps qs h.6)

-- The number of the player at a place.
abbrev id_at : List GamePlayer → ℕ → Option ℕ
id_at [] t = none
id_at (p ∷ ps) zero = some p.player_id
id_at (p ∷ ps) (suc t) = id_at ps t

id_at-SeenAlike :
    (r i t : ℕ) (ps qs : List GamePlayer) → SeenAlike r i ps qs → id_at ps t ≡ id_at qs t
id_at-SeenAlike r i t [] [] h = refl
id_at-SeenAlike r i t [] (q ∷ qs) h = absurd h
id_at-SeenAlike r i t (p ∷ ps) [] h = absurd h
id_at-SeenAlike r i zero (p ∷ ps) (q ∷ qs) h = ap some h.0
id_at-SeenAlike r i (suc t) (p ∷ ps) (q ∷ qs) h = id_at-SeenAlike r (i + 1) t ps qs h.6

id_at_lem :
    (ps : List GamePlayer) (t : ℕ)
    → id_at ps t ≡ (elim (get_elem? ps t) [ none ↦ none | some p ↦ some p.player_id ])
id_at_lem [] t = refl
id_at_lem (p ∷ ps) zero = refl
id_at_lem (p ∷ ps) (suc t) = id_at_lem ps t

-- Two games that differ only in which cards the others hold, and not in how many, look the same to
-- the recipient.
pub view_for-SeenAlike :
    (g : CardGame) (r : ℕ) (ps qs : List GamePlayer)
    → SeenAlike r 0 ps qs
    → view_for (record g { players = ps }) r ≡ view_for (record g { players = qs }) r
unfolding view_for
view_for-SeenAlike g r ps qs h = ground (
  arith,
  player_views-SeenAlike r 0 ps qs h,
  id_at-SeenAlike r 0 g.turn ps qs h,
  id_at_lem ps g.turn,
  id_at_lem qs g.turn,
)
