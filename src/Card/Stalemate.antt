-- ===== src/Card/Stalemate.antt =====
-- crates/grimoire-card-svc/src/main.rs, `play` and `end_turn`: games that cannot come to an end.
use grimoire.Prelude.{
  ℕ, zero, suc, ◌+◌, ◌-◌, ◌%◌, ◌^◌, ◌<◌, ◌≡◌, ◌≢◌, refl, sym, ap, subst, arith, false, not, ◌||◌,
  ◌==◌, leb, if◌then◌else◌, none, some, List, [], ◌∷◌, length, get_elem?, remove_at, Bool-cases,
  Option-cases, inl, inr,
}
use grimoire.Card.{CardDef, CardGame, GamePlayer, phase_playing}
use grimoire.Card.Play.{Played, refused, panicked, played, play_game, play_card, passed}
use grimoire.Card.Duel.{seats, duel, struck, play_game-duel}

-- What a player asks for, by the place among the players.
pub data Move : Type 0 where
  plays : ℕ → ℕ → ℕ → Move
  passes : ℕ → Move

abbrev pub left : CardGame → Played → CardGame
left g (refused d) = g
left g panicked = g
left g (played g' c) = g'

unfoldable pub after : Move → CardGame → CardGame
after (plays idx hand_index target) g = left g (play_game g idx hand_index target)
after (passes idx) g =
    if not (g.phase == phase_playing) || not (g.turn == idx) then g else passed idx g

unfoldable pub all_after : List Move → CardGame → CardGame
all_after [] g = g
all_after (m ∷ ms) g = all_after ms (after m g)

unfoldable pub total : List CardDef → ℕ
total [] = 0
total (c ∷ cs) = c.power + total cs

total-remove_at :
    (i : ℕ) (c : CardDef) (cs : List CardDef)
    → get_elem? cs i ≡ some c
    → c.power + total (remove_at cs i) ≡ total cs
unfolding total
total-remove_at i c [] h = absurd (ground arith)
total-remove_at zero c (x ∷ cs) h = ground arith
total-remove_at (suc i) c (x ∷ cs) h = let ih = total-remove_at i c cs h in omega arith

-- Two players with different numbers, neither of whom has cards enough to bring the other down.
pub record IsShort (g : CardGame) (winner : ℕ) : Type 0 where
  pub idx : ℕ
  pub me : GamePlayer
  pub foe : GamePlayer
  pub is_duel : g ≡ duel g idx me foe
  pub seat : idx < 2
  pub differ : me.player_id ≢ foe.player_id
  pub mine : total me.hand < foe.hp
  pub theirs : total foe.hand < me.hp
  pub undecided : g.winner ≡ winner

-- The same two, seen from the other's seat.
swapped :
    (idx : ℕ) (me foe : GamePlayer)
    → idx < 2
    → (g : CardGame) → g.phase ≡ phase_playing
    → g.turn ≡ 1 - idx
    → g.players ≡ seats idx me foe
    → g ≡ duel g (1 - idx) foe me
swapped zero me foe h g a b c = grind arith
swapped (suc zero) me foe h g a b c = grind arith
swapped (suc (suc n)) me foe h g a b c = absurd (omega arith)

struck-IsShort :
    (winner idx : ℕ) (g : CardGame) (me foe : GamePlayer) (i : ℕ) (c : CardDef)
    → idx < 2
    → me.player_id ≢ foe.player_id
    → total me.hand < foe.hp
    → total foe.hand < me.hp
    → g.winner ≡ winner
    → get_elem? me.hand i ≡ some c
    → IsShort (struck g idx me foe i c) winner
struck-IsShort winner idx g me foe i c h d p q w e =
    let t = total-remove_at i c me.hand e in
    let stands : leb foe.hp c.power ≡ false = ground arith in
    record {
      idx = 1 - idx;
      me = record foe { hp = foe.hp - c.power };
      foe = record me { hand = remove_at me.hand i; score = (me.score + c.power) % 2 ^ 32 };
      is_duel =
          swapped idx
            (record me { hand = remove_at me.hand i; score = (me.score + c.power) % 2 ^ 32 })
            (record foe { hp = foe.hp - c.power }) h (struck g idx me foe i c) (ground arith)
            (ground arith) refl;
      seat = omega arith;
      differ = λ x. d (sym x);
      mine = q;
      theirs = omega arith;
      undecided = ground arith;
    }

short :
    (winner idx : ℕ) (g : CardGame) (me foe : GamePlayer)
    → idx < 2
    → me.player_id ≢ foe.player_id
    → total me.hand < foe.hp
    → total foe.hand < me.hp
    → g.winner ≡ winner
    → IsShort (duel g idx me foe) winner
short winner idx g me foe h d p q w = record {
  idx = idx;
  me = me;
  foe = foe;
  is_duel = refl;
  seat = h;
  differ = d;
  mine = p;
  theirs = q;
  undecided = w;
}

-- Out of turn nothing is played.
out_of_turn :
    (i hand_index target idx : ℕ) (g : CardGame) (me foe : GamePlayer)
    → idx ≢ i
    → left (duel g idx me foe) (play_game (duel g idx me foe) i hand_index target)
      ≡ duel g idx me foe
unfolding play_game
out_of_turn i hand_index target idx g me foe n = ground arith

no_card :
    (hand_index target idx : ℕ) (g : CardGame) (me foe : GamePlayer)
    → idx < 2
    → get_elem? me.hand hand_index ≡ none
    → left (duel g idx me foe) (play_game (duel g idx me foe) idx hand_index target)
      ≡ duel g idx me foe
unfolding play_game play_card
no_card hand_index target zero g me foe h n = ground arith
no_card hand_index target (suc zero) g me foe h n = ground arith
no_card hand_index target (suc (suc k)) g me foe h n = absurd (omega arith)

duel-plays :
    (winner i hand_index target idx : ℕ) (g : CardGame) (me foe : GamePlayer)
    → idx < 2
    → me.player_id ≢ foe.player_id
    → total me.hand < foe.hp
    → total foe.hand < me.hp
    → g.winner ≡ winner
    → IsShort (left (duel g idx me foe) (play_game (duel g idx me foe) i hand_index target)) winner
duel-plays winner i hand_index target idx g me foe h d p q w = elim (Bool-cases (idx == i)) [
  | inl a ↦ elim (Option-cases (get_elem? me.hand hand_index)) [
    | inl n ↦
        let here : idx ≡ i = ground arith in
        subst
          (λ k.
            IsShort (left (duel g idx me foe) (play_game (duel g idx me foe) k hand_index target))
              winner)
          here
          (subst (λ x. IsShort x winner) (sym (no_card hand_index target idx g me foe h n))
            (short winner idx g me foe h d p q w))
    | inr (c, e) ↦
        let here : idx ≡ i = ground arith in
        subst
          (λ k.
            IsShort (left (duel g idx me foe) (play_game (duel g idx me foe) k hand_index target))
              winner)
          here
          (subst (λ x. IsShort (left (duel g idx me foe) x) winner)
            (sym
              (play_game-duel g idx me foe hand_index target c h d (omega arith) (omega arith) e))
            (struck-IsShort winner idx g me foe hand_index c h d p q w e))
  ]
  | inr a ↦
      subst (λ x. IsShort x winner)
        (sym (out_of_turn i hand_index target idx g me foe (ground arith)))
        (short winner idx g me foe h d p q w)
]

plays-IsShort :
    (winner i hand_index target : ℕ) (g : CardGame)
    → IsShort g winner
    → IsShort (left g (play_game g i hand_index target)) winner
plays-IsShort winner i hand_index target g v =
    subst (λ x. IsShort (left x (play_game x i hand_index target)) winner) (sym v.is_duel)
      (duel-plays winner i hand_index target v.idx g v.me v.foe v.seat v.differ v.mine v.theirs
        v.undecided)

next_seat :
    (idx : ℕ) (me foe : GamePlayer)
    → idx < 2
    → (i : ℕ) (g : CardGame) → i ≡ idx
    → g.players ≡ seats idx me foe
    → (passed i g).turn ≡ 1 - idx
next_seat zero me foe h i g e c = let n : length g.players ≡ 2 = ap length c in ground arith
next_seat (suc zero) me foe h i g e c = let n : length g.players ≡ 2 = ap length c in ground arith
next_seat (suc (suc k)) me foe h i g e c = absurd (omega arith)

passes-IsShort :
    (winner i : ℕ) (g : CardGame) → IsShort g winner → IsShort (after (passes i) g) winner
unfolding after
passes-IsShort winner i g v =
    elim (Bool-cases (not (g.phase == phase_playing) || not (g.turn == i))) [
      | inl e ↦ rw (e, after) v
      | inr e ↦
          let players : g.players ≡ seats v.idx v.me v.foe = ap (λ x. x.players) v.is_duel in
          let turn : g.turn ≡ v.idx = ap (λ x. x.turn) v.is_duel in
          rw (e, after)
            (record {
              idx = 1 - v.idx;
              me = v.foe;
              foe = v.me;
              is_duel =
                  swapped v.idx v.me v.foe v.seat (passed i g) (ground arith)
                    (next_seat v.idx v.me v.foe v.seat i g (ground arith) players) players;
              seat = omega arith;
              differ = λ x. v.differ (sym x);
              mine = v.theirs;
              theirs = v.mine;
              undecided = v.undecided;
            })
    ]

all_after-IsShort :
    (winner : ℕ) (ms : List Move) (g : CardGame)
    → IsShort g winner
    → IsShort (all_after ms g) winner
unfolding all_after after
all_after-IsShort winner [] g v = v
all_after-IsShort winner (plays i hand_index target ∷ ms) g v =
    all_after-IsShort winner ms (after (plays i hand_index target) g)
      (plays-IsShort winner i hand_index target g v)
all_after-IsShort winner (passes i ∷ ms) g v =
    all_after-IsShort winner ms (after (passes i) g) (passes-IsShort winner i g v)

-- The bug: a game may never end. Where neither of two players has cards enough in hand to bring the
-- other down, the game is still on after any plays and passes of either, and has no other winner than
-- before.
pub stalemate :
    (g : CardGame) (idx : ℕ) (me foe : GamePlayer) (ms : List Move)
    → idx < 2
    → me.player_id ≢ foe.player_id
    → total me.hand < foe.hp
    → total foe.hand < me.hp
    → let g' = all_after ms (duel g idx me foe) in
      (g'.phase ≡ phase_playing) × (g'.winner ≡ g.winner)
stalemate g idx me foe ms h d p q =
    let v =
      all_after-IsShort g.winner ms (duel g idx me foe)
        (short g.winner idx g me foe h d p q refl) in
    (ap (λ x. x.phase) v.is_duel, v.undecided)
