-- ===== src/Battle/Tests.antt =====
-- Runs of the battle service at concrete states. Numbers in thousandths stand for single-precision ones.
use grimoire.Prelude.{
  List, retain, ℕ, ◌+◌, ◌-◌, ◌*◌, ◌/◌, ◌≡◌, refl, arith, true, none, some, [], ◌∷◌, map, length,
  insert, empty, min, max, ltb, lookup, ◌≢◌, ok, none,
}
use grimoire.Battle.{
  Float32, Player, Battle, BattlePlayer, FrameSyncPush, battle_capacity, snapshot_ring, tick_frame,
  resync, new,
}
use grimoire.Battle.Service.{App, enter, with_player, init, BattleJoinResp, join, leave, tick}
use grimoire.Battle.Frames.{
  IsTimely, ticks, moves, directions, tick_frame-moves, tick_frame-IsTimely,
}
use grimoire.Battle.Snapshots.{span}
use grimoire.Battle.History
use grimoire.Battle.History.{Event, joins, leaves, inputs, latest, all_shown, resync-run}
use grimoire.Battle.Capacity.{IsWithin, join-IsWithin}
use grimoire.Battle.Upkeep.{leave-IsWithin, tick-IsWithin}
use grimoire.Battle.Race.{race_exceeds_capacity}

abbrev thousandths : Float32 ℕ
thousandths = record {
  add = λ a b. a + b;
  mul = λ a b. a * b / 1000;
  div = λ a b. a * 1000 / b;
  sqrt = λ a. a;
  less = λ a b. ltb a b;
  clamp = λ a lo hi. max lo (min a hi);
  lit = λ n d. n * 1000 / d;
}

abbrev ann : Player ℕ
ann = record { player_id = 1; x = 25000; y = 50000; conn_id = 7 }

abbrev shot : List (BattlePlayer ℕ)
shot = record { player_id = 1; x = 25000; y = 50000; score = 0 } ∷ []

-- Two frames have passed; the slot of frame 2 holds two inputs of the one player.
abbrev arena : Battle ℕ
arena = record {
  id = 1;
  frame = 2;
  players = (1, ann) ∷ [];
  pending = insert 2 ((1, 1000, 0) ∷ (1, 0, 1000) ∷ []) empty;
  ring = (1, shot) ∷ (2, shot) ∷ [];
}

arena-IsTimely : IsTimely arena
arena-IsTimely = record { ahead = λ k xs h. ground arith }

-- The player once the slot of frame 2 has been applied.
abbrev moved : Player ℕ
moved = moves thousandths ((1000, 0) ∷ (0, 1000) ∷ []) ann

-- A second player's input stands between the first one's two.
abbrev duel_arena : Battle ℕ
duel_arena = record arena {
  players = (1, ann) ∷ (2, record ann { player_id = 2 }) ∷ [];
  pending = insert 2 ((1, 1000, 0) ∷ (2, 1000, 1000) ∷ (1, 0, 1000) ∷ []) empty;
}

tick_frame-moves_example :
    lookup 1 (tick_frame thousandths duel_arena).players
    ≡ some (moves thousandths ((1000, 0) ∷ (0, 1000) ∷ []) ann)
unfolding lookup directions
tick_frame-moves_example =
    tick_frame-moves thousandths duel_arena 1 ann
      ((1, 1000, 0) ∷ (2, 1000, 1000) ∷ (1, 0, 1000) ∷ []) refl refl

tick_frame-IsTimely_example : IsTimely (tick_frame thousandths arena)
tick_frame-IsTimely_example = tick_frame-IsTimely thousandths arena (omega arith) arena-IsTimely

abbrev events : List (Event ℕ)
events =
    joins ann
    ∷ Event.ticks
    ∷ inputs 1 1000 0 1
    ∷ Event.ticks
    ∷ Event.ticks
    ∷ leaves 1
    ∷ Event.ticks
    ∷ []

resync-run_example :
    let b = History.run thousandths events (new 5) in
    let oldest = max (b.frame - min b.frame snapshot_ring) 2 in
    (resync 2 b
      ≡ retain
          (λ (f : FrameSyncPush ℕ). ltb 2 f.frame)
          (latest (all_shown thousandths events (new 5))))
    × (map (λ (f : FrameSyncPush ℕ). f.frame) (resync 2 b) ≡ span oldest (b.frame - oldest))
resync-run_example = resync-run thousandths 5 2 events (omega arith)

abbrev hall : App ℕ
hall = record (init {R = ℕ} true []) {
  battles = insert 1 arena empty;
  conn_battle = insert 7 (1, 1) empty;
  next_player = 2;
  next_battle = 2;
}

race_exceeds_capacity_example :
    let t = (enter thousandths 8 (some 1) hall).1 in
    let u = (enter thousandths 9 (some 1) t).1 in
    let full = with_player thousandths 9 3 (with_player thousandths 8 2 arena) in
    (u.battles 1 ≡ some full) × (length full.players ≡ battle_capacity + 1)
unfolding lookup
race_exceeds_capacity_example =
    race_exceeds_capacity thousandths hall 1 8 9 arena refl refl (omega arith) refl refl

hall-IsWithin : IsWithin hall
hall-IsWithin = record { fits = λ k b h. ground arith }

join-IsWithin_example :
    (a : BattleJoinResp ℕ) × (t : App ℕ) × (join thousandths 8 (1 ∷ []) hall ≡ (ok a, t))
    × (t.conn_battle 8 ≢ none)
    × IsWithin t
join-IsWithin_example = join-IsWithin thousandths hall 8 (1 ∷ []) hall-IsWithin

leave-IsWithin_example : IsWithin (leave 7 hall).1
leave-IsWithin_example = leave-IsWithin hall 7 hall-IsWithin

tick-IsWithin_example : IsWithin (tick thousandths (1 ∷ []) hall)
tick-IsWithin_example = tick-IsWithin thousandths (1 ∷ []) hall hall-IsWithin
