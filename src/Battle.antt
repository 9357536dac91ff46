-- ===== src/Battle.antt =====
-- crates/grimoire-battle-svc/src/main.rs: one battle and its frames. Single-precision numbers are an
-- argument: their type, the operations that the code uses, and the values of its literals. The
-- players' hash map is a list of entries, in the order in which the map yields them.
pub mod Service
pub mod Frames
pub mod Snapshots
pub mod History
pub mod Bridge
pub mod Capacity
pub mod Upkeep
pub mod Race
mod Tests
use grimoire.Prelude.{
  ℕ, zero, suc, ◌+◌, ◌-◌, ◌%◌, ◌^◌, min, max, Bool, true, false, not, ltb, leb, ◌==◌, if◌then◌else◌,
  Option, none, some, List, [], ◌∷◌, ◌++◌, map, length, drop, retain, Map, empty, insert, remove,
  Assoc, lookup, put, erase, values, or_else,
}
use mathlib.Core.Option

pub record Float32 (R : Type 0) : Type 0 where
  pub add : R → R → R
  pub mul : R → R → R
  pub div : R → R → R
  pub sqrt : R → R
  pub less : R → R → Bool
  pub clamp : R → R → R → R
  -- The literal with this numerator and denominator.
  pub lit : ℕ → ℕ → R

abbrev pub frame_rate : ℕ
frame_rate = 20

abbrev pub battle_capacity : ℕ
battle_capacity = 2

abbrev pub input_delay_frames : ℕ
input_delay_frames = 2

abbrev pub snapshot_ring : ℕ
snapshot_ring = 30

pub record Player (R : Type 0) : Type 0 where
  pub player_id : ℕ
  pub x : R
  pub y : R
  pub conn_id : ℕ

pub record BattlePlayer (R : Type 0) : Type 0 where
  pub player_id : ℕ
  pub x : R
  pub y : R
  pub score : ℕ

abbrev pub Input : Type 0 → Type 0
Input R = ℕ × R × R

pub record Battle (R : Type 0) : Type 0 where
  pub id : ℕ
  pub frame : ℕ
  pub players : Assoc (Player R)
  pub pending : Map (List (Input R))
  pub ring : List (ℕ × List (BattlePlayer R))

pub record FrameSyncPush (R : Type 0) : Type 0 where
  pub frame : ℕ
  pub battle_id : ℕ
  pub players : List (BattlePlayer R)

module _ {R : Type 0} where
  abbrev pub proto : Player R → BattlePlayer R
  proto p = record { player_id = p.player_id; x = p.x; y = p.y; score = 0 }

  abbrev pub new : ℕ → Battle R
  new id = record { id = id; frame = 0; players = []; pending = empty; ring = [] }

  abbrev pub is_full : Battle R → Bool
  is_full b = leb battle_capacity (length b.players)

  -- The inputs of a player leave every slot.
  unfoldable pub remove_player : ℕ → Battle R → Battle R
  remove_player player_id b = record b {
    players = erase player_id b.players;
    pending = λ k. Option.map (retain (λ i. not (i.0 == player_id))) (b.pending k);
  }

  -- `frame.saturating_add(INPUT_DELAY_FRAMES).max(self.frame + 1)`.
  unfoldable pub target_frame : ℕ → Battle R → ℕ
  target_frame frame b =
      max (min (frame + input_delay_frames) (2 ^ 64 - 1)) ((b.frame + 1) % 2 ^ 64)

  abbrev pub slot : Option (List (Input R)) → List (Input R)
  slot o = or_else o []

  unfoldable pub input : ℕ → R → R → ℕ → Battle R → Battle R
  input player_id dx dy frame b =
      let target = target_frame frame b in
      record b {
        pending = insert target (slot (b.pending target) ++ (player_id, dx, dy) ∷ []) b.pending;
      }

  -- A new entry at the back; beyond the ring's size the oldest goes.
  unfoldable pub push_ring :
      ℕ × List (BattlePlayer R)
      → List (ℕ × List (BattlePlayer R))
      → List (ℕ × List (BattlePlayer R))
  push_ring e ring =
      let longer = ring ++ e ∷ [] in
      if ltb snapshot_ring (length longer) then drop 1 longer else longer

  abbrev pub protos : Battle R → List (BattlePlayer R)
  protos b = map proto (values b.players)

  unfoldable pub resync : ℕ → Battle R → List (FrameSyncPush R)
  resync last_frame b =
      map (λ e. record { frame = e.0; battle_id = b.id; players = e.1 })
        (retain (λ e. ltb last_frame e.0) b.ring)

  abbrev pub snapshot : Battle R → FrameSyncPush R
  snapshot b = record { frame = b.frame; battle_id = b.id; players = protos b }

module _ {R : Type 0} (F : Float32 R) where
  -- The first player starts at (25, 50), any other at (75, 50).
  unfoldable pub add_player : Player R → Battle R → Battle R
  add_player p b = record b {
    players =
        put p.player_id
          (record p {
            x = if length b.players == 0 then F.lit 25 1 else F.lit 75 1;
            y = F.lit 50 1;
          })
          b.players;
  }

  abbrev pub norm : R → R → R
  norm dx dy = F.sqrt (F.add (F.mul dx dx) (F.mul dy dy))

  -- `p + (d / norm) * SPEED * dt`, clamped to the field.
  abbrev pub shift : R → R → R → R
  shift p d n =
      F.clamp
        (F.add p (F.mul (F.mul (F.div d n) (F.lit 8 1)) (F.div (F.lit 1 1) (F.lit frame_rate 1))))
        (F.lit 0 1) (F.lit 100 1)

  unfoldable pub step : R → R → Player R → Player R
  step dx dy p =
      if F.less (F.lit 1 1000000) (norm dx dy)
      then record p { x = shift p.x dx (norm dx dy); y = shift p.y dy (norm dx dy) }
      else p

  unfoldable pub apply_input : Input R → Assoc (Player R) → Assoc (Player R)
  apply_input (pid, dx, dy) ps = elim (lookup pid ps) [
    | none ↦ ps
    | some p ↦ put pid (step dx dy p) ps
  ]

  unfoldable pub apply_inputs : List (Input R) → Assoc (Player R) → Assoc (Player R)
  apply_inputs [] ps = ps
  apply_inputs (i ∷ is) ps = apply_inputs is (apply_input i ps)

  unfoldable pub tick_frame : Battle R → Battle R
  tick_frame b =
      let players = apply_inputs (slot (b.pending b.frame)) b.players in
      let frame = (b.frame + 1) % 2 ^ 64 in
      record b {
        frame = frame;
        players = players;
        pending = remove b.frame b.pending;
        ring = push_ring (frame, map proto (values players)) b.ring;
      }
