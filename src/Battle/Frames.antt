-- ===== src/Battle/Frames.antt =====
-- Inputs wait for their frame: slots, targets and ticks.
use grimoire.Prelude.{
  ℕ, zero, suc, ◌==◌, if◌then◌else◌, false, Bool-cases, ◌+◌, ◌^◌, ◌<◌, ◌≤◌, ◌≡◌, inl, inr,
  Option-cases, ap, ◌∙◌, arith, some, List, [], ◌∷◌, insert-cases, remove-some, Assoc, lookup, put,
  lookup-put,
}
use grimoire.Battle.{
  Float32, Player, Battle, Input, new, input, target_frame, tick_frame, apply_inputs, apply_input,
  remove_player, step,
}

-- No slot lies behind the frame that the next tick simulates.
pub record IsTimely {R : Type 0} (b : Battle R) : Type 0 where
  pub ahead : (k : ℕ) (xs : List (Input R)) → b.pending k ≡ some xs → b.frame ≤ k

module _ {R : Type 0} where
  pub IsTimely-new : (id : ℕ) → IsTimely (new {R = R} id)
  IsTimely-new id = record { ahead = λ k xs h. cc }

  pub input-IsTimely :
      (b : Battle R) (pid : ℕ) (dx dy : R) (frame : ℕ)
      → b.frame + 1 < 2 ^ 64
      → IsTimely b
      → IsTimely (input pid dx dy frame b)
  unfolding input target_frame
  input-IsTimely b pid dx dy frame small v = record {
    ahead = λ k xs h. elim (insert-cases (target_frame frame b) _ b.pending k h) [
      | inl (p, q) ↦ ground arith
      | inr (p, q) ↦ v.ahead k xs q
    ];
  }

  pub remove_player-IsTimely :
      (b : Battle R) (pid : ℕ) → IsTimely b → IsTimely (remove_player pid b)
  unfolding remove_player
  remove_player-IsTimely b pid v = record {
    ahead = λ k xs h. elim (Option-cases (b.pending k)) [
      | inl e ↦ absurd (ground arith)
      | inr (ys, e) ↦ v.ahead k ys e
    ];
  }

  -- The directions of a player's inputs among those of a slot.
  unfoldable pub directions : ℕ → List (Input R) → List (R × R)
  directions pid [] = []
  directions pid ((q, dx, dy) ∷ is) =
      let rest = directions pid is in if q == pid then (dx, dy) ∷ rest else rest

module _ {R : Type 0} (F : Float32 R) where
  pub tick_frame-IsTimely :
      (b : Battle R) → b.frame + 1 < 2 ^ 64 → IsTimely b → IsTimely (tick_frame F b)
  unfolding tick_frame
  tick_frame-IsTimely b small v = record {
    ahead = λ k xs h.
        let (ne, old) = remove-some b.frame b.pending k h in ground (arith, v.ahead k xs old);
  }

  unfoldable pub ticks : ℕ → Battle R → Battle R
  ticks zero b = b
  ticks (suc n) b = ticks n (tick_frame F b)

  -- One move for each direction.
  unfoldable pub moves : List (R × R) → Player R → Player R
  moves [] p = p
  moves (d ∷ ds) p = moves ds (step F d.0 d.1 p)

  apply_input_lem :
      (pid : ℕ) (p : Player R) (dx dy : R) (ps : Assoc (Player R))
      → lookup pid ps ≡ some p
      → apply_input F (pid, dx, dy) ps ≡ put pid (step F dx dy p) ps
  unfolding apply_input
  apply_input_lem pid p dx dy ps h = ground arith

  apply_input_other :
      (pid q : ℕ) (dx dy : R) (ps : Assoc (Player R))
      → (q == pid) ≡ false
      → lookup pid (apply_input F (q, dx, dy) ps) ≡ lookup pid ps
  unfolding apply_input
  apply_input_other pid q dx dy ps n = elim (Option-cases (lookup q ps)) [
    | inl e ↦ ground arith
    | inr (p, e) ↦ let l = lookup-put q (step F dx dy p) ps pid in ground arith
  ]

  apply_inputs-moves :
      (pid : ℕ) (p : Player R) (is : List (Input R)) (ps : Assoc (Player R))
      → lookup pid ps ≡ some p
      → lookup pid (apply_inputs F is ps) ≡ some (moves (directions pid is) p)
  unfolding moves apply_inputs directions
  apply_inputs-moves pid p [] ps h = h
  apply_inputs-moves pid p ((q, dx, dy) ∷ is) ps h = elim (Bool-cases (q == pid)) [
    | inl e ↦
        let own : q ≡ pid = ground arith in
        let moved : lookup pid (apply_input F (q, dx, dy) ps) ≡ some (step F dx dy p) =
          ap (λ x. lookup pid (apply_input F (x, dx, dy) ps)) own
          ∙ ap (lookup pid) (apply_input_lem pid p dx dy ps h)
          ∙ lookup-put pid (step F dx dy p) ps pid
          ∙ ground arith in
        rw (e, directions)
          (apply_inputs-moves pid (step F dx dy p) is (apply_input F (q, dx, dy) ps) moved)
    | inr n ↦
        rw (n, directions)
          (apply_inputs-moves pid p is (apply_input F (q, dx, dy) ps)
            (apply_input_other pid q dx dy ps n ∙ h))
  ]

  -- The comment of the code has the latest input win: a tick applies, for each player of the battle, all
  -- inputs of that player that the frame's slot holds, in their order, one move each, whatever inputs of
  -- other players stand between them.
  pub tick_frame-moves :
      (b : Battle R) (pid : ℕ) (p : Player R) (is : List (Input R))
      → b.pending b.frame ≡ some is
      → lookup pid b.players ≡ some p
      → lookup pid (tick_frame F b).players ≡ some (moves (directions pid is) p)
  unfolding tick_frame
  tick_frame-moves b pid p is h e = rw h (apply_inputs-moves pid p is b.players e)
