-- ===== src/Battle/Upkeep.antt =====
-- The other handlers of the battle service keep every battle within its capacity.
use grimoire.Prelude.{
  ℕ, ◌≤◌, ◌≡◌, refl, sym, ap, ◌∙◌, arith, inl, inr, ◌==◌, some, List, [], ◌∷◌, length, remove,
  remove-some, Assoc, lookup, put, Bool-cases, Option-cases,
}
use grimoire.Battle.{
  Float32, Player, Battle, Input, slot, step, battle_capacity, remove_player, tick_frame,
  apply_input, apply_inputs,
}
use grimoire.Battle.Service.{App, leave, after_leave, tick_battle, tick}
use grimoire.Battle.Capacity.{IsWithin, set_battle-IsWithin, length-erase_le}

module _ {R : Type 0} where
  length-put_present :
      (k : ℕ) (v w : Player R) (m : Assoc (Player R))
      → lookup k m ≡ some w
      → length (put k v m) ≡ length m
  unfolding put lookup
  length-put_present k v w [] h = cc
  length-put_present k v w (e ∷ m) h = ground (arith, length-put_present k v w m)

  remove_battle-IsWithin :
      (s t : App R) (k : ℕ) → IsWithin s → t.battles ≡ remove k s.battles → IsWithin t
  remove_battle-IsWithin s t k v e = record {
    fits = λ j x h. v.fits j x (remove-some k s.battles j (ap (λ m. m j) (sym e) ∙ h)).1;
  }

  after_leave-IsWithin :
      (s : App R) (k : ℕ) (b : Battle R)
      → IsWithin s
      → length b.players ≤ battle_capacity
      → IsWithin (after_leave k b s)
  unfolding after_leave
  after_leave-IsWithin s k b v h = elim (Bool-cases (length b.players == 0)) [
    | inl e ↦ remove_battle-IsWithin s _ k v (ground arith)
    | inr e ↦ set_battle-IsWithin s _ k b v (ground arith) h
  ]

  remaining :
      (pid : ℕ) (b : Battle R)
      → length b.players ≤ battle_capacity
      → length (remove_player pid b).players ≤ battle_capacity
  unfolding remove_player
  remaining pid b h = omega (arith, length-erase_le pid b.players, h)

  -- A player's leaving keeps every battle within its capacity.
  pub leave-IsWithin : (s : App R) (c : ℕ) → IsWithin s → IsWithin (leave c s).1
  unfolding leave
  leave-IsWithin s c v = elim (Option-cases (s.conn_battle c)) [
    | inl e ↦ rw (e, leave) v
    | inr ((bid, pid), e) ↦ elim (Option-cases (s.battles bid)) [
      | inl q ↦ rw (e, q, leave) (record { fits = v.fits })
      | inr (b, q) ↦
          rw (e, q, leave)
            (after_leave-IsWithin (record s { conn_battle = remove c s.conn_battle }) bid
              (remove_player pid b) (record { fits = v.fits }) (remaining pid b (v.fits bid b q)))
    ]
  ]

module _ {R : Type 0} (F : Float32 R) where
  length-apply_inputs :
      (is : List (Input R)) (ps : Assoc (Player R)) → length (apply_inputs F is ps) ≡ length ps
  unfolding apply_inputs apply_input
  length-apply_inputs [] ps = refl
  length-apply_inputs ((pid, dx, dy) ∷ is) ps = elim (Option-cases (lookup pid ps)) [
    | inl e ↦ length-apply_inputs is (apply_input F (pid, dx, dy) ps) ∙ ground arith
    | inr (p, e) ↦
        length-apply_inputs is (apply_input F (pid, dx, dy) ps)
        ∙ ground (arith, length-put_present pid (step F dx dy p) p ps e)
  ]

  tick_battle-IsWithin : (id : ℕ) (s : App R) → IsWithin s → IsWithin (tick_battle F id s)
  unfolding tick_battle tick_frame
  tick_battle-IsWithin id s v = elim (Option-cases (s.battles id)) [
    | inl e ↦ rw (e, tick_battle) v
    | inr (b, e) ↦
        rw (e, tick_battle)
          (set_battle-IsWithin s _ id (tick_frame F b) v refl (
            omega (arith, length-apply_inputs (slot (b.pending b.frame)) b.players, v.fits id b e)))
  ]

  -- A round of the simulation, in whatever order it takes the battles, keeps every battle within its
  -- capacity.
  pub tick-IsWithin : (scan : List ℕ) (s : App R) → IsWithin s → IsWithin (tick F scan s)
  unfolding tick
  tick-IsWithin [] s v = v
  tick-IsWithin (id ∷ scan) s v =
      tick-IsWithin scan (tick_battle F id s) (tick_battle-IsWithin id s v)
