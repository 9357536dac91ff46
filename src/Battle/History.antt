-- ===== src/Battle/History.antt =====
-- What a client that missed frames gets, against what the battle broadcast.
use grimoire.Prelude.{
  ℕ, zero, suc, ◌+◌, ◌-◌, ◌^◌, ◌<◌, ◌≤◌, ◌≡◌, refl, sym, ap, ◌∙◌, arith, min, max, ltb, ltb→lt,
  ltb_false→le, true, false, if◌then◌else◌, inl, inr, Bool-cases, List, [], ◌∷◌, ◌++◌, map, length,
  drop, retain,
}
use grimoire.Battle.{
  Float32, Battle, BattlePlayer, FrameSyncPush, Player, new, push_ring, tick_frame, resync,
  snapshot_ring, snapshot, protos, input, add_player, remove_player,
}
use grimoire.Battle.Snapshots.{span, IsRing, IsRing-new, resync-frames, tick_frame-IsRing}

-- What happens to a battle.
pub data Event (R : Type 0) : Type 0 where
  joins : Player R → Event R
  leaves : ℕ → Event R
  inputs : ℕ → R → R → ℕ → Event R
  ticks : Event R

-- The last 30 of a list, or all there are.
abbrev pub latest : {A : Type 0} → List A → List A
latest xs = drop (length xs - snapshot_ring) xs

abbrev trim : {A : Type 0} → List A → List A
trim xs = if ltb snapshot_ring (length xs) then drop 1 xs else xs

drop_last :
    {A : Type 0} (n : ℕ) (x : A) (xs : List A)
    → n ≤ length xs
    → drop n (xs ++ x ∷ []) ≡ drop n xs ++ x ∷ []
drop_last zero x xs h = refl
drop_last (suc n) x [] h = absurd (omega arith)
drop_last (suc n) x (y ∷ xs) h = drop_last n x xs (omega arith)

drop-drop : {A : Type 0} (n : ℕ) (xs : List A) → drop 1 (drop n xs) ≡ drop (suc n) xs
drop-drop zero xs = refl
drop-drop (suc n) [] = refl
drop-drop (suc n) (x ∷ xs) = drop-drop n xs

length-drop : {A : Type 0} (n : ℕ) (xs : List A) → length (drop n xs) ≡ length xs - n
length-drop zero xs = omega arith
length-drop (suc n) [] = omega arith
length-drop (suc n) (x ∷ xs) = length-drop n xs ∙ omega arith

length-last : {A : Type 0} (x : A) (xs : List A) → length (xs ++ x ∷ []) ≡ length xs + 1
length-last x [] = refl
length-last x (y ∷ xs) = omega (arith, length-last x xs)

latest-append :
    {A : Type 0} (x : A) (xs : List A) → trim (latest xs ++ x ∷ []) ≡ latest (xs ++ x ∷ [])
latest-append x xs =
    let n = length xs - snapshot_ring in
    let size : length (latest xs ++ x ∷ []) ≡ length xs - n + 1 =
      length-last x (latest xs) ∙ ap (λ m. m + 1) (length-drop n xs) in
    let grown = drop_last n x xs (omega arith) in
    elim (Bool-cases (ltb 30 (length (latest xs ++ x ∷ [])))) [
      | inl t ↦
          let full : 30 ≤ length xs =
            omega (arith, ltb→lt 30 (length (latest xs ++ x ∷ [])) t, size) in
          let e : suc n ≡ length (xs ++ x ∷ []) - 30 = omega (arith, length-last x xs) in
          rw t (
            ap (drop 1) (sym grown)
            ∙ drop-drop n (xs ++ x ∷ [])
            ∙ ap (λ m. drop m (xs ++ x ∷ [])) e)
      | inr t ↦
          let room : length xs < 30 =
            omega (arith, ltb_false→le 30 (length (latest xs ++ x ∷ [])) t, size) in
          let e : n ≡ length (xs ++ x ∷ []) - 30 = omega (arith, length-last x xs) in
          rw t (sym grown ∙ ap (λ m. drop m (xs ++ x ∷ [])) e)
    ]

module _ {R : Type 0} where
  abbrev again : ℕ → List (ℕ × List (BattlePlayer R)) → List (FrameSyncPush R)
  again id ring = map (λ e. record { frame = e.0; battle_id = id; players = e.1 }) ring

  length-again :
      (id : ℕ) (ring : List (ℕ × List (BattlePlayer R))) → length (again id ring) ≡ length ring
  length-again id [] = refl
  length-again id (e ∷ ring) = ap suc (length-again id ring)

  again-append :
      (id : ℕ) (e : ℕ × List (BattlePlayer R)) (ring : List (ℕ × List (BattlePlayer R)))
      → again id (ring ++ e ∷ [])
        ≡ again id ring ++ record { frame = e.0; battle_id = id; players = e.1 } ∷ []
  again-append id e [] = refl
  again-append id e (x ∷ ring) =
      ap (λ t. record { frame = x.0; battle_id = id; players = x.1 } ∷ t) (again-append id e ring)

  again-drop :
      (id : ℕ) (ring : List (ℕ × List (BattlePlayer R)))
      → again id (drop 1 ring) ≡ drop 1 (again id ring)
  again-drop id [] = refl
  again-drop id (e ∷ ring) = refl

module _ {R : Type 0} (F : Float32 R) where
  unfoldable pub after : Event R → Battle R → Battle R
  after (joins p) b = add_player F p b
  after (leaves pid) b = remove_player pid b
  after (inputs pid dx dy frame) b = input pid dx dy frame b
  after ticks b = tick_frame F b

  -- What an event broadcasts: a tick the new frame's snapshot.
  unfoldable pub shown : Event R → Battle R → List (FrameSyncPush R)
  shown (joins p) b = []
  shown (leaves pid) b = []
  shown (inputs pid dx dy frame) b = []
  shown ticks b = snapshot (tick_frame F b) ∷ []

  -- The battle after the events, and all that they broadcast, in order.
  unfoldable pub run : List (Event R) → Battle R → Battle R
  run [] b = b
  run (e ∷ es) b = run es (after e b)

  unfoldable pub all_shown : List (Event R) → Battle R → List (FrameSyncPush R)
  all_shown [] b = []
  all_shown (e ∷ es) b = shown e b ++ all_shown es (after e b)

  -- The ring, as it is replayed, is the latest of what was broadcast.
  abbrev replayed : Battle R → List (FrameSyncPush R)
  replayed b = again b.id b.ring

  record Remembers (sent : List (FrameSyncPush R)) (b : Battle R) : Type 0 where
    same : replayed b ≡ latest sent

  tick-replayed :
      (b : Battle R)
      → replayed (tick_frame F b) ≡ trim (replayed b ++ snapshot (tick_frame F b) ∷ [])
  unfolding tick_frame push_ring
  tick-replayed b =
      let c = tick_frame F b in
      let e : ℕ × List (BattlePlayer R) = (c.frame, protos c) in
      let grown : again b.id (b.ring ++ e ∷ []) ≡ replayed b ++ snapshot c ∷ [] =
        again-append b.id e b.ring in
      let size : length (b.ring ++ e ∷ []) ≡ length (replayed b ++ snapshot c ∷ []) =
        sym (length-again b.id (b.ring ++ e ∷ [])) ∙ ap length grown in
      elim (Bool-cases (ltb 30 (length (b.ring ++ e ∷ [])))) [
        | inl t ↦
            let t' : ltb 30 (length (replayed b ++ snapshot c ∷ [])) ≡ true =
              sym (ap (ltb 30) size) ∙ t in
            rw (t, t') (again-drop b.id (b.ring ++ e ∷ []) ∙ ap (drop 1) grown)
        | inr t ↦
            let t' : ltb 30 (length (replayed b ++ snapshot c ∷ [])) ≡ false =
              sym (ap (ltb 30) size) ∙ t in
            rw (t, t') grown
      ]

  tick-Remembers :
      (sent : List (FrameSyncPush R)) (b : Battle R)
      → Remembers sent b
      → Remembers (sent ++ snapshot (tick_frame F b) ∷ []) (tick_frame F b)
  tick-Remembers sent b v = record {
    same =
        tick-replayed b
        ∙ ap (λ r. trim (r ++ snapshot (tick_frame F b) ∷ [])) v.same
        ∙ latest-append (snapshot (tick_frame F b)) sent;
  }

  append_assoc : {A : Type 0} (a b c : List A) → (a ++ b) ++ c ≡ a ++ (b ++ c)
  append_assoc [] b c = refl
  append_assoc (x ∷ a) b c = ap (λ t. x ∷ t) (append_assoc a b c)

  append_nil : {A : Type 0} (a : List A) → a ++ [] ≡ a
  append_nil [] = refl
  append_nil (x ∷ a) = ap (λ t. x ∷ t) (append_nil a)

  after-Remembers :
      (e : Event R) (sent : List (FrameSyncPush R)) (b : Battle R)
      → Remembers sent b
      → Remembers (sent ++ shown e b) (after e b)
  unfolding after shown add_player remove_player input
  after-Remembers (joins p) sent b v = record { same = v.same ∙ sym (ap latest (append_nil sent)) }
  after-Remembers (leaves pid) sent b v = record {
    same = v.same ∙ sym (ap latest (append_nil sent));
  }
  after-Remembers (inputs pid dx dy frame) sent b v = record {
    same = v.same ∙ sym (ap latest (append_nil sent));
  }
  after-Remembers ticks sent b v = tick-Remembers sent b v

  run-Remembers :
      (es : List (Event R)) (sent : List (FrameSyncPush R)) (b : Battle R)
      → Remembers sent b
      → Remembers (sent ++ all_shown es b) (run es b)
  unfolding run all_shown
  run-Remembers [] sent b v = record { same = v.same ∙ sym (ap latest (append_nil sent)) }
  run-Remembers (e ∷ es) sent b v =
      let w = run-Remembers es (sent ++ shown e b) (after e b) (after-Remembers e sent b v) in
      record {
        same = w.same ∙ ap latest (append_assoc sent (shown e b) (all_shown es (after e b)));
      }

  retain-replayed :
      (b : Battle R) (last_frame : ℕ) (ring : List (ℕ × List (BattlePlayer R)))
      → again b.id (retain (λ e. ltb last_frame e.0) ring)
        ≡ retain (λ (f : FrameSyncPush R). ltb last_frame f.frame) (again b.id ring)
  unfolding retain
  retain-replayed b last_frame [] = refl
  retain-replayed b last_frame (e ∷ ring) = ground (arith, retain-replayed b last_frame ring)

  tick-frame : (b : Battle R) → (tick_frame F b).frame ≤ b.frame + 1
  unfolding tick_frame
  tick-frame b = omega arith

  after-IsRing :
      (e : Event R) (b : Battle R)
      → b.frame + 1 < 2 ^ 64
      → IsRing b
      → IsRing (after e b) × ((after e b).frame ≤ b.frame + 1)
  unfolding after add_player remove_player input
  after-IsRing (joins p) b small v = (record { frames = v.frames }, omega arith)
  after-IsRing (leaves pid) b small v = (record { frames = v.frames }, omega arith)
  after-IsRing (inputs pid dx dy frame) b small v = (record { frames = v.frames }, omega arith)
  after-IsRing ticks b small v = (tick_frame-IsRing F b small v, tick-frame b)

  run-IsRing :
      (es : List (Event R)) (b : Battle R)
      → b.frame + length es < 2 ^ 64
      → IsRing b
      → IsRing (run es b)
  unfolding run
  run-IsRing [] b small v = v
  run-IsRing (e ∷ es) b small v =
      let (w, step) = after-IsRing e b (omega arith) v in
      run-IsRing es (after e b) (omega (arith, step)) w

  -- A client that has seen frame `last_frame` is sent again exactly what the battle broadcast after
  -- it, as it was then, players and all, as far as that is among the last 30 broadcasts: the frames'
  -- numbers follow each other without a gap up to the present frame. This holds after any joining,
  -- leaving, inputs and ticks, fewer than 2^64, since the battle began.
  pub resync-run :
      (id last_frame : ℕ) (es : List (Event R))
      → length es < 2 ^ 64
      → let b = run es (new id) in
        let oldest = max (b.frame - min b.frame snapshot_ring) last_frame in
        (resync last_frame b
          ≡ retain
              (λ (f : FrameSyncPush R). ltb last_frame f.frame)
              (latest (all_shown es (new id))))
        × (map (λ (f : FrameSyncPush R). f.frame) (resync last_frame b)
            ≡ span oldest (b.frame - oldest))
  unfolding resync
  resync-run id last_frame es few =
      let b = run es (new id) in
      (
        retain-replayed b last_frame b.ring
            ∙ ap (retain (λ (f : FrameSyncPush R). ltb last_frame f.frame))
                (run-Remembers es [] (new id) (record { same = refl })).same,
        resync-frames b last_frame (run-IsRing es (new id) (omega arith) (IsRing-new id)),
      )
