-- ===== src/Battle/Snapshots.antt =====
-- The ring of snapshots and what a client that missed frames gets.
use grimoire.Prelude.{
  ℕ, zero, suc, ◌+◌, ◌-◌, ◌%◌, ◌^◌, ◌<◌, ◌≤◌, ◌≡◌, refl, sym, ap, ◌∙◌, arith, min, max, ltb, ltb→lt,
  ltb_false→le, inl, inr, Bool-cases, List, [], ◌∷◌, ◌++◌, map, length, drop, retain,
}
use mathlib.Core.List.{map-append}
use grimoire.Battle.{
  Float32, Battle, BattlePlayer, FrameSyncPush, new, push_ring, tick_frame, resync, snapshot_ring,
}

-- The `n` frames after frame `s`.
abbrev pub span : ℕ → ℕ → List ℕ
span s zero = []
span s (suc n) = (s + 1) ∷ span (s + 1) n

span-append : (s n : ℕ) → span s n ++ (s + n + 1) ∷ [] ≡ span s (suc n)
span-append s zero = ap (λ t. t ∷ []) (omega arith)
span-append s (suc n) =
    ap (λ t. (s + 1) ∷ t) (ap (λ t. span (s + 1) n ++ t ∷ []) (omega arith) ∙ span-append (s + 1) n)

length-span : (s n : ℕ) → length (span s n) ≡ n
length-span s zero = refl
length-span s (suc n) = ap suc (length-span (s + 1) n)

span_cong : (s s' n n' : ℕ) → s ≡ s' → n ≡ n' → span s n ≡ span s' n'
span_cong s s' n n' p q = rw (p, q)

retain-span :
    (s n last : ℕ) → retain (λ f. ltb last f) (span s n) ≡ span (max s last) (s + n - max s last)
unfolding retain
retain-span s zero last =
    span_cong (max s last) (max s last) 0 (s + 0 - max s last) refl (omega arith)
retain-span s (suc n) last = elim (Bool-cases (ltb last (s + 1))) [
  | inl t ↦
      let old : last < s + 1 = ltb→lt last (s + 1) t in
      rw t (
        ap (λ r. (s + 1) ∷ r)
          (retain-span (s + 1) n last
            ∙ span_cong (max (s + 1) last) (s + 1) (s + 1 + n - max (s + 1) last) n (omega arith)
                (omega arith))
        ∙ span_cong s (max s last) (suc n) (s + suc n - max s last) (omega arith) (omega arith))
  | inr f ↦
      let new : s + 1 ≤ last = ltb_false→le last (s + 1) f in
      rw f (
        retain-span (s + 1) n last
        ∙ span_cong (max (s + 1) last) (max s last) (s + 1 + n - max (s + 1) last)
            (s + suc n - max s last) (omega arith) (omega arith))
]

module _ {R : Type 0} where
  abbrev frames_of : List (ℕ × List (BattlePlayer R)) → List ℕ
  frames_of ring = map (λ e. e.0) ring

  -- The ring holds the last frames up to the present one, in order: 30, or all there were.
  pub record IsRing (b : Battle R) : Type 0 where
    pub frames :
        frames_of b.ring ≡ span (b.frame - min b.frame snapshot_ring) (min b.frame snapshot_ring)

  pub IsRing-new : (id : ℕ) → IsRing (new {R = R} id)
  IsRing-new id = record { frames = refl }

  length-frames : (ring : List (ℕ × List (BattlePlayer R))) → length (frames_of ring) ≡ length ring
  length-frames [] = refl
  length-frames (e ∷ ring) = ap suc (length-frames ring)

  map-retain :
      (last : ℕ) (ring : List (ℕ × List (BattlePlayer R)))
      → frames_of (retain (λ e. ltb last e.0) ring) ≡ retain (λ f. ltb last f) (frames_of ring)
  unfolding retain
  map-retain last [] = refl
  map-retain last (e ∷ ring) = ground (arith, map-retain last ring)

  frames-drop :
      (ring : List (ℕ × List (BattlePlayer R))) → frames_of (drop 1 ring) ≡ drop 1 (frames_of ring)
  frames-drop [] = refl
  frames-drop (e ∷ ring) = refl

  frames-append :
      (e : ℕ × List (BattlePlayer R)) (ring : List (ℕ × List (BattlePlayer R))) (s n : ℕ)
      → e.0 ≡ s + n + 1
      → frames_of ring ≡ span s n
      → frames_of (ring ++ e ∷ []) ≡ span s (suc n)
  frames-append e ring s n h q =
      map-append (λ e. e.0) ring (e ∷ [])
      ∙ ap (λ t. t ++ e.0 ∷ []) q
      ∙ ap (λ t. span s n ++ t ∷ []) h
      ∙ span-append s n

  push_ring-frames :
      (e : ℕ × List (BattlePlayer R)) (ring : List (ℕ × List (BattlePlayer R))) (f : ℕ)
      → e.0 ≡ f + 1
      → frames_of ring ≡ span (f - min f snapshot_ring) (min f snapshot_ring)
      → frames_of (push_ring e ring)
        ≡ span (f + 1 - min (f + 1) snapshot_ring) (min (f + 1) snapshot_ring)
  unfolding push_ring
  push_ring-frames e ring f h q =
      let n = min f snapshot_ring in
      let grown : frames_of (ring ++ e ∷ []) ≡ span (f - n) (suc n) =
        frames-append e ring (f - n) n (h ∙ omega arith) q in
      let size : length (ring ++ e ∷ []) ≡ suc n =
        sym (length-frames (ring ++ e ∷ [])) ∙ ap length grown ∙ length-span (f - n) (suc n) in
      elim (Bool-cases (ltb 30 (length (ring ++ e ∷ [])))) [
        | inl t ↦
            let full : 30 < suc n = omega (arith, ltb→lt 30 (length (ring ++ e ∷ [])) t, size) in
            rw t (
              frames-drop (ring ++ e ∷ [])
              ∙ ap (λ (l : List ℕ). drop 1 l) grown
              ∙ span_cong (f - n + 1) (f + 1 - min (f + 1) snapshot_ring) n
                  (min (f + 1) snapshot_ring) (omega arith) (omega arith))
        | inr t ↦
            let room : suc n ≤ 30 =
              omega (arith, ltb_false→le 30 (length (ring ++ e ∷ [])) t, size) in
            rw t (
              grown
              ∙ span_cong (f - n) (f + 1 - min (f + 1) snapshot_ring) (suc n)
                  (min (f + 1) snapshot_ring) (omega arith) (omega arith))
      ]

  frames-resync :
      (b : Battle R) (ring : List (ℕ × List (BattlePlayer R)))
      → map
          (λ (f : FrameSyncPush R). f.frame)
          (map (λ e. record { frame = e.0; battle_id = b.id; players = e.1 }) ring)
        ≡ frames_of ring
  frames-resync b [] = refl
  frames-resync b (e ∷ ring) = ap (λ t. e.0 ∷ t) (frames-resync b ring)

  -- A client that has seen frame `last_frame` gets, of the frames that the ring holds, exactly the
  -- later ones, in order and without a gap, up to the present frame.
  pub resync-frames :
      (b : Battle R) (last_frame : ℕ)
      → IsRing b
      → map (λ (f : FrameSyncPush R). f.frame) (resync last_frame b)
        ≡ span
            (max (b.frame - min b.frame snapshot_ring) last_frame)
            (b.frame - max (b.frame - min b.frame snapshot_ring) last_frame)
  unfolding resync
  resync-frames b last_frame v =
      let n = min b.frame snapshot_ring in
      let s = b.frame - n in
      frames-resync b (retain (λ e. ltb last_frame e.0) b.ring)
      ∙ map-retain last_frame b.ring
      ∙ ap (retain (λ f. ltb last_frame f)) v.frames
      ∙ retain-span s n last_frame
      ∙ span_cong (max s last_frame) (max s last_frame) (s + n - max s last_frame)
          (b.frame - max s last_frame) refl (omega arith)

module _ {R : Type 0} (F : Float32 R) where
  -- Each tick adds its frame to the ring, and drops the oldest when there are more than 30.
  pub tick_frame-IsRing : (b : Battle R) → b.frame + 1 < 2 ^ 64 → IsRing b → IsRing (tick_frame F b)
  unfolding tick_frame
  tick_frame-IsRing b small v =
      let next : (b.frame + 1) % 2 ^ 64 ≡ b.frame + 1 = omega arith in
      record { frames = rw next (push_ring-frames _ b.ring b.frame refl v.frames) }
