-- ===== src/Svcfw/Profiles/Writes.antt =====
-- Creating profiles and recording games keep the cache of profiles in agreement with the table.
use grimoire.Prelude.{
  ◌≡◌, ◌≢◌, inl, inr, refl, sym, ap, ◌∙◌, subst, arith, Bool, true, false, if◌then◌else◌, Option,
  none, some, List, [], ◌∷◌, Text, Bool-cases,
}
use grimoire.Svcfw.Profiles.{
  Integers, Profile, Json, Redis, Postgres, Stores, named_row, key, refill, drop_cached, win_of,
  cache_set, create, record_game,
}
use grimoire.Svcfw.Profiles.Coherence.{IsCoherentAt, IsCoherent, set_json-row, cache_set-IsCoherent}

module _ {I D R : Type 0} (z : Integers I) (json : Json I) (db : Postgres z D)
    (cache : Redis R) where
  -- A row that changed: what the cache holds for the other players still agrees.
  same_row :
      (other : I) (d : D) (s : Stores D R)
      → db.row d other ≡ db.row s.pg other
      → IsCoherentAt z json db cache s other
      → IsCoherentAt z json db cache (record s { pg = d }) other
  same_row other d s e c = λ text p q f. e ∙ c text p q f

  created-IsCoherent :
      (player_id : I) (name : Text) (o : Option (Profile I)) (s : Stores D R)
      → (db.upsert_name player_id name s.pg).0 ≡ o
      → IsCoherent z json db cache s
      → ((p : Profile I) (t : Stores D R) → (cache_set z json db cache p t).0 ≡ true)
      → let t =
          refill z json db cache o (record s { pg = (db.upsert_name player_id name s.pg).1 }) in
        IsCoherent z json db cache t.1
        × ((p : Profile I)
            → t.0 ≡ some p
            → (p ≡ named_row z player_id name (db.row s.pg player_id))
              × (db.row t.1.pg player_id ≡ some p))
  unfolding cache_set
  created-IsCoherent player_id name none s e c up =
      let d = (db.upsert_name player_id name s.pg).1 in
      (
        λ other. same_row other d s (db.upsert_name-none player_id other name s.pg e) (c other),
        λ p f. absurd (ground arith),
      )
  created-IsCoherent player_id name (some p) s e c up =
      let d = (db.upsert_name player_id name s.pg).1 in
      let t : Stores D R = record s { pg = d } in
      let (a, b) = db.upsert_name-some player_id name s.pg p e in
      let same_id = db.select-id player_id d p b in
      (
        cache_set-IsCoherent z json db cache p t
            (λ other ne.
              same_row other d s
                (db.upsert_name-other player_id other name s.pg (subst (λ i. other ≢ i) same_id ne))
                (c other))
            (subst (λ i. db.row d i ≡ some p) (sym same_id) b) (inr (up p t)),
        λ q f.
            let same : p ≡ q = ground arith in
            (
              sym same ∙ a,
              ap (λ k. db.row k player_id) (set_json-row z json db cache p (json.to_string p) t)
                  ∙ b
                  ∙ ap some same,
            ),
      )

  -- Where the cache agrees with the table and can be written, it agrees with the table after a
  -- profile was created, or failed to be, too; a created profile has the given name, and the games
  -- and wins that the player had before.
  pub create-IsCoherent :
      (player_id : I) (name : Text) (s : Stores D R)
      → IsCoherent z json db cache s
      → ((p : Profile I) (t : Stores D R) → (cache_set z json db cache p t).0 ≡ true)
      → let t = create z json db cache player_id name s in
        IsCoherent z json db cache t.1
        × ((p : Profile I)
            → t.0 ≡ some p
            → (p ≡ named_row z player_id name (db.row s.pg player_id))
              × (db.row t.1.pg player_id ≡ some p))
  unfolding create
  create-IsCoherent player_id name s c up =
      created-IsCoherent player_id name (db.upsert_name player_id name s.pg).0 s refl c up

  dropped_at :
      (player_id other : I) (d : D) (s : Stores D R)
      → ((key' : Text) (r : R) → (cache.del key' r).0 ≡ true)
      → (other ≢ player_id → db.row d other ≡ db.row s.pg other)
      → IsCoherent z json db cache s
      → IsCoherentAt z json db cache
          (drop_cached z json db cache player_id (record s { pg = d }))
          other
  dropped_at player_id other d s up e c = λ text p q f.
      elim (Bool-cases (z.equals other player_id)) [
        | inl t ↦
            let same_key : cache.get (key z json db cache player_id)
                  (cache.del (key z json db cache player_id) s.redis).1
                ≡ some text =
              subst
                (λ i.
                  cache.get (key z json db cache i)
                    (cache.del (key z json db cache player_id) s.redis).1
                  ≡ some text)
                (z.equals-true other player_id t) q in
            let gone =
              cache.get-del_done (key z json db cache player_id) s.redis
                (up (key z json db cache player_id) s.redis) in
            absurd (ground (arith, gone, same_key))
        | inr n ↦
            e (z.equals-false other player_id n)
            ∙ c other text p
                (cache.get-del (key z json db cache player_id) (key z json db cache other) text
                  s.redis q)
                f
      ]

  pub record_game-IsCoherent :
      (players : List I) (winner : I) (s : Stores D R)
      → IsCoherent z json db cache s
      → ((key' : Text) (r : R) → (cache.del key' r).0 ≡ true)
      → IsCoherent z json db cache (record_game z json db cache players winner s).1
  unfolding record_game
  record_game-IsCoherent [] winner s c up = c
  record_game-IsCoherent (player_id ∷ players) winner s c up =
      let win = win_of z json db cache winner player_id in
      let d = (db.count player_id win s.pg).1 in
      let s' = drop_cached z json db cache player_id (record s { pg = d }) in
      let rest = record_game z json db cache players winner s' in
      let stop : Bool × Stores D R = (false, record s { pg = d }) in
      elim (Bool-cases (db.count player_id win s.pg).0) [
        | inl t ↦
            subst (λ b. IsCoherent z json db cache (if b then rest else stop).1) (sym t)
              (record_game-IsCoherent players winner s'
                (λ other.
                  dropped_at player_id other d s up (db.count-other player_id other win s.pg) c)
                up)
        | inr t ↦
            subst (λ b. IsCoherent z json db cache (if b then rest else stop).1) (sym t)
              (λ other. same_row other d s (db.count-false player_id other win s.pg t) (c other))
      ]
