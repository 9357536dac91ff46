-- ===== src/Svcfw/Profiles/Coherence.antt =====
-- What the cache of profiles holds.
use grimoire.Prelude.{
  ◌≡◌, ◌≢◌, ◌⊎◌, inl, inr, refl, sym, ap, ◌∙◌, subst, arith, true, Option, none, some, List, [],
  ◌∷◌, ◌++◌, Text, codes, Bool-cases,
}
use grimoire.Svcfw.Profiles.{
  Integers, Profile, Json, Redis, Postgres, Stores, key, set_json, refill, load_by, parse,
  redis_ttl_secs, cache_set, load,
}

append-cancel : {A : Type 0} (xs ys zs : List A) → xs ++ ys ≡ xs ++ zs → ys ≡ zs
append-cancel [] ys zs e = e
append-cancel (x ∷ xs) ys zs e = append-cancel xs ys zs cc

module _ {I D R : Type 0} (z : Integers I) (json : Json I) (db : Postgres z D)
    (cache : Redis R) where
  -- What the cache holds for a player is the player's row.
  abbrev pub IsCoherentAt : Stores D R → I → Type 0
  IsCoherentAt s player_id =
      (text : Text) (p : Profile I)
      → cache.get (key z json db cache player_id) s.redis ≡ some text
      → json.from_str text ≡ some p
      → db.row s.pg player_id ≡ some p

  abbrev pub IsCoherent : Stores D R → Type 0
  IsCoherent s = (player_id : I) → IsCoherentAt s player_id

  key_injective : (a b : I) → key z json db cache a ≡ key z json db cache b → a ≡ b
  unfolding key
  key_injective a b e =
      z.digits_injective a b (append-cancel (codes "grimoire:profile:") (z.digits a) (z.digits b) e)

  -- Writing a player's row into the cache leaves the other players' entries.
  set_json-other :
      (p : Profile I) (other : I) (o : Option Text) (s : Stores D R)
      → other ≢ p.player_id
      → IsCoherentAt s other
      → IsCoherentAt (set_json z json db cache p o s).1 other
  set_json-other p other none s ne c = c
  set_json-other p other (some t) s ne c = λ text q e f.
      elim (cache.get-setex (key z json db cache p.player_id) (key z json db cache other) t text
        redis_ttl_secs s.redis e) [
          | inl (same_key, w) ↦ absurd (ne (key_injective other p.player_id same_key))
          | inr old ↦ c text q old f
        ]

  -- If it succeeds, or what was there was right, then what is there is right.
  set_json-own :
      (p : Profile I) (o : Option Text) (s : Stores D R)
      → json.to_string p ≡ o
      → db.row s.pg p.player_id ≡ some p
      → IsCoherentAt s p.player_id ⊎ ((set_json z json db cache p o s).0 ≡ true)
      → IsCoherentAt (set_json z json db cache p o s).1 p.player_id
  set_json-own p none s t r (inl c) = c
  set_json-own p none s t r (inr d) = absurd (ground arith)
  set_json-own p (some v) s t r (inl c) = λ text q e f.
      elim (cache.get-setex (key z json db cache p.player_id) (key z json db cache p.player_id) v
        text redis_ttl_secs s.redis e) [
          | inl (same_key, w) ↦
              let read : json.from_str text ≡ some p =
                ap json.from_str w ∙ json.from_str-to_string p v t in
              r ∙ sym read ∙ f
          | inr old ↦ c text q old f
        ]
  set_json-own p (some v) s t r (inr d) = λ text q e f.
      let w =
        cache.get-setex_done (key z json db cache p.player_id) v text redis_ttl_secs s.redis d e in
      r ∙ sym (ap json.from_str w ∙ json.from_str-to_string p v t) ∙ f

  pub set_json-row :
      (p : Profile I) (o : Option Text) (s : Stores D R)
      → (set_json z json db cache p o s).1.pg ≡ s.pg
  set_json-row p none s = refl
  set_json-row p (some t) s = refl

  -- A row that was read is cached.
  pub cache_set-IsCoherent :
      (p : Profile I) (s : Stores D R)
      → ((other : I) → other ≢ p.player_id → IsCoherentAt s other)
      → db.row s.pg p.player_id ≡ some p
      → IsCoherentAt s p.player_id ⊎ ((cache_set z json db cache p s).0 ≡ true)
      → IsCoherent (cache_set z json db cache p s).1
  unfolding cache_set
  cache_set-IsCoherent p s others r c player_id =
      elim (Bool-cases (z.equals player_id p.player_id)) [
        | inl e ↦
            subst (IsCoherentAt (cache_set z json db cache p s).1)
              (sym (z.equals-true player_id p.player_id e))
              (set_json-own p (json.to_string p) s refl r c)
        | inr e ↦
            let ne = z.equals-false player_id p.player_id e in
            set_json-other p player_id (json.to_string p) s ne (others player_id ne)
      ]

  refill-IsCoherent :
      (player_id : I) (o : Option (Profile I)) (s : Stores D R)
      → db.select player_id s.pg ≡ o
      → IsCoherent s
      → ((refill z json db cache o s).0 ≡ o) × IsCoherent (refill z json db cache o s).1
  refill-IsCoherent player_id none s e c = (refl, c)
  refill-IsCoherent player_id (some p) s e c =
      let r = db.select-row player_id s.pg p e in
      let own : db.row s.pg p.player_id ≡ some p =
        subst (λ i. db.row s.pg i ≡ some p) (sym (db.select-id player_id s.pg p r)) r in
      (refl, cache_set-IsCoherent p s (λ other ne. c other) own (inl (c p.player_id)))

  parse-some :
      (o : Option Text) (p : Profile I)
      → parse z json db cache o ≡ some p
      → (text : Text) × (o ≡ some text) × (json.from_str text ≡ some p)
  parse-some none p e = absurd (ground arith)
  parse-some (some text) p e = (text, refl, e)

  load_by-row :
      (player_id : I) (o : Option (Profile I)) (s : Stores D R)
      → parse z json db cache (cache.get (key z json db cache player_id) s.redis) ≡ o
      → IsCoherent s
      → db.select player_id s.pg ≡ db.row s.pg player_id
      → ((load_by z json db cache player_id o s).0 ≡ db.row s.pg player_id)
        × IsCoherent (load_by z json db cache player_id o s).1
  load_by-row player_id (some p) s e c up =
      let (text, q, f) = parse-some (cache.get (key z json db cache player_id) s.redis) p e in
      (sym (c player_id text p q f), c)
  load_by-row player_id none s e c up =
      let (same_row, c') = refill-IsCoherent player_id (db.select player_id s.pg) s refl c in
      (same_row ∙ up, c')

  -- Where the cache agrees with the table and the table can be read, loading a profile gives the
  -- player's row, as reading the table alone does, and the cache still agrees with the table.
  pub load-row :
      (player_id : I) (s : Stores D R)
      → IsCoherent s
      → db.select player_id s.pg ≡ db.row s.pg player_id
      → ((load z json db cache player_id s).0 ≡ db.row s.pg player_id)
        × IsCoherent (load z json db cache player_id s).1
  unfolding load
  load-row player_id s c up =
      load_by-row player_id
        (parse z json db cache (cache.get (key z json db cache player_id) s.redis)) s refl c up
