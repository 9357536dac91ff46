-- ===== src/Svcfw/Profiles/Games.antt =====
-- What recording a game does to the players' profiles.
use grimoire.Prelude.{
  Option, codes, ◌≡◌, ◌≢◌, inl, inr, refl, sym, ap, ◌∙◌, subst, arith, Bool, true, if◌then◌else◌,
  none, some, List, [], ◌∷◌, Text, Has,
}
use grimoire.Svcfw.Profiles.{
  Integers, Profile, Json, Redis, Postgres, Stores, counted_row, drop_cached, win_of, load,
  record_game,
}
use grimoire.Svcfw.Profiles.Coherence.{IsCoherent, load-row}
use grimoire.Svcfw.Profiles.Writes.{record_game-IsCoherent}

abbrev pub IsDistinct : {I : Type 0} → List I → Type 0
IsDistinct [] = Unit {0}
IsDistinct (x ∷ xs) = ¬ Has x xs × IsDistinct xs

module _ {I D R : Type 0} (z : Integers I) (json : Json I) (db : Postgres z D)
    (cache : Redis R) where
  -- One player's turn in the loop.
  record_game-true :
      (player_id : I) (players : List I) (winner : I) (s : Stores D R)
      → (record_game z json db cache (player_id ∷ players) winner s).0 ≡ true
      → let (done, d) = db.count player_id (win_of z json db cache winner player_id) s.pg in
        let t = drop_cached z json db cache player_id (record s { pg = d }) in
        (done ≡ true)
        × (record_game z json db cache (player_id ∷ players) winner s
            ≡ record_game z json db cache players winner t)
  unfolding record_game
  record_game-true player_id players winner s h = ground arith

  -- The other players' rows stay.
  record_game-other :
      (players : List I) (other winner : I) (s : Stores D R)
      → ¬ Has other players
      → (record_game z json db cache players winner s).0 ≡ true
      → db.row (record_game z json db cache players winner s).1.pg other ≡ db.row s.pg other
  unfolding record_game
  record_game-other [] other winner s n h = refl
  record_game-other (player_id ∷ players) other winner s n h =
      let win = win_of z json db cache winner player_id in
      let t =
        drop_cached z json db cache player_id (record s { pg = (db.count player_id win s.pg).1 }) in
      let (done, next) = record_game-true player_id players winner s h in
      ap (λ (x : Bool × Stores D R). db.row x.1.pg other) next
      ∙ record_game-other players other winner t (λ k. n (inr k))
          (sym (ap (λ (x : Bool × Stores D R). x.0) next) ∙ h)
      ∙ db.count-other player_id other win s.pg (λ e. n (inl e))

  record_game-row :
      (players : List I) (player_id winner : I) (s : Stores D R)
      → Has player_id players
      → IsDistinct players
      → (record_game z json db cache players winner s).0 ≡ true
      → db.row (record_game z json db cache players winner s).1.pg player_id
        ≡ some (
            counted_row z player_id
              (win_of z json db cache winner player_id)
              (db.row s.pg player_id))
  record_game-row [] player_id winner s there u h = elim there [ ]
  record_game-row (first ∷ players) player_id winner s (inl e) (n, u) h =
      let win = win_of z json db cache winner first in
      let t = drop_cached z json db cache first (record s { pg = (db.count first win s.pg).1 }) in
      let (done, next) = record_game-true first players winner s h in
      let own =
        ap (λ (x : Bool × Stores D R). db.row x.1.pg first) next
        ∙ record_game-other players first winner t n
            (sym (ap (λ (x : Bool × Stores D R). x.0) next) ∙ h)
        ∙ db.count-true first win s.pg done in
      subst
        (λ i.
          db.row (record_game z json db cache (first ∷ players) winner s).1.pg i
          ≡ some (counted_row z i (win_of z json db cache winner i) (db.row s.pg i)))
        (sym e) own
  record_game-row (first ∷ players) player_id winner s (inr k) (n, u) h =
      let win = win_of z json db cache winner first in
      let t = drop_cached z json db cache first (record s { pg = (db.count first win s.pg).1 }) in
      let (done, next) = record_game-true first players winner s h in
      let ne : player_id ≢ first = λ e. n (subst (λ i. Has i players) e k) in
      ap (λ (x : Bool × Stores D R). db.row x.1.pg player_id) next
      ∙ record_game-row players player_id winner t k u
          (sym (ap (λ (x : Bool × Stores D R). x.0) next) ∙ h)
      ∙ ap (λ o. some (counted_row z player_id (win_of z json db cache winner player_id) o))
          (db.count-other first player_id win s.pg ne)

  recorded_load :
      (players : List I) (player_id winner : I) (s : Stores D R)
      → IsCoherent z json db cache s
      → Has player_id players
      → IsDistinct players
      → ((key : Text) (r : R) → (cache.del key r).0 ≡ true)
      → ((d : D) → db.select player_id d ≡ db.row d player_id)
      → (record_game z json db cache players winner s).0 ≡ true
      → (load z json db cache player_id (record_game z json db cache players winner s).1).0
        ≡ some (
            counted_row z player_id
              (if z.equals player_id winner then z.one else z.zero)
              (db.row s.pg player_id))
  recorded_load players player_id winner s c there u del up h =
      let t = (record_game z json db cache players winner s).1 in
      let c' = record_game-IsCoherent z json db cache players winner s c del in
      (load-row z json db cache player_id t c' (up t.pg)).0
      ∙ record_game-row players player_id winner s there u h

  counted_lem :
      (player_id win : I) (o : Option (Profile I))
      → counted_row z player_id win o ≡ (elim o [
        | none ↦ record {
          player_id = player_id;
          name = codes "grimoire";
          games = z.zero;
          wins = z.zero;
        }
        | some p ↦ record p { games = z.plus p.games z.one; wins = z.plus p.wins win }
      ])
  unfolding counted_row
  counted_lem player_id win none = refl
  counted_lem player_id win (some p) = refl

  -- A recorded game shows in what is loaded afterwards, although profiles are cached: where the cache
  -- agreed with the table, entries can be deleted and the table can be read, each of the players, who
  -- differ, is found with one game more than the row had, and with one win more if the player is the
  -- winner. A player who had no row, the winner too, is found with no games and no wins.
  pub record_game-load :
      (players : List I) (player_id winner : I) (s : Stores D R)
      → IsCoherent z json db cache s
      → Has player_id players
      → IsDistinct players
      → ((key : Text) (r : R) → (cache.del key r).0 ≡ true)
      → ((d : D) → db.select player_id d ≡ db.row d player_id)
      → (record_game z json db cache players winner s).0 ≡ true
      → (load z json db cache player_id (record_game z json db cache players winner s).1).0
        ≡ some (elim (db.row s.pg player_id) [
          | none ↦ record {
            player_id = player_id;
            name = codes "grimoire";
            games = z.zero;
            wins = z.zero;
          }
          | some p ↦ record p {
            games = z.plus p.games z.one;
            wins = z.plus p.wins (if z.equals player_id winner then z.one else z.zero);
          }
        ])
  record_game-load players player_id winner s c there u del up h =
      recorded_load players player_id winner s c there u del up h
      ∙ ap some (
          counted_lem player_id (if z.equals player_id winner then z.one else z.zero)
            (db.row s.pg player_id))

  -- The bug: the statement's insertion does not count. A player whose first game is recorded, won or
  -- lost, is found afterwards with no games and no wins.
  pub first_game_uncounted :
      (players : List I) (player_id winner : I) (s : Stores D R)
      → IsCoherent z json db cache s
      → Has player_id players
      → IsDistinct players
      → ((key : Text) (r : R) → (cache.del key r).0 ≡ true)
      → ((d : D) → db.select player_id d ≡ db.row d player_id)
      → (record_game z json db cache players winner s).0 ≡ true
      → db.row s.pg player_id ≡ none
      → (p : Profile I) × ((load z json db cache player_id
            (record_game z json db cache players winner s).1).0
          ≡ some p)
        × (p.games ≡ z.zero)
        × (p.wins ≡ z.zero)
  unfolding counted_row
  first_game_uncounted players player_id winner s c there u del up h none_yet =
      let win = win_of z json db cache winner player_id in
      (
        counted_row z player_id win none,
        recorded_load players player_id winner s c there u del up h
            ∙ ap (λ o. some (counted_row z player_id win o)) none_yet,
        refl,
        refl,
      )
