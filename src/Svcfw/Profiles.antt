-- ===== src/Svcfw/Profiles.antt =====
-- crates/grimoire-svcfw/src/profile.rs: profiles in a table, with a cache before it. The databases'
-- clients are an interface, and so are 64-bit integers and the JSON coding.
pub mod Coherence
pub mod Writes
pub mod Games
use grimoire.Prelude.{
  ℕ, ◌≡◌, ◌≢◌, ◌⊎◌, Bool, true, false, if◌then◌else◌, Option, none, some, List, [], ◌∷◌, ◌++◌, Text,
  codes,
}

-- `i64`, with its decimal digits.
pub record Integers (I : Type 0) : Type 0 where
  pub zero : I
  pub one : I
  pub plus : I → I → I
  pub equals : I → I → Bool
  pub equals-true : (a b : I) → equals a b ≡ true → a ≡ b
  pub equals-false : (a b : I) → equals a b ≡ false → a ≢ b
  pub digits : I → Text
  pub digits_injective : (a b : I) → digits a ≡ digits b → a ≡ b

pub record Profile (I : Type 0) : Type 0 where
  pub player_id : I
  pub name : Text
  pub games : I
  pub wins : I

-- `serde_json`: what is written reads back.
pub record Json (I : Type 0) : Type 0 where
  pub to_string : Profile I → Option Text
  pub from_str : Text → Option (Profile I)
  pub from_str-to_string :
      (p : Profile I) (json : Text) → to_string p ≡ some json → from_str json ≡ some p

-- The commands for Redis over its state. `get` answers none for an error too; a command answers
-- whether it succeeded. Whatever it answers, a key has at most the new value or the old one, since a
-- value may expire.
pub record Redis (R : Type 0) : Type 0 where
  pub get : Text → R → Option Text
  pub setex : Text → ℕ → Text → R → Bool × R
  pub del : Text → R → Bool × R
  pub get-setex :
      (key key' v w : Text) (ttl : ℕ) (r : R)
      → get key' (setex key ttl v r).1 ≡ some w
      → ((key' ≡ key) × (w ≡ v)) ⊎ (get key' r ≡ some w)
  pub get-setex_done :
      (key v w : Text) (ttl : ℕ) (r : R)
      → (setex key ttl v r).0 ≡ true
      → get key (setex key ttl v r).1 ≡ some w
      → w ≡ v
  pub get-del : (key key' w : Text) (r : R) → get key' (del key r).1 ≡ some w → get key' r ≡ some w
  pub get-del_done : (key : Text) (r : R) → (del key r).0 ≡ true → get key (del key r).1 ≡ none

-- What the statement of `create` makes of a player's row, and what that of `record_game` makes of it.
unfoldable pub named_row : {I : Type 0} → Integers I → I → Text → Option (Profile I) → Profile I
named_row z player_id name none = record {
  player_id = player_id;
  name = name;
  games = z.zero;
  wins = z.zero;
}
named_row z player_id name (some p) = record p { name = name }

unfoldable pub counted_row : {I : Type 0} → Integers I → I → I → Option (Profile I) → Profile I
counted_row z player_id win none = record {
  player_id = player_id;
  name = codes "grimoire";
  games = z.zero;
  wins = z.zero;
}
counted_row z player_id win (some p) = record p {
  games = z.plus p.games z.one;
  wins = z.plus p.wins win;
}

-- The statements for Postgres over its state; `row` is the table. A statement that fails leaves the
-- table as it is.
pub record Postgres {I : Type 0} (z : Integers I) (D : Type 0) : Type 0 where
  pub row : D → I → Option (Profile I)
  pub select : I → D → Option (Profile I)
  pub select-row :
      (player_id : I) (d : D) (p : Profile I)
      → select player_id d ≡ some p
      → row d player_id ≡ some p
  pub select-id :
      (player_id : I) (d : D) (p : Profile I) → row d player_id ≡ some p → p.player_id ≡ player_id
  pub upsert_name : I → Text → D → Option (Profile I) × D
  pub upsert_name-some :
      (player_id : I) (name : Text) (d : D) (p : Profile I)
      → (upsert_name player_id name d).0 ≡ some p
      → (p ≡ named_row z player_id name (row d player_id))
        × (row (upsert_name player_id name d).1 player_id ≡ some p)
  pub upsert_name-other :
      (player_id other : I) (name : Text) (d : D)
      → other ≢ player_id
      → row (upsert_name player_id name d).1 other ≡ row d other
  pub upsert_name-none :
      (player_id other : I) (name : Text) (d : D)
      → (upsert_name player_id name d).0 ≡ none
      → row (upsert_name player_id name d).1 other ≡ row d other
  pub count : I → I → D → Bool × D
  pub count-true :
      (player_id win : I) (d : D)
      → (count player_id win d).0 ≡ true
      → row (count player_id win d).1 player_id
        ≡ some (counted_row z player_id win (row d player_id))
  pub count-other :
      (player_id other win : I) (d : D)
      → other ≢ player_id
      → row (count player_id win d).1 other ≡ row d other
  pub count-false :
      (player_id other win : I) (d : D)
      → (count player_id win d).0 ≡ false
      → row (count player_id win d).1 other ≡ row d other

abbrev pub redis_ttl_secs : ℕ
redis_ttl_secs = 60

-- The two databases.
pub record Stores (D R : Type 0) : Type 0 where
  pub pg : D
  pub redis : R

module _ {I D R : Type 0} (z : Integers I) (json : Json I) (db : Postgres z D)
    (cache : Redis R) where
  unfoldable pub key : I → Text
  key player_id = codes "grimoire:profile:" ++ z.digits player_id

  abbrev pub set_json : Profile I → Option Text → Stores D R → Bool × Stores D R
  set_json p none s = (false, s)
  set_json p (some text) s =
      let (done, r) = cache.setex (key p.player_id) redis_ttl_secs text s.redis in
      (done, record s { redis = r })

  -- Whether the cache has it is told beside the state; the code only warns.
  unfoldable pub cache_set : Profile I → Stores D R → Bool × Stores D R
  cache_set p s = set_json p (json.to_string p) s

  abbrev pub parse : Option Text → Option (Profile I)
  parse none = none
  parse (some text) = json.from_str text

  abbrev pub refill : Option (Profile I) → Stores D R → Option (Profile I) × Stores D R
  refill none s = (none, s)
  refill (some p) s = (some p, (cache_set p s).1)

  -- By what the cache gave.
  abbrev pub load_by : I → Option (Profile I) → Stores D R → Option (Profile I) × Stores D R
  load_by player_id (some p) s = (some p, s)
  load_by player_id none s = refill (db.select player_id s.pg) s

  unfoldable pub load : I → Stores D R → Option (Profile I) × Stores D R
  load player_id s = load_by player_id (parse (cache.get (key player_id) s.redis)) s

  -- None is an error.
  unfoldable pub create : I → Text → Stores D R → Option (Profile I) × Stores D R
  create player_id name s =
      let (p, d) = db.upsert_name player_id name s.pg in refill p (record s { pg = d })

  abbrev pub win_of : I → I → I
  win_of winner player_id = if z.equals player_id winner then z.one else z.zero

  abbrev pub drop_cached : I → Stores D R → Stores D R
  drop_cached player_id s = record s { redis = (cache.del (key player_id) s.redis).1 }

  -- Whether every statement succeeded; the first that fails ends the loop.
  unfoldable pub record_game : List I → I → Stores D R → Bool × Stores D R
  record_game [] winner s = (true, s)
  record_game (player_id ∷ players) winner s =
      let (done, d) = db.count player_id (win_of winner player_id) s.pg in
      let rest = record_game players winner (drop_cached player_id (record s { pg = d })) in
      if done then rest else (false, record s { pg = d })
