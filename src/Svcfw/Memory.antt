-- ===== src/Svcfw/Memory.antt =====
-- Databases that never fail, in memory: the interfaces of the profiles' store can be kept.
use grimoire.Prelude.{
  ℕ, ◌+◌, ◌≡◌, ◌≢◌, ◌⊎◌, inl, inr, sym, ap, ◌∙◌, arith, true, false, ◌==◌, if◌then◌else◌, Option,
  none, some, [], ◌∷◌, Text, Bool-cases, same, same_refl, same-true, ==_refl,
}
use grimoire.Svcfw.Profiles.{Integers, Profile, Json, Redis, Postgres, named_row, counted_row}

pub equal : (a b : ℕ) → (a == b) ≡ true → a ≡ b
equal a b h = ground arith

pub not_equal : (a b : ℕ) → (a == b) ≡ false → a ≢ b
not_equal a b h e = ground arith

pub same_digit : (a b : ℕ) → (a ∷ []) ≡ (b ∷ []) → a ≡ b
same_digit a b h = cc

abbrev pub integers : Integers ℕ
integers = record {
  zero = 0;
  one = 1;
  plus = λ a b. a + b;
  equals = λ a b. a == b;
  equals-true = equal;
  equals-false = not_equal;
  digits = λ a. a ∷ [];
  digits_injective = same_digit;
}

abbrev pub read : Text → Option (Profile ℕ)
read (player_id ∷ games ∷ wins ∷ name) =
    some (record { player_id = player_id; name = name; games = games; wins = wins })
read text = none

abbrev pub write : Profile ℕ → Text
write p = p.player_id ∷ p.games ∷ p.wins ∷ p.name

pub read-write : (p : Profile ℕ) (t : Text) → some (write p) ≡ some t → read t ≡ some p
read-write p t h = let e : t ≡ write p = cc in ap read e

abbrev pub json : Json ℕ
json = record { to_string = λ p. some (write p); from_str = read; from_str-to_string = read-write }

abbrev pub put : Text → Text → (Text → Option Text) → Text → Option Text
put key v r k = if same key k then some v else r k

abbrev pub cut : Text → (Text → Option Text) → Text → Option Text
cut key r k = if same key k then none else r k

pub get-put :
    (key key' v w : Text) (r : Text → Option Text)
    → put key v r key' ≡ some w
    → ((key' ≡ key) × (w ≡ v)) ⊎ (r key' ≡ some w)
get-put key key' v w r h = elim (Bool-cases (same key key')) [
  | inl e ↦ inl (sym (same-true key key' e), ground arith)
  | inr e ↦ inr (ground arith)
]

pub get-put_same : (key v w : Text) (r : Text → Option Text) → put key v r key ≡ some w → w ≡ v
get-put_same key v w r h = ground (arith, same_refl key)

pub get-cut :
    (key key' w : Text) (r : Text → Option Text) → cut key r key' ≡ some w → r key' ≡ some w
get-cut key key' w r h = ground arith

pub get-cut_same : (key : Text) (r : Text → Option Text) → cut key r key ≡ none
get-cut_same key r = ground (arith, same_refl key)

abbrev pub redis : Redis (Text → Option Text)
redis = record {
  get = λ key r. r key;
  setex = λ key ttl v r. (true, put key v r);
  del = λ key r. (true, cut key r);
  get-setex = λ key key' v w ttl r h. get-put key key' v w r h;
  get-setex_done = λ key v w ttl r done h. get-put_same key v w r h;
  get-del = λ key key' w r h. get-cut key key' w r h;
  get-del_done = λ key r done. get-cut_same key r;
}

-- A table: names, games and wins by the player's number.
abbrev pub Rows : Type 0
Rows = ℕ → Option (Text × ℕ × ℕ)

abbrev pub profile_of : ℕ → Option (Text × ℕ × ℕ) → Option (Profile ℕ)
profile_of player_id none = none
profile_of player_id (some (name, games, wins)) =
    some (record { player_id = player_id; name = name; games = games; wins = wins })

abbrev pub row : Rows → ℕ → Option (Profile ℕ)
row d player_id = profile_of player_id (d player_id)

abbrev pub set_row : ℕ → Profile ℕ → Rows → Rows
set_row player_id p d k = if k == player_id then some (p.name, p.games, p.wins) else d k

pub row-id :
    (player_id : ℕ) (o : Option (Text × ℕ × ℕ)) (p : Profile ℕ)
    → profile_of player_id o ≡ some p
    → p.player_id ≡ player_id
row-id player_id none p h = absurd (ground arith)
row-id player_id (some (name, games, wins)) p h = ground arith

pub set_row-other :
    (player_id other : ℕ) (p : Profile ℕ) (d : Rows)
    → other ≢ player_id
    → row (set_row player_id p d) other ≡ row d other
set_row-other player_id other p d ne = ap (profile_of other) (ground arith)

pub named_row-set :
    (player_id : ℕ) (name : Text) (o : Option (Text × ℕ × ℕ)) (d : Rows)
    → row
        (set_row player_id (named_row integers player_id name (profile_of player_id o)) d)
        player_id
      ≡ some (named_row integers player_id name (profile_of player_id o))
unfolding named_row
named_row-set player_id name none d = ground (arith, ==_refl player_id)
named_row-set player_id name (some (n, games, wins)) d = ground (arith, ==_refl player_id)

pub counted_row-set :
    (player_id win : ℕ) (o : Option (Text × ℕ × ℕ)) (d : Rows)
    → row
        (set_row player_id (counted_row integers player_id win (profile_of player_id o)) d)
        player_id
      ≡ some (counted_row integers player_id win (profile_of player_id o))
unfolding counted_row
counted_row-set player_id win none d = ground (arith, ==_refl player_id)
counted_row-set player_id win (some (n, games, wins)) d = ground (arith, ==_refl player_id)

pub named_same :
    (player_id : ℕ) (name : Text) (d : Rows) (p : Profile ℕ)
    → some (named_row integers player_id name (row d player_id)) ≡ some p
    → (p ≡ named_row integers player_id name (row d player_id))
      × (row (set_row player_id (named_row integers player_id name (row d player_id)) d) player_id
          ≡ some p)
named_same player_id name d p h = (cc, named_row-set player_id name (d player_id) d ∙ h)

pub present : (p : Profile ℕ) → some p ≢ none
present p h = ground arith

pub works : true ≢ false
works h = ground arith

abbrev pub postgres : Postgres integers Rows
postgres = record {
  row = row;
  select = λ player_id d. row d player_id;
  select-row = λ player_id d p h. h;
  select-id = λ player_id d p h. row-id player_id (d player_id) p h;
  upsert_name = λ player_id name d.
      let p = named_row integers player_id name (row d player_id) in
      (some p, set_row player_id p d);
  upsert_name-some = named_same;
  upsert_name-other = λ player_id other name d ne.
      set_row-other player_id other (named_row integers player_id name (row d player_id)) d ne;
  upsert_name-none = λ player_id other name d h.
      absurd (present (named_row integers player_id name (row d player_id)) h);
  count = λ player_id win d.
      (true, set_row player_id (counted_row integers player_id win (row d player_id)) d);
  count-true = λ player_id win d h. counted_row-set player_id win (d player_id) d;
  count-other = λ player_id other win d ne.
      set_row-other player_id other (counted_row integers player_id win (row d player_id)) d ne;
  count-false = λ player_id other win d h. absurd (works h);
}
