-- ===== src/Card/Service.antt =====
-- crates/grimoire-card-svc/src/main.rs, `App`: the games of the service, and its handlers. Each
-- handler is a run over the state that may panic. What it sends out (pushes to connections, entries
-- of the session directory and the lobby, results for the store) is appended to `out`; the code
-- ignores what comes back of it. Encoding of a push is left to the protobuf library.
use grimoire.Prelude.{
  ℕ, ◌+◌, ◌%◌, ◌^◌, Bool, not, ◌&&◌, ◌==◌, if◌then◌else◌, Option, none, some, List, [], ◌∷◌, ◌++◌,
  length, Text, any, or_else, Map, insert, empty, ok, Exec, pure, unwrap, modify, ◌>>=◌, ◌>>◌,
}
use grimoire.Common.{domain_card, card_snapshot_push}
use grimoire.Card.{
  CardDef, CardGame, GamePlayer, CardGameState, phase_playing, new, add_player, is_full,
  player_idx_of, view_for,
}

pub data Effect : Type 0 where
  push : ℕ → ℕ → CardGameState → Effect
  dir_bind : ℕ → ℕ → Text → Effect
  dir_remove lobby_set lobby_clear : ℕ → ℕ → Effect
  record_game : List ℕ → ℕ → Effect

-- `has_store` and `has_dir`: whether the store and the session directory were there at the start.
pub record App : Type 0 where
  pub games : Map CardGame
  pub conn_game : Map (ℕ × ℕ)
  pub next_player : ℕ
  pub next_game : ℕ
  pub has_store : Bool
  pub has_dir : Bool
  pub node_id : Text
  pub out : List Effect

abbrev pub init : Bool → Bool → Text → App
init has_store has_dir node_id = record {
  games = empty;
  conn_game = empty;
  next_player = 1;
  next_game = 1;
  has_store = has_store;
  has_dir = has_dir;
  node_id = node_id;
  out = [];
}

abbrev pub Handler : Type 0 → Type 0
Handler A = Exec App A

abbrev pub emit : List Effect → Handler (Unit {0})
emit es = modify (λ s. record s { out = s.out ++ es })

abbrev pub set_game : ℕ → CardGame → Handler (Unit {0})
set_game gid g = modify (λ s. record s { games = insert gid g s.games })

-- One snapshot for each player from index `i` on; `none` if a view panics.
unfoldable pub snapshots : CardGame → ℕ → List GamePlayer → Option (List Effect)
snapshots g i [] = some []
snapshots g i (p ∷ ps) = elim (view_for g i) [
  | none ↦ none
  | some v ↦ elim (snapshots g (i + 1) ps) [
    | none ↦ none
    | some es ↦ some (push p.conn_id card_snapshot_push v ∷ es)
  ]
]

unfoldable pub push_game : Option CardGame → Handler (Unit {0})
push_game none = pure tt
push_game (some g) = do es ← unwrap (snapshots g 0 g.players); emit es

unfoldable pub push_snapshot : ℕ → Handler (Unit {0})
unfolding push_game
push_snapshot gid s = push_game (s.games gid) s

-- The first waiting game in the order in which the iterator yields the keys.
unfoldable pub find_waiting : Map CardGame → List ℕ → Option ℕ
find_waiting games [] = none
find_waiting games (gid ∷ scan) = elim (games gid) [
  | none ↦ find_waiting games scan
  | some g ↦
      if g.phase == phase_playing && not (is_full g) then some gid else find_waiting games scan
]

abbrev pub fetch_next_player : Handler ℕ
fetch_next_player s = (ok s.next_player, record s { next_player = (s.next_player + 1) % 2 ^ 32 })

abbrev pub fetch_next_game : Handler ℕ
fetch_next_game s = (ok s.next_game, record s { next_game = (s.next_game + 1) % 2 ^ 32 })

-- The game to join: the one that was found, or a new one with the player in it.
unfoldable pub target_game : Option ℕ → ℕ → ℕ → List CardDef → Handler ℕ
target_game (some gid) conn_id player_id shuffled = pure gid
target_game none conn_id player_id shuffled = do
  id ← fetch_next_game
  set_game id (new id conn_id player_id shuffled)
  pure id

-- The seat of the player in a game, and the game with the player in it.
unfoldable pub seat : ℕ → ℕ → List CardDef → CardGame → ℕ × CardGame
seat conn_id player_id shuffled g =
    if is_full g
    then (0, g)
    else if any (λ p. p.conn_id == conn_id) g.players
    then (or_else (player_idx_of g player_id) 0, g)
    else (length g.players, add_player conn_id player_id shuffled g)

unfoldable pub announce : ℕ → Bool → Handler (Unit {0})
announce gid started s =
    if s.has_dir
    then emit
        (dir_bind domain_card gid s.node_id
          ∷ (if started then lobby_clear domain_card gid else lobby_set domain_card gid)
          ∷ [])
        s
    else (ok tt, s)

-- What follows once the game's lock is released: the directory and the lobby, and if the game is
-- full a snapshot for each of its players.
unfoldable pub opened : ℕ → Bool → CardGameState → Handler CardGameState
opened gid started view = do
  announce gid started
  if started then push_snapshot gid else pure tt
  pure view

-- The player takes a seat of game `gid`, under the game's lock.
unfoldable pub take_seat : ℕ → ℕ → List CardDef → ℕ → Handler CardGameState
take_seat conn_id player_id shuffled gid = do
  g ← λ s. unwrap (s.games gid) s
  let idx = (seat conn_id player_id shuffled g).0
  let g' = (seat conn_id player_id shuffled g).1
  set_game gid g'
  modify (λ s. record s { conn_game = insert conn_id (gid, idx) s.conn_game })
  view ← unwrap (view_for g' idx)
  opened gid (is_full g') view

-- What follows the search for a waiting game.
unfoldable pub enter : ℕ → Option ℕ → List CardDef → Handler CardGameState
enter conn_id target shuffled = do
  player_id ← fetch_next_player
  gid ← target_game target conn_id player_id shuffled
  take_seat conn_id player_id shuffled gid

-- The game and the index that a connection is bound to, if the game is there.
unfoldable pub bound_game : App → ℕ → Option (CardGame × ℕ)
bound_game s conn_id = elim (s.conn_game conn_id) [
  | none ↦ none
  | some (gid, idx) ↦ elim (s.games gid) [ none ↦ none | some g ↦ some (g, idx) ]
]

unfoldable pub start : ℕ → List ℕ → List CardDef → Handler CardGameState
unfolding bound_game
start conn_id scan shuffled s = elim (bound_game s conn_id) [
  | some (g, idx) ↦ unwrap (view_for g idx) s
  | none ↦ enter conn_id (find_waiting s.games scan) shuffled s
]
