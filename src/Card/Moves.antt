-- ===== src/Card/Moves.antt =====
-- In a well-formed state the moves and the state query answer, and keep it well-formed.
use grimoire.Prelude.{
  ℕ, zero, suc, ◌+◌, ◌%◌, ◌<◌, ◌≡◌, ◌≢◌, refl, sym, ap, ◌∙◌, arith, inl, inr, ◌==◌, not, ◌||◌,
  if◌then◌else◌, some, List, [], ◌∷◌, ◌++◌, map, length, get_elem?, Map, Bool-cases, Option-cases,
  insert_self, ◌>>=◌, pure, position, find, modify_at, Outcome, ok,
}
use grimoire.Card.{
  CardDef, CardGame, GamePlayer, CardGameState, phase_playing, view_for, player_idx_of,
  check_finish,
}
use grimoire.Card.Service.{
  App, Effect, Handler, snapshots, push_snapshot, push_game, record_game, bound_game,
}
use grimoire.Card.Play.{
  Played, played, panicked, refused, play_game, hit, next_turn, victim_of, settle, report,
  persist_result, play, pass_turn, end_turn, state,
}
use grimoire.Card.Validity.{ids, conns, AreSeated, IsGame, IsValid, set_game-IsValid}

-- A handler answers, and the state that it leaves is well-formed.
abbrev pub Answers {ℓ} : {A : Type ℓ} → Outcome A × App → Type ℓ
Answers {A = A} r = (a : A) × (s : App) × (r ≡ (ok a, s)) × IsValid s

get_elem?-some {ℓ} :
    {A : Type ℓ} (xs : List A) (i : ℕ) → i < length xs → (x : A) × (get_elem? xs i ≡ some x)
get_elem?-some [] i h = elim h [ ]
get_elem?-some (x ∷ xs) zero h = (x, refl)
get_elem?-some (x ∷ xs) (suc i) h = get_elem?-some xs i (omega arith)

seated-lt : (ps : List GamePlayer) (t : ℕ) → AreSeated (map (λ p. p.player_id) ps) t → t < length ps
seated-lt [] t h = absurd h
seated-lt (p ∷ []) t h = omega arith
seated-lt (p ∷ q ∷ []) t h = omega (arith, h.1)
seated-lt (p ∷ q ∷ r ∷ ps) t h = absurd h

pub view_for-some :
    (g : CardGame) (r : ℕ)
    → AreSeated (ids g) g.turn
    → (v : CardGameState) × (view_for g r ≡ some v)
unfolding view_for
view_for-some g r h =
    let (p, e) = get_elem?-some g.players g.turn (seated-lt g.players g.turn h) in
    rw (e, view_for) (_, refl)

snapshots-some :
    (g : CardGame) (i : ℕ) (ps : List GamePlayer)
    → AreSeated (ids g) g.turn
    → (es : List Effect) × (snapshots g i ps ≡ some es)
unfolding snapshots
snapshots-some g i [] h = ([], refl)
snapshots-some g i (p ∷ ps) h =
    let (v, e) = view_for-some g i h in
    let (es, f) = snapshots-some g (i + 1) ps h in rw (e, f, snapshots) (_, refl)

-- What is appended to `out` does not matter to the form.
pub emit-IsValid :
    (s : App) (es : List Effect) → IsValid s → IsValid (record s { out = s.out ++ es })
emit-IsValid s es v = record {
  games_ok = v.games_ok;
  games_below = v.games_below;
  ids_below = v.ids_below;
  bound = v.bound;
}

pub push_snapshot-Answers :
    (gid : ℕ) (s : App) (g : CardGame)
    → s.games gid ≡ some g
    → IsValid s
    → Answers (push_snapshot gid s)
unfolding push_snapshot
push_snapshot-Answers gid s g e v =
    let (es, f) = snapshots-some g 0 g.players (v.games_ok gid g e).seated in
    rw (e, push_game) (rw f (_, _, refl, emit-IsValid s es v))

-- A move in a well-formed game never panics.
play_game-ne-panicked :
    (g : CardGame) (ps : List GamePlayer) (idx i target : ℕ)
    → AreSeated (map (λ p. p.player_id) ps) g.turn
    → play_game (record g { players = ps }) idx i target ≢ panicked
unfolding play_game victim_of player_idx_of position
play_game-ne-panicked g [] idx i target h = absurd h
play_game-ne-panicked g (p ∷ []) idx i target h = ground arith
play_game-ne-panicked g (p ∷ q ∷ []) zero i target h = ground arith
play_game-ne-panicked g (p ∷ q ∷ []) (suc zero) i target h = ground arith
play_game-ne-panicked g (p ∷ q ∷ []) (suc (suc idx)) i target h = ground arith
play_game-ne-panicked g (p ∷ q ∷ r ∷ ps) idx i target h = absurd h

-- Nor does it move, add or remove a player, and the game stays well-formed.
play_game-IsGame :
    (g : CardGame) (ps : List GamePlayer) (idx i target : ℕ) {g' : CardGame} {c : CardDef}
    → IsGame (record g { players = ps })
    → play_game (record g { players = ps }) idx i target ≡ played g' c
    → IsGame g' × (ids g' ≡ map (λ p. p.player_id) ps) × (conns g' ≡ map (λ p. p.conn_id) ps)
unfolding play_game hit next_turn victim_of check_finish player_idx_of position find modify_at
play_game-IsGame g [] idx i target v e = absurd v.seated
play_game-IsGame g (p ∷ []) idx i target v e = ground arith
play_game-IsGame g (p ∷ q ∷ []) zero i target v e = ground arith
play_game-IsGame g (p ∷ q ∷ []) (suc zero) i target v e = ground arith
play_game-IsGame g (p ∷ q ∷ []) (suc (suc n)) i target v e = ground arith
play_game-IsGame g (p ∷ q ∷ r ∷ ps) idx i target v e = absurd v.seated

persist_result-Answers :
    (gid winner : ℕ) (s : App) → IsValid s → Answers (persist_result gid winner s)
unfolding persist_result
persist_result-Answers gid winner s v = elim (Bool-cases s.has_store) [
  | inl on ↦ elim (Option-cases (s.games gid)) [
    | inl e ↦ (tt, s, ground arith, v)
    | inr (g, e) ↦ (
      tt,
      record s { out = s.out ++ record_game (map (λ p. p.player_id) g.players) winner ∷ [] },
      ground arith,
      emit-IsValid s _ v,
    )
  ]
  | inr off ↦ (tt, s, ground arith, v)
]

games-persist_result : (gid winner : ℕ) (s : App) → (persist_result gid winner s).1.games ≡ s.games
unfolding persist_result
games-persist_result gid winner s = ground arith

-- One handler after another, where the first one answers.
Answers-then :
    {A B : Type 0} (m : Handler A) (f : A → Handler B) (s : App)
    → Answers (m s)
    → ((a : A) (t : App) → m s ≡ (ok a, t) → IsValid t → Answers (f a t))
    → Answers ((m >>= f) s)
Answers-then m f s (a, t, e, v) k = let (b, u, e', w) = k a t e v in (b, u, rw e e', w)

settled-Answers :
    (gid : ℕ) (g : CardGame) (s : App)
    → IsValid s
    → Answers ((if not (g.phase == phase_playing) then persist_result gid g.winner else pure tt) s)
settled-Answers gid g s v = elim (Bool-cases (g.phase == phase_playing)) [
  | inl on ↦ rw on (tt, s, refl, v)
  | inr off ↦ rw off (persist_result-Answers gid g.winner s v)
]

games_settled :
    (gid : ℕ) (g : CardGame) (s : App)
    → ((if not (g.phase == phase_playing) then persist_result gid g.winner else pure tt) s).1.games
      ≡ s.games
games_settled gid g s = elim (Bool-cases (g.phase == phase_playing)) [
  | inl on ↦ rw on
  | inr off ↦ rw off (games-persist_result gid g.winner s)
]

report-Answers :
    (gid : ℕ) (g : CardGame) (c : CardDef) (view : CardGameState) (s : App)
    → IsValid s
    → s.games gid ≡ some g
    → Answers (report gid g c view s)
unfolding report
report-Answers gid g c view s v h =
    let (a, t, e, w) = settled-Answers gid g s v in
    let same = ap (λ (m : Map CardGame). m gid) (games_settled gid g s) in
    let (b, u, f, x) =
      push_snapshot-Answers gid t g
        (sym (ap (λ (r : Outcome (Unit {0}) × App). r.1.games gid) e) ∙ same ∙ h) w in
    rw (e, f) (_, u, refl, x)

settle-Answers :
    (s : App) (gid idx i target : ℕ) (g : CardGame)
    → IsValid s
    → s.games gid ≡ some g
    → (r : Played) → play_game g idx i target ≡ r
    → Answers (settle gid idx r s)
unfolding settle
settle-Answers s gid idx i target g v e (refused d) q = (_, s, refl, v)
settle-Answers s gid idx i target g v e panicked q =
    absurd (play_game-ne-panicked g g.players idx i target (v.games_ok gid g e).seated q)
settle-Answers s gid idx i target g v e (played g' c) q =
    let (ok', same_ids, same_conns) =
      play_game-IsGame g g.players idx i target (v.games_ok gid g e) q in
    let (view, f) = view_for-some g' idx ok'.seated in
    let w = set_game-IsValid s gid g g' v e ok' same_ids same_conns in
    rw f (report-Answers gid g' c view _ w (insert_self gid g' s.games))

-- A request to play is answered in every well-formed state, whatever the connection, the place and
-- the target, and leaves a well-formed state.
pub play-Answers : (s : App) (conn_id i target : ℕ) → IsValid s → Answers (play conn_id i target s)
unfolding play
play-Answers s conn_id i target v = elim (Option-cases (s.conn_game conn_id)) [
  | inl e ↦ rw (e, play) (_, s, refl, v)
  | inr ((gid, idx), e) ↦
      let (g, f, q) = v.bound conn_id gid idx e in
      rw (e, play, f) (settle-Answers s gid idx i target g v f (play_game g idx i target) refl)
]

passed-IsGame :
    (g : CardGame) (ps : List GamePlayer) (idx : ℕ)
    → IsGame (record g { players = ps })
    → g.turn ≡ idx
    → IsGame (record g { players = ps; turn = (idx + 1) % length ps })
passed-IsGame g [] idx v h = absurd v.seated
passed-IsGame g (p ∷ []) idx v h = ground arith
passed-IsGame g (p ∷ q ∷ []) idx v h = ground arith
passed-IsGame g (p ∷ q ∷ r ∷ ps) idx v h = absurd v.seated

pass_turn-Answers :
    (s : App) (gid idx : ℕ) (g : CardGame)
    → IsValid s
    → s.games gid ≡ some g
    → Answers (pass_turn gid idx g s)
unfolding pass_turn
pass_turn-Answers s gid idx g v e =
    elim (Bool-cases (not (g.phase == phase_playing) || not (g.turn == idx))) [
      | inl refuse ↦ rw refuse (_, s, refl, v)
      | inr go ↦
          let ok' = passed-IsGame g g.players idx (v.games_ok gid g e) (ground arith) in
          let g' : CardGame = record g { turn = (idx + 1) % length g.players } in
          let w = set_game-IsValid s gid g g' v e ok' refl refl in
          let (view, f) = view_for-some g' idx ok'.seated in
          let (a, u, h, x) = push_snapshot-Answers gid _ g' (insert_self gid g' s.games) w in
          rw (go, f, h) (_, u, refl, x)
    ]

-- So is a request to end the turn.
pub end_turn-Answers : (s : App) (conn_id : ℕ) → IsValid s → Answers (end_turn conn_id s)
unfolding end_turn
end_turn-Answers s conn_id v = elim (Option-cases (s.conn_game conn_id)) [
  | inl e ↦ rw (e, end_turn) (_, s, refl, v)
  | inr ((gid, idx), e) ↦
      let (g, f, q) = v.bound conn_id gid idx e in
      rw (e, end_turn, f) (pass_turn-Answers s gid idx g v f)
]

-- And the query of the state, which changes nothing.
pub state-Answers :
    (s : App) (conn_id : ℕ) → IsValid s → Answers (state conn_id s) × ((state conn_id s).1 ≡ s)
unfolding state bound_game
state-Answers s conn_id v = elim (Option-cases (s.conn_game conn_id)) [
  | inl e ↦ rw (e, state, bound_game) ((_, s, refl, v), refl)
  | inr ((gid, idx), e) ↦
      let (g, f, q) = v.bound conn_id gid idx e in
      let (view, h) = view_for-some g idx (v.games_ok gid g f).seated in
      rw (e, state, bound_game, f, h) ((_, s, refl, v), refl)
]
