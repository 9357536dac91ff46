-- ===== src/Room/Grace.antt =====
-- The grace period of a lost connection.
use grimoire.Prelude.{
  ℕ, ◌+◌, ◌%◌, ◌^◌, ◌≡◌, refl, arith, Bool, true, false, none, some, [], ◌∷◌, ◌++◌, insert,
  insert_self, remove, or_else, inl, inr, Option-cases, ◌∙◌, ap, append_assoc,
}
use grimoire.Room.{App, Player, set_online}
use grimoire.Room.Service.{
  mark_disconnected, expire_session, expire_player, put_room, without_player, broadcast,
}
use grimoire.Room.Bridge.{player_connected, player_disconnected}

set_online_lem :
    (s : App) (c : ℕ) (p : Player) (online : Bool)
    → s.players c ≡ some p
    → ((set_online c online s).players c ≡ some (record p { online = online }))
      × ((set_online c online s).pending_removal ≡ s.pending_removal)
      × ((set_online c online s).timers ≡ s.timers)
unfolding set_online
set_online_lem s c p online h = elim (Option-cases (s.rooms p.room_id)) [
  | inl e ↦ ground arith
  | inr (r, e) ↦ ground arith
]

disconnected_lem :
    (s : App) (c : ℕ) (p : Player)
    → s.players c ≡ some p
    → let t = player_disconnected c s in
      let gen = (or_else (s.pending_removal c) 0 + 1) % 2 ^ 64 in
      (t.players c ≡ some (record p { online = false }))
      × (t.pending_removal ≡ insert c gen s.pending_removal)
      × (t.timers ≡ s.timers ++ (c, gen) ∷ [])
unfolding player_disconnected mark_disconnected broadcast
disconnected_lem s c p h =
    let t = mark_disconnected c s in
    let (a, b, d) = set_online_lem s c p false h in
    elim (Option-cases (t.rooms p.room_id)) [ inl e ↦ ground arith | inr (r, e) ↦ ground arith ]

connected_lem :
    (s : App) (c : ℕ) (p : Player)
    → s.players c ≡ some p
    → let t = player_connected c s in
      (t.players c ≡ some (record p { online = true }))
      × (t.pending_removal ≡ remove c s.pending_removal)
      × (t.timers ≡ s.timers)
unfolding player_connected
connected_lem s c p h =
    rw (h, player_connected)
      (set_online_lem (record s { pending_removal = remove c s.pending_removal }) c p true h)

-- A task whose generation is that of its connection ends the session.
expire_lem :
    (s : App) (c gen : ℕ) (p : Player)
    → s.players c ≡ some p
    → s.pending_removal c ≡ some gen
    → ((expire_session c gen s).players c ≡ none)
      × ((expire_session c gen s).pending_removal c ≡ none)
unfolding expire_session expire_player put_room without_player
expire_lem s c gen p h e = elim (Option-cases (s.rooms p.room_id)) [
  | inl r ↦ ground arith
  | inr (r, q) ↦ ground arith
]

-- The connection of a player that is lost and comes back keeps its session: no waiting task, of
-- whatever generation, changes anything when it fires.
pub resume-expire :
    (s : App) (c gen : ℕ) (p : Player)
    → s.players c ≡ some p
    → expire_session c gen (player_connected c (player_disconnected c s))
      ≡ player_connected c (player_disconnected c s)
unfolding expire_session
resume-expire s c gen p h =
    let (a, b, d) = disconnected_lem s c p h in
    let (a', b', d') = connected_lem (player_disconnected c s) c (record p { online = false }) a in
    let gone : (player_connected c (player_disconnected c s)).pending_removal c ≡ none =
      ap (λ m. m c) b' ∙ ground arith in
    rw (gone, expire_session) refl

-- A connection that does not come back loses its player when the task of its last loss fires, and
-- nothing waits for it any more.
pub disconnect-expire :
    (s : App) (c : ℕ) (p : Player)
    → s.players c ≡ some p
    → let t = player_disconnected c s in
      let gen = (or_else (s.pending_removal c) 0 + 1) % 2 ^ 64 in
      (t.timers ≡ s.timers ++ (c, gen) ∷ [])
      × (t.players c ≡ some (record p { online = false }))
      × ((expire_session c gen t).players c ≡ none)
      × ((expire_session c gen t).pending_removal c ≡ none)
disconnect-expire s c p h =
    let (a, b, d) = disconnected_lem s c p h in
    let t = player_disconnected c s in
    let gen = (or_else (s.pending_removal c) 0 + 1) % 2 ^ 64 in
    let (x, y) =
      expire_lem t c gen (record p { online = false }) a
        (ap (λ m. m c) b ∙ insert_self c gen s.pending_removal) in
    (d, a, x, y)

-- The bug: generations count from one again after a resumption. When a connection is lost, comes
-- back and is lost again, the task of the first loss ends the session, though the grace period of
-- the second loss has not passed: the player of a connection outside any room is gone.
pub stale_timer_expires :
    (s : App) (c : ℕ) (p : Player)
    → s.players c ≡ some p
    → s.pending_removal c ≡ none
    → let t = player_disconnected c s in
      let u = player_disconnected c (player_connected c t) in
      (t.timers ≡ s.timers ++ (c, 1) ∷ [])
      × (u.timers ≡ s.timers ++ (c, 1) ∷ (c, 1) ∷ [])
      × ((expire_session c 1 u).players c ≡ none)
stale_timer_expires s c p h e =
    let (a, b, d) = disconnected_lem s c p h in
    let t = player_disconnected c s in
    let (a', b', d') = connected_lem t c (record p { online = false }) a in
    let w = player_connected c t in
    let fresh : w.pending_removal c ≡ none = ap (λ m. m c) b' ∙ ground arith in
    let (a'', b'', d'') = disconnected_lem w c (record p { online = true }) a' in
    let one : or_else (s.pending_removal c) 0 ≡ 0 = ground arith in
    let again : or_else (w.pending_removal c) 0 ≡ 0 = ground arith in
    let first : t.timers ≡ s.timers ++ (c, 1) ∷ [] =
      d ∙ ap (λ n. s.timers ++ (c, (n + 1) % 2 ^ 64) ∷ []) one in
    let u = player_disconnected c w in
    let pending : u.pending_removal c ≡ some 1 =
      ap (λ m. m c) b''
      ∙ ap (λ n. insert c ((n + 1) % 2 ^ 64) w.pending_removal c) again
      ∙ ground arith in
    (
      first,
      d''
          ∙ ap (λ n. w.timers ++ (c, (n + 1) % 2 ^ 64) ∷ []) again
          ∙ ap (λ l. l ++ (c, 1) ∷ []) (d' ∙ first)
          ∙ append_assoc s.timers ((c, 1) ∷ []) ((c, 1) ∷ []),
      (expire_lem u c 1 (record p { online = false }) a'' pending).0,
    )
