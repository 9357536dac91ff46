-- ===== src/Gateway/Migration.antt =====
-- A client that resumes an earlier connection's session.
use grimoire.Prelude.{
  ℕ, ◌<◌, ◌≡◌, ◌≢◌, ◌∙◌, refl, ap, arith, false, ◌==◌, if◌then◌else◌, none, some, List, [], remove,
  inl, inr, Option-cases, Bool-cases, codes,
}
use grimoire.Net.{Frame, PType}
use grimoire.Net.Word.{u32_be, from_be-u32, u32_mod}
use grimoire.Gateway.{Session, Ctx, send, rebind, close_frame, response}
use grimoire.Common.{sys_resume}
use grimoire.Gateway.Serving.{
  receive, handle_request, handle_resume, resume_as, migrate, closed, expire, payload_u32, reply,
}

-- Sending writes only to the output.
send_lem :
    (ref : ℕ) (f : Frame) (c : Ctx)
    → ((send ref f c).1.sessions ≡ c.sessions) × ((send ref f c).1.store ≡ c.store)
unfolding send
send_lem ref f c = elim (Option-cases (c.store ref)) [
  | inl e ↦ rw (e, send) (refl, refl)
  | inr (s, e) ↦ elim (Bool-cases s.writable) [
    | inl b ↦ rw (e, send) (rw b (refl, refl))
    | inr b ↦ rw (e, send) (rw b (refl, refl))
  ]
]

pub migrate_lem :
    (ref old_ref new_conn_id old : ℕ) (s : Session) (c : Ctx)
    → c.store ref ≡ some s
    → new_conn_id ≢ old
    → let t = migrate ref old_ref new_conn_id old c in
      (t.sessions old ≡ some ref)
      × (t.sessions new_conn_id ≡ none)
      × (t.store ref ≡ some (rebind old s))
unfolding migrate
migrate_lem ref old_ref new_conn_id old s c h ne =
    let d = record c { sessions = remove old c.sessions } in
    let (a, b) = send_lem old_ref (close_frame (codes "migrated")) d in ground arith

payload_u32-u32_be : (n : ℕ) → n < u32_mod → payload_u32 (u32_be n []) 0 ≡ n
payload_u32-u32_be n small = from_be-u32 n small

-- A client's request to resume the session of the connection `old`.
abbrev pub resume_request : ℕ → ℕ → Frame
resume_request seq old = record {
  ptype = PType.request;
  msg_id = sys_resume;
  seq = seq;
  payload = u32_be old [];
}

pub handled :
    (ref conn_id old seq : ℕ) (c : Ctx)
    → old < u32_mod
    → handle_resume ref conn_id (resume_request seq old) c
      ≡ resume_as ref conn_id old (resume_request seq old) c
unfolding handle_resume
handled ref conn_id old seq c small =
    ap (λ n. resume_as ref conn_id n (resume_request seq old) c) (payload_u32-u32_be old small)

pub resumed :
    (ref old_ref conn_id old : ℕ) (f : Frame) (c : Ctx)
    → c.sessions old ≡ some old_ref
    → conn_id ≢ old
    → resume_as ref conn_id old f c
      ≡ reply ref sys_resume f.seq (u32_be old []) (migrate ref old_ref conn_id old c)
unfolding resume_as
resumed ref old_ref conn_id old f c e ne =
    let found : (if old == conn_id then none else c.sessions old) ≡ some old_ref = ground arith in
    rw (found, resume_as) refl

resume_lem :
    (ref old_ref conn_id old seq : ℕ) (s : Session) (c : Ctx)
    → c.store ref ≡ some s
    → c.sessions old ≡ some old_ref
    → conn_id ≢ old
    → old < u32_mod
    → let t = migrate ref old_ref conn_id old c in
      (handle_resume ref conn_id (resume_request seq old) c).sessions ≡ t.sessions
      × ((handle_resume ref conn_id (resume_request seq old) c).store ≡ t.store)
resume_lem ref old_ref conn_id old seq s c h e ne small =
    let f = resume_request seq old in
    let t = migrate ref old_ref conn_id old c in
    let (a, b) = send_lem ref (response sys_resume seq (u32_be old [])) t in
    let same_number = handled ref conn_id old seq c small in
    let same_state = resumed ref old_ref conn_id old f c e ne in
    (
      ap (λ (d : Ctx). d.sessions) (same_number ∙ same_state) ∙ a,
      ap (λ (d : Ctx). d.store) (same_number ∙ same_state) ∙ b,
    )

-- The tables are left alone when the number is another session's by now.
expire_other : (ref cur k : ℕ) (c : Ctx) → c.sessions k ≡ some cur → cur ≢ ref → expire ref k c ≡ c
unfolding expire
expire_other ref cur k c h ne =
    let other : (cur == ref) ≡ false = ground arith in rw (h, expire) (rw other refl)

module _ (from_utf8_lossy : List ℕ → List ℕ) where
  pub receive_resume :
      (ref old_ref conn_id old seq : ℕ) (s : Session) (c : Ctx)
      → c.store ref ≡ some s
      → c.sessions old ≡ some old_ref
      → conn_id ≢ old
      → ref ≢ old_ref
      → old < u32_mod
      → let t = (receive from_utf8_lossy ref conn_id s (resume_request seq old) c).1 in
        (t.sessions old ≡ some ref)
        × (t.sessions conn_id ≡ none)
        × (t.store ref ≡ some (rebind old s))
        × (expire old_ref old t ≡ t)
  unfolding receive handle_request expire
  receive_resume ref old_ref conn_id old seq s c h e ne differ small =
      let (a, b) = resume_lem ref old_ref conn_id old seq s c h e ne small in
      let (x, y, z) = migrate_lem ref old_ref conn_id old s c h ne in
      let t = handle_resume ref conn_id (resume_request seq old) c in
      let now : t.sessions old ≡ some ref = ap (λ m. m old) a ∙ x in
      (
        now,
        ap (λ m. m conn_id) a ∙ y,
        ap (λ m. m ref) b ∙ z,
        expire_other old_ref ref old t now differ,
      )

  -- The bug: what follows a resumed session's end is done under the number that its connection was
  -- accepted under. When the client that has resumed goes, the end of its grace period leaves the
  -- session in the table under the resumed number.
  pub resume_leaks :
      (ref old_ref conn_id old seq : ℕ) (s : Session) (c : Ctx)
      → c.store ref ≡ some s
      → c.sessions old ≡ some old_ref
      → conn_id ≢ old
      → old < u32_mod
      → let t = (receive from_utf8_lossy ref conn_id s (resume_request seq old) c).1 in
        (expire ref conn_id (closed ref conn_id t)).sessions old ≡ some ref
  unfolding receive handle_request expire closed
  resume_leaks ref old_ref conn_id old seq s c h e ne small =
      let (a, b) = resume_lem ref old_ref conn_id old seq s c h e ne small in
      let (x, y, z) = migrate_lem ref old_ref conn_id old s c h ne in
      let t = handle_resume ref conn_id (resume_request seq old) c in
      let now : t.sessions old ≡ some ref = ap (λ m. m old) a ∙ x in
      let gone : t.sessions conn_id ≡ none = ap (λ m. m conn_id) a ∙ y in
      let there : t.store ref ≡ some (rebind old s) = ap (λ m. m ref) b ∙ z in
      rw (there, closed) (rw (gone, expire) now)
