-- ===== src/Gateway/Kcp/Driving.antt =====
-- The tasks that drive KCP sessions.
use grimoire.Prelude.{
  ℕ, zero, suc, ◌+◌, ◌<◌, ◌≡◌, ◌≢◌, refl, sym, ap, subst, ◌∙◌, inl, inr, arith, true, false,
  Bool-cases, Option-cases, Option, none, some, List, [], ◌∷◌, get_elem?, remove_at, Has,
  Has-append_left, Has-append_right, insert, insert-cases, remove-some,
}
use grimoire.Gateway.{SocketAddr}
use grimoire.Gateway.Kcp.{
  Kcp, Driver, Kcps, open_session, feed, session_for, handle_kcp_datagram, forget_session,
  send_packet, drain, drain_on, round, is_gone, rounded, driver_round,
}

module _ {K : Type 0} (lib : Kcp K) where
  -- The loop of the code: it takes messages off the session until `recv` gives none, whichever error that is.
  pub data Drains : K → List (List ℕ) → K → Type 0 where
    stops : {k k' : K} → lib.recv k ≡ (none, k') → Drains k [] k'
    takes :
        {k mid end : K} {message : List ℕ} {messages : List (List ℕ)}
        → lib.recv k ≡ (some message, mid)
        → Drains mid messages end
        → Drains k (message ∷ messages) end

  drain_on-Drains :
      (fuel : ℕ) (k : K) (o : Option (List ℕ)) (k' : K)
      → lib.recv k ≡ (o, k')
      → lib.queued k < suc fuel
      → (lib.queued k' < fuel → Drains k' (drain lib fuel k').0 (drain lib fuel k').1)
      → Drains k (drain_on lib (drain lib fuel) (o, k')).0 (drain_on lib (drain lib fuel) (o, k')).1
  drain_on-Drains fuel k none k' e h ih = stops e
  drain_on-Drains fuel k (some message) k' e h ih =
      takes e (ih (omega (arith, h, lib.recv-queued k k' message e)))

  drain-Drains :
      (fuel : ℕ) (k : K) → lib.queued k < fuel → Drains k (drain lib fuel k).0 (drain lib fuel k).1
  unfolding drain
  drain-Drains zero k h = absurd (omega arith)
  drain-Drains (suc fuel) k h =
      drain_on-Drains fuel k (lib.recv k).0 (lib.recv k).1 refl h (drain-Drains fuel (lib.recv k).1)

  Drains-unique :
      {k a b : K} {xs ys : List (List ℕ)} → Drains k xs a → Drains k ys b → (xs ≡ ys) × (a ≡ b)
  Drains-unique (stops p) (stops q) = (refl, ap (λ (x : Option (List ℕ) × K). x.1) (sym p ∙ q))
  Drains-unique (stops p) (takes q r) = cc
  Drains-unique (takes p r) (stops q) = cc
  Drains-unique {a = a} (takes {mid = mid} {messages = ms} p r) (takes {mid = mid'} q s) =
      let step = sym p ∙ q in
      let same_mid : mid ≡ mid' = ap (λ (x : Option (List ℕ) × K). x.1) step in
      let (same, end) = Drains-unique (subst (λ m. Drains m ms a) same_mid r) s in (cc, end)

  -- A round of a session's task hands on exactly the messages that the loop of the code takes, after the
  -- clock has moved on and until `recv` gives none, in their order, and leaves the session as that loop
  -- does.
  pub round-Drains :
      (now : ℕ) (d : Driver) (k : K) (t : Kcps K)
      → t.store d.ref ≡ some k
      → (end : K) × Drains (lib.update now k) (round lib now d t).0 end
        × ((round lib now d t).1 ≡ record t { store = insert d.ref end t.store })
        × ((messages : List (List ℕ)) (other : K)
            → Drains (lib.update now k) messages other
            → (messages ≡ (round lib now d t).0) × (other ≡ end))
  unfolding round
  round-Drains now d k t h =
      let k' = lib.update now k in
      let loop = drain-Drains (lib.queued k' + 1) k' (omega arith) in
      rw (h, round)
        ((drain lib (lib.queued k' + 1) k').1, loop, refl, λ messages other l. Drains-unique l loop)

  -- What happens to the sessions: a packet comes in, a connection's grace period ends, a packet is
  -- sent, a task has a round.
  pub data Call : Type 0 where
    packet : ℕ → SocketAddr → List ℕ → Call
    ends : ℕ → Call
    sends : ℕ → List ℕ → Call
    has_round : ℕ → ℕ → Call

  unfoldable pub apply : Call → Kcps K → Kcps K
  apply (packet conv src bytes) t = handle_kcp_datagram lib conv src bytes t
  apply (ends conv) t = forget_session lib conv t
  apply (sends ref bytes) t = (send_packet lib ref bytes t).1
  apply (has_round now i) t = driver_round lib now i t

  unfoldable pub run : List Call → Kcps K → Kcps K
  run [] t = t
  run (c ∷ cs) t = run cs (apply c t)

  abbrev pub no_sessions : Kcps K
  no_sessions = record { table = λ conv. none; store = λ ref. none; next_ref = 0; drivers = [] }

  -- Each session in the table has a task that drives it.
  abbrev pub IsDriven : Kcps K → Type 0
  IsDriven t =
      (conv ref : ℕ)
      → t.table conv ≡ some ref
      → (src : SocketAddr) × Has (record { conv = conv; ref = ref; src = src }) t.drivers

  -- The tasks and the table, which most steps leave alone.
  IsDriven-same :
      (t t' : Kcps K) → t'.table ≡ t.table → t'.drivers ≡ t.drivers → IsDriven t → IsDriven t'
  IsDriven-same t t' e q v conv ref h =
      let (src, there) = v conv ref (ap (λ m. m conv) (sym e) ∙ h) in
      (src, subst (Has (record { conv = conv; ref = ref; src = src })) (sym q) there)

  feed-IsDriven :
      (ref : ℕ) (bytes : List ℕ) (t : Kcps K) → IsDriven t → IsDriven (feed lib ref bytes t)
  unfolding feed
  feed-IsDriven ref bytes t v = elim (Option-cases (t.store ref)) [
    | inl e ↦ rw (e, feed) v
    | inr (k, e) ↦ rw (e, feed) v
  ]

  session_for-IsDriven :
      (conv : ℕ) (src : SocketAddr) (o : Option ℕ) (t : Kcps K)
      → IsDriven t
      → IsDriven (session_for lib conv src o t).1
  unfolding open_session
  session_for-IsDriven conv src (some ref) t v = v
  session_for-IsDriven conv src none t v = λ k ref h.
      elim (insert-cases conv t.next_ref t.table k h) [
        | inl (a, b) ↦ (
          src,
          Has-append_right (record { conv = k; ref = ref; src = src }) t.drivers
              (record { conv = conv; ref = t.next_ref; src = src } ∷ []) (inl (cc)),
        )
        | inr (a, b) ↦
            let (from, there) = v k ref b in
            (
              from,
              Has-append_left (record { conv = k; ref = ref; src = from }) t.drivers
                  (record { conv = conv; ref = t.next_ref; src = src } ∷ []) there,
            )
      ]

  send_packet-IsDriven :
      (ref : ℕ) (bytes : List ℕ) (t : Kcps K)
      → IsDriven t
      → IsDriven (send_packet lib ref bytes t).1
  unfolding send_packet
  send_packet-IsDriven ref bytes t v = elim (Option-cases (t.store ref)) [
    | inl e ↦ rw (e, send_packet) v
    | inr (k, e) ↦ rw (e, send_packet) v
  ]

  round_same :
      (now : ℕ) (d : Driver) (t : Kcps K)
      → ((round lib now d t).1.table ≡ t.table) × ((round lib now d t).1.drivers ≡ t.drivers)
  unfolding round
  round_same now d t = elim (Option-cases (t.store d.ref)) [
    | inl e ↦ rw (e, round) (refl, refl)
    | inr (k, e) ↦ rw (e, round) (refl, refl)
  ]

  Has-remove_at :
      (i : ℕ) (d x : Driver) (ds : List Driver)
      → get_elem? ds i ≡ some d
      → x ≢ d
      → Has x ds
      → Has x (remove_at ds i)
  Has-remove_at i d x [] e ne h = elim h [ ]
  Has-remove_at zero d x (y ∷ ds) e ne (inl q) = absurd (ne (cc))
  Has-remove_at zero d x (y ∷ ds) e ne (inr h) = h
  Has-remove_at (suc i) d x (y ∷ ds) e ne (inl q) = inl q
  Has-remove_at (suc i) d x (y ∷ ds) e ne (inr h) = inr (Has-remove_at i d x ds e ne h)

  not_gone : (d : Driver) (t : Kcps K) → t.table d.conv ≡ some d.ref → is_gone lib d t ≡ false
  unfolding is_gone
  not_gone d t h = rw (h, is_gone) (ground arith)

  still_there :
      (conv ref : ℕ) (src : SocketAddr) (d : Driver) (t : Kcps K)
      → t.table conv ≡ some ref
      → record { conv = conv; ref = ref; src = src } ≡ d
      → is_gone lib d t ≡ true
      → ⊥
  still_there conv ref src d t h q g =
      let same_conv : d.conv ≡ conv = ap (λ (x : Driver). x.conv) (sym q) in
      let same_ref : ref ≡ d.ref = ap (λ (x : Driver). x.ref) q in
      let here : t.table d.conv ≡ some d.ref = ap t.table same_conv ∙ h ∙ ap some same_ref in
      absurd (ground (arith, not_gone d t here, g))

  rounded-IsDriven :
      (now i : ℕ) (d : Driver) (t : Kcps K)
      → get_elem? t.drivers i ≡ some d
      → IsDriven t
      → IsDriven (rounded lib now i d t)
  rounded-IsDriven now i d t e v =
      let t' = (round lib now d t).1 in
      let (a, b) = round_same now d t in
      let v' = IsDriven-same t t' a b v in
      elim (Bool-cases (is_gone lib d t')) [
        | inl g ↦ rw g (λ conv ref h.
            let (src, there) = v' conv ref h in
            (
              src,
              Has-remove_at i d (record { conv = conv; ref = ref; src = src }) t'.drivers
                  (ap (λ ds. get_elem? ds i) b ∙ e) (λ q. still_there conv ref src d t' h q g)
                  there,
            ))
        | inr g ↦ rw g v'
      ]

  driver_round-IsDriven :
      (now i : ℕ) (t : Kcps K) → IsDriven t → IsDriven (driver_round lib now i t)
  unfolding driver_round
  driver_round-IsDriven now i t v = elim (Option-cases (get_elem? t.drivers i)) [
    | inl e ↦ rw (e, driver_round) v
    | inr (d, e) ↦ rw (e, driver_round) (rounded-IsDriven now i d t e v)
  ]

  apply-IsDriven : (c : Call) (t : Kcps K) → IsDriven t → IsDriven (apply c t)
  unfolding apply handle_kcp_datagram forget_session
  apply-IsDriven (packet conv src bytes) t v =
      let (ref, d) = session_for lib conv src (t.table conv) t in
      feed-IsDriven ref bytes d (session_for-IsDriven conv src (t.table conv) t v)
  apply-IsDriven (ends conv) t v = λ k ref h. v k ref ((remove-some conv t.table k h).1)
  apply-IsDriven (sends ref bytes) t v = send_packet-IsDriven ref bytes t v
  apply-IsDriven (has_round now i) t v = driver_round-IsDriven now i t v

  -- Whatever happens, each session that is in the table has a task that drives it: a task ends only
  -- when its session is no longer the one under its number.
  pub run-IsDriven : (cs : List Call) (t : Kcps K) → IsDriven t → IsDriven (run cs t)
  unfolding run
  run-IsDriven [] t v = v
  run-IsDriven (c ∷ cs) t v = run-IsDriven cs (apply c t) (apply-IsDriven c t v)
