-- ===== src/Svcfw/Directory/Lobby.antt =====
-- What the lobby hands out.
use grimoire.Prelude.{
  ℕ, ◌<◌, ◌^◌, Has, ◌≡◌, refl, sym, ap, ◌∙◌, subst, inl, inr, ◌⊎◌, Bool, true, false, Option, none,
  some, List, [], ◌∷◌, ◌++◌, Text, decimal, Option-cases,
}
use grimoire.Svcfw.Directory.{
  Server, Delivery, delivered, lost_before, lost_after, query, lobby_key, lobby_set, lobby_take,
  lobby_clear, clear_script, clear_if, is_value, as_session,
}

-- A call of the lobby, with what becomes of its command.
pub data Call : Type 0 where
  set_call clear_call : Delivery → ℕ → Call
  take_call : Delivery → Call

-- Elements of a list, in its order and none more often than there.
pub data IsSublist : List ℕ → List ℕ → Type 0 where
  empty_list : IsSublist [] []
  skip : (x : ℕ) (xs ys : List ℕ) → IsSublist xs ys → IsSublist xs (x ∷ ys)
  keep : (x : ℕ) (xs ys : List ℕ) → IsSublist xs ys → IsSublist (x ∷ xs) (x ∷ ys)

skip_first : (ws xs ys : List ℕ) → IsSublist xs ys → IsSublist xs (ws ++ ys)
skip_first [] xs ys h = h
skip_first (w ∷ ws) xs ys h = skip w xs (ws ++ ys) (skip_first ws xs ys h)

skip_later : (ws xs ys : List ℕ) (x : ℕ) → IsSublist xs (ws ++ ys) → IsSublist xs (ws ++ x ∷ ys)
skip_later [] xs ys x h = skip x xs ys h
skip_later (_ ∷ ws) _ ys x (skip w xs _ h) = skip w xs (ws ++ x ∷ ys) (skip_later ws xs ys x h)
skip_later (_ ∷ ws) _ ys x (keep w xs _ h) = keep w xs (ws ++ x ∷ ys) (skip_later ws xs ys x h)

keep_first : (ws xs ys : List ℕ) → IsSublist xs ys → IsSublist (ws ++ xs) (ws ++ ys)
keep_first [] xs ys h = h
keep_first (w ∷ ws) xs ys h = keep w (ws ++ xs) (ws ++ ys) (keep_first ws xs ys h)

abbrev pub listed : Option ℕ → List ℕ
listed none = []
listed (some n) = n ∷ []

-- The sessions that were set, whether or not the lobby took them.
abbrev pub set_sessions : List Call → List ℕ
set_sessions [] = []
set_sessions (set_call d sid ∷ calls) = sid ∷ set_sessions calls
set_sessions (clear_call d sid ∷ calls) = set_sessions calls
set_sessions (take_call d ∷ calls) = set_sessions calls

module _ {R : Type 0} (server : Server R) (domain : ℕ) where
  -- The session that waits.
  abbrev pub waits : R → List ℕ
  waits r = listed (as_session server (server.get (lobby_key domain) r))

  unfoldable pub handed_out : List Call → R → List ℕ
  handed_out [] r = []
  handed_out (set_call d sid ∷ calls) r = handed_out calls (lobby_set server d domain sid r).1
  handed_out (clear_call d sid ∷ calls) r = handed_out calls (lobby_clear server d domain sid r)
  handed_out (take_call d ∷ calls) r =
      let (sid, r') = lobby_take server d domain r in listed sid ++ handed_out calls r'

  abbrev at_lobby : Text
  at_lobby = lobby_key domain

  waits_lem : (r r' : R) → server.get at_lobby r' ≡ server.get at_lobby r → waits r' ≡ waits r
  waits_lem r r' e = ap (λ o. listed (as_session server o)) e

  waits-none : (r : R) → server.get at_lobby r ≡ none → waits r ≡ []
  waits-none r e = ap (λ o. listed (as_session server o)) e

  -- What the server makes of a session that is set.
  set_nx-waits :
      (sid : ℕ) (r : R)
      → sid < 2 ^ 32
      → (waits (server.set_nx at_lobby (decimal 10 sid) r).1 ≡ waits r)
        ⊎ ((waits r ≡ []) × (waits (server.set_nx at_lobby (decimal 10 sid) r).1 ≡ sid ∷ []))
  set_nx-waits sid r small = elim (Option-cases (server.get at_lobby r)) [
    | inl e ↦ inr (
      waits-none r e,
      ap (λ o. listed (as_session server o)) (server.get-set_nx at_lobby (decimal 10 sid) r e)
          ∙ ap listed (server.to_u32-decimal sid small),
    )
    | inr (w, e) ↦
        inl (ap (λ (x : Bool × R). waits x.1) (server.set_nx-some at_lobby (decimal 10 sid) w r e))
  ]

  lobby_set-waits :
      (d : Delivery) (sid : ℕ) (r : R)
      → sid < 2 ^ 32
      → (waits (lobby_set server d domain sid r).1 ≡ waits r)
        ⊎ ((waits r ≡ []) × (waits (lobby_set server d domain sid r).1 ≡ sid ∷ []))
  unfolding lobby_set query
  lobby_set-waits delivered sid r small = set_nx-waits sid r small
  lobby_set-waits lost_before sid r small = inl refl
  lobby_set-waits lost_after sid r small = set_nx-waits sid r small

  clear_if-waits :
      (b : Bool) (r : R)
      → (waits (clear_if server b at_lobby r).1 ≡ waits r)
        ⊎ (waits (clear_if server b at_lobby r).1 ≡ [])
  clear_if-waits true r = inr (waits-none (server.del at_lobby r).1 (server.get-del at_lobby r))
  clear_if-waits false r = inl refl

  lobby_clear-waits :
      (d : Delivery) (sid : ℕ) (r : R)
      → (waits (lobby_clear server d domain sid r) ≡ waits r)
        ⊎ (waits (lobby_clear server d domain sid r) ≡ [])
  unfolding lobby_clear query clear_script
  lobby_clear-waits delivered sid r =
      clear_if-waits (is_value server (decimal 10 sid) (server.get at_lobby r)) r
  lobby_clear-waits lost_before sid r = inl refl
  lobby_clear-waits lost_after sid r =
      clear_if-waits (is_value server (decimal 10 sid) (server.get at_lobby r)) r

  -- What is taken is what waits, and then nothing does; or nothing is taken.
  lobby_take-waits :
      (d : Delivery) (r : R)
      → ((listed (lobby_take server d domain r).0 ≡ waits r)
          × (waits (lobby_take server d domain r).1 ≡ []))
        ⊎ (((lobby_take server d domain r).0 ≡ none)
            × ((waits (lobby_take server d domain r).1 ≡ waits r)
                ⊎ (waits (lobby_take server d domain r).1 ≡ [])))
  unfolding lobby_take query
  lobby_take-waits delivered r = inl (
    ap (λ o. listed (as_session server o)) (server.getdel-get at_lobby r),
    waits-none (server.getdel at_lobby r).1 (server.get-getdel at_lobby r),
  )
  lobby_take-waits lost_before r = inr (refl, inl refl)
  lobby_take-waits lost_after r =
      inr (refl, inr (waits-none (server.getdel at_lobby r).1 (server.get-getdel at_lobby r)))

  -- From a lobby with as much or with nothing in it.
  from_less :
      (xs ys : List ℕ) (r r' : R)
      → (waits r' ≡ waits r) ⊎ (waits r' ≡ [])
      → IsSublist xs (waits r' ++ ys)
      → IsSublist xs (waits r ++ ys)
  from_less xs ys r r' (inl e) h = subst (λ ws. IsSublist xs (ws ++ ys)) e h
  from_less xs ys r r' (inr e) h =
      skip_first (waits r) xs ys (subst (λ ws. IsSublist xs (ws ++ ys)) e h)

  -- Whatever becomes of the commands, the sessions that the lobby hands out are, in their order, some
  -- of those that waited or were set, and none is handed out more often than it was set. Session
  -- numbers are of 32 bits.
  pub handed_out-IsSublist :
      (calls : List Call) (r : R)
      → ((sid : ℕ) → Has sid (set_sessions calls) → sid < 2 ^ 32)
      → IsSublist (handed_out calls r) (waits r ++ set_sessions calls)
  unfolding handed_out
  handed_out-IsSublist [] r small = skip_first (waits r) [] [] empty_list
  handed_out-IsSublist (set_call d sid ∷ calls) r small =
      let r' = (lobby_set server d domain sid r).1 in
      let xs = handed_out calls r' in
      let ys = set_sessions calls in
      let ih = handed_out-IsSublist calls r' (λ n h. small n (inr h)) in
      elim (lobby_set-waits d sid r (small sid (inl refl))) [
        | inl e ↦ skip_later (waits r) xs ys sid (subst (λ ws. IsSublist xs (ws ++ ys)) e ih)
        | inr (free, e) ↦
            subst (λ ws. IsSublist xs (ws ++ sid ∷ ys)) (sym free)
              (subst (λ ws. IsSublist xs (ws ++ ys)) e ih)
      ]
  handed_out-IsSublist (clear_call d sid ∷ calls) r small =
      let r' = lobby_clear server d domain sid r in
      from_less (handed_out calls r') (set_sessions calls) r r' (lobby_clear-waits d sid r)
        (handed_out-IsSublist calls r' small)
  handed_out-IsSublist (take_call d ∷ calls) r small =
      let r' = (lobby_take server d domain r).1 in
      let ih = handed_out-IsSublist calls r' small in
      elim (lobby_take-waits d r) [
        | inl (e, gone) ↦
            subst (λ ws. IsSublist (ws ++ handed_out calls r') (waits r ++ set_sessions calls))
              (sym e)
              (keep_first (waits r) (handed_out calls r') (set_sessions calls)
                (subst (λ ws. IsSublist (handed_out calls r') (ws ++ set_sessions calls)) gone ih))
        | inr (e, less) ↦
            subst (λ o. IsSublist (listed o ++ handed_out calls r') (waits r ++ set_sessions calls))
              (sym e) (from_less (handed_out calls r') (set_sessions calls) r r' less ih)
      ]
