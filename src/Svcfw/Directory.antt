-- ===== src/Svcfw/Directory.antt =====
-- crates/grimoire-svcfw/src/session_dir.rs: which node hosts a session, and the lobby of sessions that
-- wait for a player. The Redis server is an interface; what becomes of each command on its way is an
-- argument.
pub mod Lobby
use grimoire.Prelude.{
  ℕ, ◌<◌, ◌^◌, ◌≡◌, Bool, true, false, if◌then◌else◌, Option, none, some, List, [], ◌∷◌, ◌++◌, Text,
  codes, decimal, same,
}

-- The commands, over the server's state, and the reading of a reply as `u32`. No law is about `setex`,
-- whose values expire.
pub record Server (R : Type 0) : Type 0 where
  pub get : Text → R → Option Text
  pub setex : Text → ℕ → Text → R → R
  pub del : Text → R → ℕ × R
  pub set_nx : Text → Text → R → Bool × R
  pub getdel : Text → R → Option Text × R
  pub to_u32 : Text → Option ℕ
  pub to_u32-decimal : (n : ℕ) → n < 2 ^ 32 → to_u32 (decimal 10 n) ≡ some n
  pub get-del : (key : Text) (r : R) → get key (del key r).1 ≡ none
  pub set_nx-some : (key v w : Text) (r : R) → get key r ≡ some w → set_nx key v r ≡ (false, r)
  pub set_nx-none : (key v : Text) (r : R) → get key r ≡ none → (set_nx key v r).0 ≡ true
  pub get-set_nx : (key v : Text) (r : R) → get key r ≡ none → get key (set_nx key v r).1 ≡ some v
  pub getdel-get : (key : Text) (r : R) → (getdel key r).0 ≡ get key r
  pub get-getdel : (key : Text) (r : R) → get key (getdel key r).1 ≡ none

-- A command is answered, or the connection fails before the server runs it or after.
pub data Delivery : Type 0 where
  delivered lost_before lost_after : Delivery

-- `query_async`; none is an error.
unfoldable pub query : {A R : Type 0} → Delivery → (R → A × R) → R → Option A × R
query delivered command r = let (a, r') = command r in (some a, r')
query lost_before command r = (none, r)
query lost_after command r = (none, (command r).1)

abbrev prefix : Text
prefix = codes "grimoire:sess:"

abbrev pub ttl_secs : ℕ
ttl_secs = 3600

abbrev pub session_key : ℕ → ℕ → Text
session_key domain sid = prefix ++ (decimal 10 domain ++ (codes ":" ++ decimal 10 sid))

abbrev pub lobby_key : ℕ → Text
lobby_key domain = prefix ++ (codes "lobby:" ++ decimal 10 domain)

abbrev is_ok : {A R : Type 0} → Option A × R → Bool × R
is_ok (none, r) = (false, r)
is_ok (some a, r) = (true, r)

abbrev pub or_false : {R : Type 0} → Option Bool × R → Bool × R
or_false (none, r) = (false, r)
or_false (some b, r) = (b, r)

abbrev pub no_reply : {A R : Type 0} → Option A × R → R
no_reply (a, r) = r

module _ {R : Type 0} (server : Server R) where
  unfoldable pub bind : Delivery → ℕ → ℕ → Text → R → Bool × R
  bind d domain sid node_id r =
      is_ok (query d (λ s. (tt, server.setex (session_key domain sid) ttl_secs node_id s)) r)

  abbrev found : Option (Option Text) × R → Option Text × R
  found (none, r) = (none, r)
  found (some v, r) = (v, r)

  unfoldable pub lookup : Delivery → ℕ → ℕ → R → Option Text × R
  lookup d domain sid r = found (query d (λ s. (server.get (session_key domain sid) s, s)) r)

  unfoldable pub remove : Delivery → ℕ → ℕ → R → R
  remove d domain sid r = no_reply (query d (server.del (session_key domain sid)) r)

  unfoldable pub lobby_set : Delivery → ℕ → ℕ → R → Bool × R
  lobby_set d domain sid r =
      or_false (query d (server.set_nx (lobby_key domain) (decimal 10 sid)) r)

  -- A reply that is no number is an error.
  abbrev pub as_session : Option Text → Option ℕ
  as_session none = none
  as_session (some v) = server.to_u32 v

  abbrev pub taken_reply : Option (Option Text) × R → Option ℕ × R
  taken_reply (none, r) = (none, r)
  taken_reply (some v, r) = (as_session v, r)

  unfoldable pub lobby_take : Delivery → ℕ → R → Option ℕ × R
  lobby_take d domain r = taken_reply (query d (server.getdel (lobby_key domain)) r)

  abbrev pub clear_if : Bool → Text → R → ℕ × R
  clear_if true key r = server.del key r
  clear_if false key r = (0, r)

  abbrev pub is_value : Text → Option Text → Bool
  is_value v none = false
  is_value v (some w) = same w v

  -- The script, which the server runs as a whole.
  unfoldable pub clear_script : Text → Text → R → ℕ × R
  clear_script key v r = clear_if (is_value v (server.get key r)) key r

  unfoldable pub lobby_clear : Delivery → ℕ → ℕ → R → R
  lobby_clear d domain sid r =
      no_reply (query d (clear_script (lobby_key domain) (decimal 10 sid)) r)
