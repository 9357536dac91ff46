-- ===== src/Svcfw/Registration.antt =====
-- crates/grimoire-svcfw/src/reg.rs: a node registers, and keeps its registration alive by
-- heartbeats. The registry is the memory backend's service; a call that the network loses or that
-- runs out of time changes nothing.
use grimoire.Prelude.{ℕ, ◌/◌, max, Bool, true, false, List, [], ◌∷◌, Text}
use grimoire.Registry.{ℤ, pos, negsuc, Meta, RegistrySvc, register, heartbeat}

-- What a node registers with.
pub record Registration : Type 0 where
  pub service : Text
  pub node_id : Text
  pub addr : Text
  pub meta : Meta
  pub ttl_secs : ℤ

-- `(ttl_secs.max(3) / 3).max(1)`, in seconds.
abbrev pub period : ℤ → ℕ
period (pos n) = max (max n 3 / 3) 1
period (negsuc n) = 1

unfoldable pub join_registry : ℕ → Registration → RegistrySvc → RegistrySvc
join_registry now g r = register now g.service g.node_id g.addr g.meta g.ttl_secs r

-- The registration again, with `Default::default()` for the metadata.
unfoldable pub rejoin : ℕ → Registration → RegistrySvc → RegistrySvc
rejoin now g r = register now g.service g.node_id g.addr [] g.ttl_secs r

abbrev answered_beat : ℕ → Registration → Bool → Bool × RegistrySvc → RegistrySvc
answered_beat now g reaches (true, r) = r
answered_beat now g true (false, r) = rejoin now g r
answered_beat now g false (false, r) = r

-- What happens to a heartbeat: it is lost, or it is answered, and then the registration that
-- follows a refusal reaches the registry or not.
pub data Beat : Type 0 where
  lost : Beat
  reached : Bool → Beat

-- One round of the loop.
unfoldable pub beat : ℕ → Registration → Beat → RegistrySvc → RegistrySvc
beat now g lost r = r
beat now g (reached again) r = answered_beat now g again (heartbeat now g.service g.node_id r)

-- Rounds at their times.
unfoldable pub beats : Registration → List (ℕ × Beat) → RegistrySvc → RegistrySvc
beats g [] r = r
beats g ((now, b) ∷ rounds) r = beats g rounds (beat now g b r)
