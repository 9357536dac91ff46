-- ===== src/Battle/Race.antt =====
-- The search for a battle with room and the entry into it are two steps, and other requests run
-- between them.
use grimoire.Prelude.{
  ℕ, ◌+◌, ◌<◌, ◌≡◌, ◌∙◌, arith, none, some, lookup, length, length-put_new, lookup-put, ap, ◌%◌,
  ◌^◌,
}
use grimoire.Battle.{Float32, Battle, add_player, battle_capacity}
use grimoire.Battle.Service.{App, enter, target_battle, take_place, announce, with_player}

module _ {R : Type 0} (F : Float32 R) where
  pub enter_lem :
      (s : App R) (id c : ℕ) (b : Battle R)
      → s.battles id ≡ some b
      → ((enter F c (some id) s).1.battles id ≡ some (with_player F c s.next_player b))
        × ((enter F c (some id) s).1.next_player ≡ (s.next_player + 1) % 2 ^ 32)
  unfolding enter target_battle take_place announce
  enter_lem s id c b h = ground arith

  -- The bug: two connections find the same battle with one player before either has entered it. Both
  -- enter, and the battle has three players where its capacity is two.
  pub race_exceeds_capacity :
      (s : App R) (id a c : ℕ) (b : Battle R)
      → s.battles id ≡ some b
      → length b.players ≡ 1
      → s.next_player + 1 < 2 ^ 32
      → lookup s.next_player b.players ≡ none
      → lookup (s.next_player + 1) b.players ≡ none
      → let t = (enter F a (some id) s).1 in
        let u = (enter F c (some id) t).1 in
        let full = with_player F c (s.next_player + 1) (with_player F a s.next_player b) in
        (u.battles id ≡ some full) × (length full.players ≡ battle_capacity + 1)
  unfolding add_player
  race_exceeds_capacity s id a c b h one small new new' =
      let (p, q) = enter_lem s id a b h in
      let (p', q') = enter_lem (enter F a (some id) s).1 id c (with_player F a s.next_player b) p in
      let number : (enter F a (some id) s).1.next_player ≡ s.next_player + 1 = q ∙ omega arith in
      (
        p' ∙ ap (λ n. some (with_player F c n (with_player F a s.next_player b))) number,
        length-put_new (s.next_player + 1) _ (with_player F a s.next_player b).players
              (lookup-put s.next_player _ b.players (s.next_player + 1) ∙ ground (arith, new'))
            ∙ ap (λ n. n + 1) (length-put_new s.next_player _ b.players new ∙ ap (λ n. n + 1) one),
      )
