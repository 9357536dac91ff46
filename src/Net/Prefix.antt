-- ===== src/Net/Prefix.antt =====
-- The decoder on a buffer that grows: what it answered for a buffer it answers again when more
-- bytes have arrived behind it, unless it asked for more.
use grimoire.Prelude.{
  ℕ, ◌+◌, ◌≡◌, arith, none, some, List, ◌∷◌, ◌++◌, length, length-append, take-append, drop-append,
  length-drop, length-take,
}
use grimoire.Net.Word.{from_be}
use grimoire.Net.{Frame, FrameError, ok, err, header_len, decode}

-- A frame that was cut off the buffer is cut off again, and the new bytes follow what is left.
pub decode-append_frame :
    (src more : List ℕ) {f : Frame} {rest : List ℕ}
    → decode src ≡ (ok (some f), rest)
    → decode (src ++ more) ≡ (ok (some f), rest ++ more)
unfolding decode
decode-append_frame (a ∷ b ∷ c ∷ d ∷ e ∷ f ∷ g ∷ h ∷ i ∷ j ∷ k ∷ l ∷ m ∷ n ∷ o ∷ p ∷ r) more q =
    ground (
      arith,
      length-append r more,
      take-append (from_be m n o p) r more,
      drop-append (from_be m n o p) r more,
    )
decode-append_frame src more q = ground arith

-- A refused buffer stays refused, with the same error.
pub decode-append_error :
    (src more : List ℕ) {e : FrameError} {rest : List ℕ}
    → decode src ≡ (err e, rest)
    → decode (src ++ more) ≡ (err e, src ++ more)
unfolding decode
decode-append_error (a ∷ b ∷ c ∷ d ∷ e ∷ f ∷ g ∷ h ∷ i ∷ j ∷ k ∷ l ∷ m ∷ n ∷ o ∷ p ∷ r) more q =
    ground arith
decode-append_error src more q = ground arith

-- No byte is lost by a call that yields no frame.
pub decode_keeps : (src : List ℕ) {rest : List ℕ} → decode src ≡ (ok none, rest) → rest ≡ src
unfolding decode
decode_keeps src q = ground arith

-- A frame takes at least its header off the buffer.
pub decode_shrinks :
    (src : List ℕ) {f : Frame} {rest : List ℕ}
    → decode src ≡ (ok (some f), rest)
    → length rest + header_len + length f.payload ≡ length src
unfolding decode
decode_shrinks (a ∷ b ∷ c ∷ d ∷ e ∷ f ∷ g ∷ h ∷ i ∷ j ∷ k ∷ l ∷ m ∷ n ∷ o ∷ p ∷ r) q =
    ground (arith, length-drop (from_be m n o p) r, length-take (from_be m n o p) r)
decode_shrinks src q = ground arith
