-- ===== src/Net/Stream.antt =====
-- The decoder over a byte stream. `FramedRead` appends what arrives to the buffer and calls the
-- decoder until it asks for more or fails; `Reads` and `Receives` describe that loop.
use grimoire.Prelude.{
  ℕ, zero, suc, ◌<◌, ◌≡◌, refl, arith, Option, none, some, List, [], ◌∷◌, ◌++◌, length, All,
  append_assoc, sym, ap, ◌∙◌, subst,
}
use mathlib.Core.List.{append-nil}
use grimoire.Net.{Frame, FrameError, Result, ok, err, encode, decode}
use grimoire.Net.Prefix.{decode-append_frame, decode-append_error, decode_keeps, decode_shrinks}
use grimoire.Net.Roundtrip.{IsSendable, decode-encode}

pub data Ending : Type 0 where
  waiting : List ℕ → Ending
  refused : FrameError → Ending

-- The frames that one run of the loop takes off a buffer, and how it ends.
pub data Reads : List ℕ → List Frame → Ending → Type 0 where
  waits : {src rest : List ℕ} → decode src ≡ (ok none, rest) → Reads src [] (waiting rest)
  fails :
      {src rest : List ℕ} {e : FrameError} → decode src ≡ (err e, rest) → Reads src [] (refused e)
  takes :
      {src mid : List ℕ} {f : Frame} {fs : List Frame} {e : Ending}
      → decode src ≡ (ok (some f), mid)
      → Reads mid fs e
      → Reads src (f ∷ fs) e

-- The stream arrives in chunks; the loop runs after each, and a refusal ends it.
pub data Receives : List ℕ → List (List ℕ) → List Frame → Ending → Type 0 where
  quiet : {buf : List ℕ} → Receives buf [] [] (waiting buf)
  chunk :
      {buf c rest : List ℕ} {cs : List (List ℕ)} {fs gs : List Frame} {e : Ending}
      → Reads (buf ++ c) fs (waiting rest)
      → Receives rest cs gs e
      → Receives buf (c ∷ cs) (fs ++ gs) e
  broken :
      {buf c : List ℕ} {cs : List (List ℕ)} {fs : List Frame} {x : FrameError}
      → Reads (buf ++ c) fs (refused x)
      → Receives buf (c ∷ cs) fs (refused x)

abbrev pub encode_all : List Frame → List ℕ
encode_all [] = []
encode_all (f ∷ fs) = encode f ++ encode_all fs

abbrev pub concat : List (List ℕ) → List ℕ
concat [] = []
concat (c ∷ cs) = c ++ concat cs

-- What waits is a buffer that the decoder cannot cut a frame off yet.
Reads-waiting :
    {src rest : List ℕ} {fs : List Frame}
    → Reads src fs (waiting rest)
    → decode rest ≡ (ok none, rest)
Reads-waiting {src} {rest} (waits p) =
    let e : rest ≡ src = decode_keeps src p in subst (λ t. decode t ≡ (ok none, rest)) (sym e) p
Reads-waiting (takes p r) = Reads-waiting r

Reads-unique :
    {src : List ℕ} {fs gs : List Frame} {e x : Ending}
    → Reads src fs e
    → Reads src gs x
    → (fs ≡ gs) × (e ≡ x)
Reads-unique (waits p) (waits q) = (ground arith, ground arith)
Reads-unique (waits p) (fails q) = cc
Reads-unique (waits p) (takes q r) = cc
Reads-unique (fails p) (waits q) = cc
Reads-unique (fails p) (fails q) = (ground arith, ground arith)
Reads-unique (fails p) (takes q r) = cc
Reads-unique (takes p s) (waits q) = cc
Reads-unique (takes p s) (fails q) = cc
Reads-unique (takes {fs = fs} {e = e} p s) (takes {mid = mid} {fs = gs} q r) =
    let same =
      Reads-unique
        (subst (λ m. Reads m fs e) (ap (λ (t : Result (Option Frame) × List ℕ). t.1) (sym p ∙ q)) s)
        r in
    (ground (arith, same.0), same.1)

-- More bytes behind a buffer: the loop goes on where it stopped, and a refusal stands.
Reads-append :
    {a : List ℕ} {fs gs : List Frame} {r : List ℕ} {e : Ending} (b : List ℕ)
    → Reads a fs (waiting r)
    → Reads (r ++ b) gs e
    → Reads (a ++ b) (fs ++ gs) e
Reads-append {a} {gs} {r} {e} b (waits p) s = subst (λ t. Reads (t ++ b) gs e) (decode_keeps a p) s
Reads-append {a} b (takes p t) s = takes (decode-append_frame a b p) (Reads-append b t s)

Reads-append_refused :
    {a : List ℕ} {fs : List Frame} {x : FrameError} (b : List ℕ)
    → Reads a fs (refused x)
    → Reads (a ++ b) fs (refused x)
Reads-append_refused {a} b (fails p) = fails (decode-append_error a b p)
Reads-append_refused {a} b (takes p t) =
    takes (decode-append_frame a b p) (Reads-append_refused b t)

decode_nil : decode [] ≡ (ok none, [])
unfolding decode
decode_nil = refl

abbrev Readable : List ℕ → Type 0
Readable src = (fs : List Frame) × (e : Ending) × Reads src fs e

-- One call of the decoder, given that what it leaves can be read on.
Reads_step :
    (src : List ℕ) (d : Result (Option Frame) × List ℕ)
    → decode src ≡ d
    → ((mid : List ℕ) → length mid < length src → Readable mid)
    → Readable src
Reads_step src (ok none, rest) q on = ([], waiting rest, waits q)
Reads_step src (err x, rest) q on = ([], refused x, fails q)
Reads_step src (ok (some f), mid) q on =
    let (fs, e, r) = on mid (omega (arith, decode_shrinks src q)) in (f ∷ fs, e, takes q r)

Reads-total : (n : ℕ) (src : List ℕ) → length src < n → Readable src
Reads-total zero src h = elim h [ ]
Reads-total (suc n) src h =
    Reads_step src (decode src) refl (λ mid lt. Reads-total n mid (omega arith))

abbrev Receivable : List ℕ → List (List ℕ) → Type 0
Receivable buf cs = (fs : List Frame) × (e : Ending) × Receives buf cs fs e

Receives_step :
    (buf c : List ℕ) (cs : List (List ℕ))
    → Readable (buf ++ c)
    → ((rest : List ℕ) → Receivable rest cs)
    → Receivable buf (c ∷ cs)
Receives_step buf c cs (fs, waiting rest, r) on =
    let (gs, e, s) = on rest in (fs ++ gs, e, chunk r s)
Receives_step buf c cs (fs, refused x, r) on = (fs, refused x, broken r)

-- The loop ends on every stream.
Receives-total : (buf : List ℕ) (cs : List (List ℕ)) → Receivable buf cs
Receives-total buf [] = ([], waiting buf, quiet)
Receives-total buf (c ∷ cs) =
    Receives_step buf c cs (Reads-total (suc (length (buf ++ c))) (buf ++ c) (omega arith))
      (λ rest. Receives-total rest cs)

-- A stream in chunks is read as it would be in one piece.
Receives-Reads :
    {buf : List ℕ} {cs : List (List ℕ)} {fs : List Frame} {e : Ending}
    → decode buf ≡ (ok none, buf)
    → Receives buf cs fs e
    → Reads (buf ++ concat cs) fs e
Receives-Reads {buf} h quiet =
    subst (λ t. Reads t [] (waiting buf)) (sym (append-nil buf)) (waits h)
Receives-Reads {buf} h (chunk {c = c} {cs = cs} {fs = fs} {gs = gs} {e = e} p s) =
    subst (λ t. Reads t (fs ++ gs) e) (append_assoc buf c (concat cs))
      (Reads-append (concat cs) p (Receives-Reads (Reads-waiting p) s))
Receives-Reads {buf} h (broken {c = c} {cs = cs} {fs = fs} {x = x} p) =
    subst (λ t. Reads t fs (refused x)) (append_assoc buf c (concat cs))
      (Reads-append_refused (concat cs) p)

-- The encodings of frames, with an incomplete rest behind them.
Reads-encode_all :
    (fs : List Frame) (tail : List ℕ)
    → All IsSendable fs
    → decode tail ≡ (ok none, tail)
    → Reads (encode_all fs ++ tail) fs (waiting tail)
Reads-encode_all [] tail s h = waits h
Reads-encode_all (f ∷ fs) tail s h =
    takes
      (rw (append_assoc (encode f) (encode_all fs) tail)
        (decode-encode f (encode_all fs ++ tail) s.0))
      (Reads-encode_all fs tail s.1 h)

-- However a stream of encoded frames is cut into chunks, the receiver gets these frames, in order
-- and no others, and keeps the incomplete rest.
pub Receives-encode_all :
    (fs : List Frame) (tail : List ℕ) (cs : List (List ℕ))
    → All IsSendable fs
    → decode tail ≡ (ok none, tail)
    → concat cs ≡ encode_all fs ++ tail
    → Receives [] cs fs (waiting tail)
Receives-encode_all fs tail cs s h cut =
    let (gs, e, r) = Receives-total [] cs in
    let whole = subst (λ t. Reads t gs e) cut (Receives-Reads (decode_nil) r) in
    let same = Reads-unique whole (Reads-encode_all fs tail s h) in
    subst (λ t. Receives [] cs t (waiting tail)) same.0 (subst (λ t. Receives [] cs gs t) same.1 r)

-- The receiver has no other outcome on a stream of encoded frames: whatever it yields for a cut of
-- the stream into chunks is the list of the frames sent, and it is left with the incomplete rest.
pub Receives-sent :
    (fs gs : List Frame) (tail : List ℕ) (cs : List (List ℕ)) {e : Ending}
    → All IsSendable fs
    → decode tail ≡ (ok none, tail)
    → concat cs ≡ encode_all fs ++ tail
    → Receives [] cs gs e
    → (gs ≡ fs) × (e ≡ waiting tail)
Receives-sent fs gs tail cs {e} s h cut r =
    let whole = subst (λ t. Reads t gs e) cut (Receives-Reads decode_nil r) in
    Reads-unique whole (Reads-encode_all fs tail s h)
