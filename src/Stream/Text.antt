-- ===== src/Stream/Text.antt =====
-- `in_ansi_string`: the text that it stores, and what it returns.
use rdesktop.Common.{ℕ, zero, suc, ◌+◌, ◌-◌, ◌^◌, ◌<◌, ◌≡◌, ◌≢◌, arith, List, [], ◌∷◌, ◌++◌}
use rdesktop.Common.{true, false, ◌==◌, if◌then◌else◌, Result, ok, ◌>>=◌, All, length}
use rdesktop.Common.{u64}
use mathlib.Core.List.{append_assoc, append-nil}
use rdesktop.Stream.{Stream, in_uint8}
use rdesktop.Stream.Read.{Reads, advance, in_uint8-cons}

-- The loop at `left`, with the bytes stored so far: the final `left`, the bytes and the stream.
-- `while (left--)` leaves `left` at -1 where it ends the loop.
ansi_loop : ℕ → List ℕ → Stream → Result (ℕ × List ℕ × Stream)
ansi_loop zero text s = ok (2 ^ 64 - 1, text, s)
ansi_loop (suc left) text s =
    let next = (do
      (b, s') ← in_uint8 s
      elim (b == 0) [
        | true ↦ ok (left, text ++ (b ∷ []), s')
        | false ↦ ansi_loop left (text ++ (b ∷ [])) s'
      ]) in
    if left == 0 then ok (left, text, s) else next

-- The value returned, the bytes stored at `string`, and the stream.
unfoldable pub in_ansi_string : Stream → ℕ → Result (ℕ × List ℕ × Stream)
unfolding ansi_loop
in_ansi_string s len = do
  (left, text, s') ← ansi_loop len [] s
  ok (u64 (len + 2 ^ 64 - left), text, s')

abbrev pub IsText : List ℕ → Type 0
IsText = All (λ b. b ≢ 0)

ansi_loop-found :
    (name : List ℕ) {xs : List ℕ} (left : ℕ) (text : List ℕ) {s : Stream}
    → IsText name
    → length name + 1 < left
    → Reads s (name ++ 0 ∷ xs)
    → (s' : Stream) × (ansi_loop left text s
        ≡ ok (left - length name - 1, text ++ (name ++ 0 ∷ []), s'))
      × Reads s' xs
unfolding ansi_loop
ansi_loop-found name zero text t h r = absurd (omega arith)
ansi_loop-found [] (suc left) text {s} t h r =
    let got = in_uint8-cons 0 r in (advance s 1, ground (arith, got.0), got.1)
ansi_loop-found (b ∷ name) (suc left) text {s} t h r =
    let got = in_uint8-cons b r in
    let (s', done, more) = ansi_loop-found name left (text ++ (b ∷ [])) t.1 (omega arith) got.1 in
    (s', ground (arith, got.0, done, append_assoc text (b ∷ []) (name ++ 0 ∷ [])), more)

ansi_loop-long :
    (name : List ℕ) {xs : List ℕ} (text : List ℕ) {s : Stream}
    → IsText name
    → Reads s (name ++ xs)
    → (s' : Stream) × (ansi_loop (suc (length name)) text s ≡ ok (0, text ++ name, s'))
      × Reads s' xs
unfolding ansi_loop
ansi_loop-long [] text {s} t r = (s, ground (arith, append-nil text), r)
ansi_loop-long (b ∷ name) text {s} t r =
    let got = in_uint8-cons b r in
    let (s', done, more) = ansi_loop-long name (text ++ (b ∷ [])) t.1 got.1 in
    (s', ground (arith, got.0, done, append_assoc text (b ∷ []) name), more)

-- A text that ends within `len - 1` bytes is stored with its terminator, the bytes of both are
-- counted, and what follows is left to be read.
pub in_ansi_string-found :
    (name xs : List ℕ) (len : ℕ) {s : Stream}
    → IsText name
    → length name + 1 < len
    → len < 2 ^ 64
    → Reads s (name ++ 0 ∷ xs)
    → (s' : Stream) × (in_ansi_string s len ≡ ok (length name + 1, name ++ 0 ∷ [], s'))
      × Reads s' xs
unfolding in_ansi_string
in_ansi_string-found name xs len t h small r =
    let (s', done, more) = ansi_loop-found name len [] t h r in (s', ground (arith, done), more)

-- A text with no terminator in its first `len - 1` bytes is stored without one, and `len` bytes
-- are reported, one more than were read.
pub in_ansi_string-unterminated :
    (name xs : List ℕ) {s : Stream}
    → IsText name
    → suc (length name) < 2 ^ 64
    → Reads s (name ++ xs)
    → (s' : Stream) × (in_ansi_string s (suc (length name)) ≡ ok (suc (length name), name, s'))
      × Reads s' xs
unfolding in_ansi_string
in_ansi_string-unterminated name xs t small r =
    let (s', done, more) = ansi_loop-long name [] t r in (s', ground (arith, done), more)
