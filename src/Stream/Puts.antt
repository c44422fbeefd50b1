-- ===== src/Stream/Puts.antt =====
-- What a sequence of `out_...` writes, on every stream with room for it.
use rdesktop.Common.{ℕ, ◌+◌, ◌≡◌, refl, ◌∙◌, arith, List, ◌++◌}
use rdesktop.Common.{ok, length, Result, ◌>>=◌, length-append}
use mathlib.Core.List.{append_assoc}
use rdesktop.Stream.{Stream, out_uint8a}
use rdesktop.Stream.Write.{Writes, put, out_uint8a-Writes}

-- What a step leaves of a stream.
pub record Left (s s' : Stream) (ws : List ℕ) (n m : ℕ) : Type 0 where
  pub writes : Writes s' ws n
  pub moved : s'.p ≡ s.p + m
  pub same_hdr : s'.hdr ≡ s.hdr

-- `m` writes exactly `bs`, on every valid stream with room for them.
abbrev pub Puts : (Stream → Result Stream) → List ℕ → Type 0
Puts m bs =
    (s : Stream) (ws : List ℕ) (n : ℕ)
    → Writes s ws (length bs + n)
    → (s' : Stream) × ((m s ≡ ok s') × Left s s' (ws ++ bs) n (length bs))

pub bytes-Puts : (bs : List ℕ) → Puts (λ s. out_uint8a s bs) bs
bytes-Puts bs s ws n w =
    let step = out_uint8a-Writes bs {n = n} w in
    (put s bs, (step.0, record { writes = step.1; moved = refl; same_hdr = refl }))

-- One step after the other.
pub then-Puts :
    (m f : Stream → Result Stream) (a b : List ℕ)
    → Puts m a
    → Puts f b
    → Puts (λ s. m s >>= f) (a ++ b)
then-Puts m f a b pm pf s ws n w =
    let (s1, (e1, l1)) = pm s ws (length b + n) (record {
      valid = w.valid;
      before = w.before;
      fits = omega (arith, w.fits, length-append a b);
    }) in
    let (s2, (e2, l2)) = pf s1 (ws ++ a) n l1.writes in
    (
      s2,
      (
        rw e1 e2,
        record {
          writes = rw (← append_assoc ws a b) l2.writes;
          moved = omega (arith, l1.moved, l2.moved, length-append a b);
          same_hdr = l2.same_hdr ∙ l1.same_hdr;
        },
      ),
    )

pub step-Puts :
    (bs : List ℕ) (f : Stream → Result Stream) (b : List ℕ)
    → Puts f b
    → Puts (λ s. out_uint8a s bs >>= f) (bs ++ b)
step-Puts bs f b p = then-Puts (λ s. out_uint8a s bs) f bs b (bytes-Puts bs) p
