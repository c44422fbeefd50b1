-- ===== src/Cache/Chain.antt =====
-- A doubly linked list as a list of indices: its segments, and what assignments do to them.
use rdesktop.Common.{ℕ, ◌≡◌, ◌≢◌, refl, sym, ◌∙◌, arith, true, false, List, [], ◌∷◌}
use rdesktop.Common.{◌++◌, Option, none, some, All, ◌==◌}
use rdesktop.Cache.{update, update_at}

abbrev pub Links : Type 0
Links = ℕ → Option ℕ

-- The ends of a list, with what stands before it and after it.
abbrev pub head_of : List ℕ → Option ℕ → Option ℕ
head_of [] n = n
head_of (x ∷ xs) n = some x

abbrev pub last_of : List ℕ → Option ℕ → Option ℕ
last_of [] p = p
last_of (x ∷ xs) p = last_of xs (some x)

-- The entries of a list are linked in its order, between `p` and `n`.
abbrev pub IsChain : (previous next : Links) → Option ℕ → List ℕ → Option ℕ → Type 0
IsChain previous next p [] n = Unit
IsChain previous next p (x ∷ xs) n =
    (previous x ≡ p) × (next x ≡ head_of xs n) × IsChain previous next (some x) xs n

abbrev pub IsOff : ℕ → List ℕ → Type 0
IsOff i = All (λ j. j ≢ i)

abbrev pub IsSimple : List ℕ → Type 0
IsSimple [] = Unit
IsSimple (x ∷ xs) = IsOff x xs × IsSimple xs

pub update_same {ℓ} : {A : Type ℓ} (f : ℕ → A) (i : ℕ) (v : A) → update f i v i ≡ v
update_same f i v = let e : (i == i) ≡ true = ground arith in rw e refl

pub update_other {ℓ} : {A : Type ℓ} (f : ℕ → A) (i j : ℕ) (v : A) → j ≢ i → update f i v j ≡ f j
update_other f i j v h = let e : (i == j) ≡ false = ground arith in rw e refl

-- Chains in sequence.
pub IsChain-append :
    (previous next : Links) (p : Option ℕ) (xs ys : List ℕ) (n : Option ℕ)
    → IsChain previous next p xs (head_of ys n)
    → IsChain previous next (last_of xs p) ys n
    → IsChain previous next p (xs ++ ys) n
IsChain-append previous next p [] ys n cx cy = cy
IsChain-append previous next p (x ∷ []) ys n cx cy = (cx.0, cx.1, cy)
IsChain-append previous next p (x ∷ y ∷ xs) ys n cx cy =
    (cx.0, cx.1, IsChain-append previous next (some x) (y ∷ xs) ys n cx.2 cy)

pub IsChain-split :
    (previous next : Links) (p : Option ℕ) (xs ys : List ℕ) (n : Option ℕ)
    → IsChain previous next p (xs ++ ys) n
    → IsChain previous next p xs (head_of ys n) × IsChain previous next (last_of xs p) ys n
IsChain-split previous next p [] ys n c = (tt, c)
IsChain-split previous next p (x ∷ []) ys n c = ((c.0, c.1, tt), c.2)
IsChain-split previous next p (x ∷ y ∷ xs) ys n c =
    let rest = IsChain-split previous next (some x) (y ∷ xs) ys n c.2 in
    ((c.0, c.1, rest.0), rest.1)

-- Links of entries that are not in the list do not matter.
pub IsChain-off :
    (previous next : Links) (p : Option ℕ) (xs : List ℕ) (n : Option ℕ) (i : ℕ) (v w : Option ℕ)
    → IsOff i xs
    → IsChain previous next p xs n
    → IsChain (update previous i v) next p xs n × IsChain previous (update next i w) p xs n
IsChain-off previous next p [] n i v w off c = (tt, tt)
IsChain-off previous next p (x ∷ xs) n i v w (d, off) c =
    let rest = IsChain-off previous next (some x) xs n i v w off c.2 in
    (
      (update_other previous i x v d ∙ c.0, c.1, rest.0),
      (c.0, update_other next i x w d ∙ c.1, rest.1),
    )

-- The first entry gets another one before it.
pub IsChain-front :
    (previous next : Links) (p p' : Option ℕ) (xs : List ℕ) (n : Option ℕ)
    → IsSimple xs
    → IsChain previous next p xs n
    → IsChain (update_at previous (head_of xs none) p') next p' xs n
unfolding update_at
IsChain-front previous next p p' [] n simple c = tt
IsChain-front previous next p p' (x ∷ xs) n (off, simple) c =
    (update_same previous x p', c.1, (IsChain-off previous next (some x) xs n x p' none off c.2).0)

-- An entry off the list is not its last one.
back_other :
    (next : Links) (v : Option ℕ) (x : ℕ) (xs : List ℕ) (q : ℕ)
    → IsOff q (x ∷ xs)
    → update_at next (last_of xs (some x)) v q ≡ next q
unfolding update_at
back_other next v x [] q off = update_other next x q v (λ e. off.0 (sym e))
back_other next v x (y ∷ xs) q off = back_other next v y xs q off.1

-- The last entry gets another one after it; `q` stands for the last entry so far.
IsChain-back_from :
    (previous next : Links) (q : ℕ) (xs : List ℕ) (p n n' : Option ℕ)
    → IsOff q xs
    → IsSimple xs
    → IsChain previous next p (q ∷ xs) n
    → IsChain previous (update_at next (last_of xs (some q)) n') p (q ∷ xs) n'
unfolding update_at
IsChain-back_from previous next q [] p n n' off simple c = (c.0, update_same next q n', tt)
IsChain-back_from previous next q (x ∷ xs) p n n' off (offx, simple) c =
    let rest = IsChain-back_from previous next x xs (some q) n n' offx simple c.2 in
    (c.0, back_other next n' x xs q off ∙ c.1, rest)

pub IsChain-back :
    (previous next : Links) (p n n' : Option ℕ) (xs : List ℕ)
    → IsSimple xs
    → IsChain previous next p xs n
    → IsChain previous (update_at next (last_of xs none) n') p xs n'
unfolding update_at
IsChain-back previous next p n n' [] simple c = tt
IsChain-back previous next p n n' (x ∷ xs) simple c =
    unfold IsChain-back_from in IsChain-back_from previous next x xs p n n' simple.0 simple.1 c

-- The same for an index that may not be set.
abbrev pub IsOffAt : Option ℕ → List ℕ → Type 0
IsOffAt none xs = Unit
IsOffAt (some i) xs = IsOff i xs

pub IsChain-off_at :
    (previous next : Links) (p : Option ℕ) (xs : List ℕ) (n i v w : Option ℕ)
    → IsOffAt i xs
    → IsChain previous next p xs n
    → IsChain (update_at previous i v) next p xs n × IsChain previous (update_at next i w) p xs n
unfolding update_at
IsChain-off_at previous next p xs n none v w off c = (c, c)
IsChain-off_at previous next p xs n (some i) v w off c =
    IsChain-off previous next p xs n i v w off c

pub IsOff-split : (i : ℕ) (xs ys : List ℕ) → IsOff i (xs ++ ys) → IsOff i xs × IsOff i ys
IsOff-split i [] ys off = (tt, off)
IsOff-split i (x ∷ xs) ys (d, off) = let rest = IsOff-split i xs ys off in ((d, rest.0), rest.1)

pub IsOff-append : (i : ℕ) (xs ys : List ℕ) → IsOff i xs → IsOff i ys → IsOff i (xs ++ ys)
IsOff-append i [] ys offx offy = offy
IsOff-append i (x ∷ xs) ys (d, offx) offy = (d, IsOff-append i xs ys offx offy)

-- The two parts of a list without repetition.
pub IsSimple-split : (xs ys : List ℕ) → IsSimple (xs ++ ys) → IsSimple xs × IsSimple ys
IsSimple-split [] ys s = (tt, s)
IsSimple-split (x ∷ xs) ys (off, s) =
    let rest = IsSimple-split xs ys s in (((IsOff-split x xs ys off).0, rest.0), rest.1)

head-IsOff : (xs : List ℕ) (y : ℕ) (ys : List ℕ) → IsSimple (xs ++ (y ∷ ys)) → IsOff y xs
head-IsOff [] y ys s = tt
head-IsOff (x ∷ xs) y ys (off, s) =
    ((λ e. (IsOff-split x xs (y ∷ ys) off).1.0 (sym e)), head-IsOff xs y ys s)

pub head-IsOffAt : (xs ys : List ℕ) → IsSimple (xs ++ ys) → IsOffAt (head_of ys none) xs
head-IsOffAt xs [] s = tt
head-IsOffAt xs (y ∷ ys) s = head-IsOff xs y ys s

last-IsOff : (q : ℕ) (xs ys : List ℕ) → IsSimple (q ∷ (xs ++ ys)) → IsOffAt (last_of xs (some q)) ys
last-IsOff q [] ys s = s.0
last-IsOff q (x ∷ xs) ys s = last-IsOff x xs ys s.1

pub last-IsOffAt : (xs ys : List ℕ) → IsSimple (xs ++ ys) → IsOffAt (last_of xs none) ys
last-IsOffAt [] ys s = tt
last-IsOffAt (x ∷ xs) ys s = last-IsOff x xs ys s

-- Repetition depends on no order: an entry may be put in, or taken out.
pub IsSimple-insert :
    (i : ℕ) (xs ys : List ℕ) → IsOff i (xs ++ ys) → IsSimple (xs ++ ys) → IsSimple (xs ++ (i ∷ ys))
IsSimple-insert i [] ys off s = (off, s)
IsSimple-insert i (x ∷ xs) ys (d, off) (offx, s) =
    let parts = IsOff-split x xs ys offx in
    (IsOff-append x xs (i ∷ ys) parts.0 ((λ e. d (sym e)), parts.1), IsSimple-insert i xs ys off s)

pub IsSimple-remove :
    (i : ℕ) (xs ys : List ℕ) → IsSimple (xs ++ (i ∷ ys)) → IsOff i (xs ++ ys) × IsSimple (xs ++ ys)
IsSimple-remove i [] ys s = s
IsSimple-remove i (x ∷ xs) ys (off, s) =
    let parts = IsOff-split x xs (i ∷ ys) off in
    let rest = IsSimple-remove i xs ys s in
    (((λ e. parts.1.0 (sym e)), rest.0), (IsOff-append x xs ys parts.0 parts.1.1, rest.1))
