-- ===== src/Common/Outcome.antt =====
-- What a call of the client's code comes to, with `do`.
use mathlib.Core.Bool.{Bool, true, false}
use mathlib.Core.Path.{◌≡◌, subst}
use rdesktop.Common.Tests.{if◌then◌else◌}

-- A C function that ends by other means than returning.
pub data Exit : Type 0 where
  -- `rdp_protocol_error`, which logs and ends the process
  protocol_error : Exit
  -- `exit` in `s_assert_w`
  write_overrun : Exit
  -- an access outside an object, which C leaves undefined
  undefined : Exit
  -- `exit(EX_SOFTWARE)`, where the client finds its own state inconsistent
  inconsistent : Exit
  -- a loop that goes on for ever
  forever : Exit

pub data Result {ℓ} (A : Type ℓ) : Type ℓ where
  ok : A → Result A
  exit : Exit → Result A

-- Sequencing: the first exit is the exit of the whole.
infixl 5 ◌>>=◌ ◌>>◌
abbrev pub ◌>>=◌ {ℓ κ} : {A : Type ℓ} {B : Type κ} → Result A → (A → Result B) → Result B
exit reason >>= next = exit reason
ok value >>= next = next value

abbrev pub ◌>>◌ {ℓ} : {B : Type ℓ} → Result (Unit {0}) → Result B → Result B
first >> second = first >>= λ done. second

-- `if (!test) { … exit … }`
abbrev pub guard : Bool → Exit → Result (Unit {0})
guard false reason = exit reason
guard true reason = ok tt

-- `P` of what is returned, if the call returns.
abbrev pub Returns {ℓ} : {A : Type ℓ} → (A → Type 0) → Result A → Type 0
Returns P (ok value) = P value
Returns P (exit reason) = Unit {0}

pub Returns-bind {ℓ κ} :
    {A : Type ℓ} {B : Type κ} (P : A → Type 0) (Q : B → Type 0) (m : Result A) (f : A → Result B)
    → Returns P m
    → ((a : A) → P a → Returns Q (f a))
    → Returns Q (m >>= f)
Returns-bind P Q (ok a) f h k = k a h
Returns-bind P Q (exit reason) f h k = tt

-- The same where nothing is known of the first call.
pub Returns-then {ℓ κ} :
    {A : Type ℓ} {B : Type κ} (Q : B → Type 0) (m : Result A) (f : A → Result B)
    → ((a : A) → Returns Q (f a))
    → Returns Q (m >>= f)
Returns-then Q (ok a) f k = k a
Returns-then Q (exit reason) f k = tt

pub Returns-map {ℓ} :
    {A : Type ℓ} (P Q : A → Type 0) (m : Result A)
    → Returns P m
    → ((a : A) → P a → Q a)
    → Returns Q m
Returns-map P Q (ok a) h k = k a h
Returns-map P Q (exit reason) h k = tt

-- A call that has returned.
pub Returns-at {ℓ} :
    {A : Type ℓ} (P : A → Type 0) {a : A} (m : Result A) → m ≡ ok a → Returns P m → P a
Returns-at P m e h = subst (λ r. Returns P r) e h

-- The call does not go on for ever: it returns, or ends the session.
abbrev pub Finishes {ℓ} : {A : Type ℓ} → Result A → Type 0
Finishes (ok value) = Unit {0}
Finishes (exit forever) = ⊥
Finishes (exit protocol_error) = Unit {0}
Finishes (exit write_overrun) = Unit {0}
Finishes (exit undefined) = Unit {0}
Finishes (exit inconsistent) = Unit {0}

pub Finishes-bind {ℓ κ} :
    {A : Type ℓ} {B : Type κ} (m : Result A) (f : A → Result B)
    → Finishes m
    → ((a : A) → Finishes (f a))
    → Finishes (m >>= f)
Finishes-bind (ok a) f h k = k a
Finishes-bind (exit protocol_error) f h k = tt
Finishes-bind (exit write_overrun) f h k = tt
Finishes-bind (exit undefined) f h k = tt
Finishes-bind (exit inconsistent) f h k = tt
Finishes-bind (exit forever) f h k = absurd h

-- With what is known of the value.
pub Finishes-then {ℓ κ} :
    {A : Type ℓ} {B : Type κ} (P : A → Type 0) (m : Result A) (f : A → Result B)
    → Finishes m
    → Returns P m
    → ((a : A) → P a → Finishes (f a))
    → Finishes (m >>= f)
Finishes-then P (ok a) f h p k = k a p
Finishes-then P (exit protocol_error) f h p k = tt
Finishes-then P (exit write_overrun) f h p k = tt
Finishes-then P (exit undefined) f h p k = tt
Finishes-then P (exit inconsistent) f h p k = tt
Finishes-then P (exit forever) f h p k = absurd h

pub Finishes-if {ℓ} :
    {A : Type ℓ} (test : Bool) (m n : Result A)
    → Finishes m
    → Finishes n
    → Finishes (if test then m else n)
Finishes-if true m n hm hn = hm
Finishes-if false m n hm hn = hn
