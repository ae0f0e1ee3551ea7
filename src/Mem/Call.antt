-- ===== src/Mem/Call.antt =====
-- A call that works on shared state and may fail: the state comes back after an error too, since
-- what was done before it stays done.
use alioth.Base.{◌≡◌, refl, List, [], ◌∷◌, Result, ok, err}
use alioth.Mem.Error.{Error}

abbrev pub Call {ℓ κ} : Type ℓ → Type κ → Type (ℓ ⊔ κ)
Call S A = S → Result Error A × S

abbrev pub pure {ℓ κ} : {S : Type ℓ} {A : Type κ} → A → Call S A
pure a s = (ok a, s)

abbrev pub fail {ℓ κ} : {S : Type ℓ} {A : Type κ} → Error → Call S A
fail e s = (err e, s)

abbrev pub gets {ℓ κ} : {S : Type ℓ} {A : Type κ} → (S → A) → Call S A
gets f s = (ok (f s), s)

-- What follows a call that has come back.
abbrev pub resume {ℓ κ ι} :
    {S : Type ℓ} {A : Type κ} {B : Type ι}
    → (A → Call S B)
    → Result Error A × S
    → Result Error B × S
resume f (ok a, s) = f a s
resume f (err e, s) = (err e, s)

infixl 5 ◌>>=◌ ◌>>◌
abbrev pub ◌>>=◌ {ℓ κ ι} :
    {S : Type ℓ} {A : Type κ} {B : Type ι} → Call S A → (A → Call S B) → Call S B
◌>>=◌ m f s = resume f (m s)

abbrev pub ◌>>◌ {ℓ κ ι} : {S : Type ℓ} {A : Type κ} {B : Type ι} → Call S A → Call S B → Call S B
m >> k = m >>= λ _. k

-- `for x in xs { f(x)? }`.
abbrev pub for_each {ℓ κ} :
    {S : Type ℓ} {A : Type κ} → List A → (A → Call S (Unit {0})) → Call S (Unit {0})
for_each [] f = pure tt
for_each (x ∷ xs) f = f x >> for_each xs f

-- A sequence that succeeds is two calls that do.
pub resume-ok {ℓ κ ι} :
    {S : Type ℓ} {A : Type κ} {B : Type ι} (f : A → Call S B) (r : Result Error A × S) (b : B)
    (s' : S)
    → resume f r ≡ (ok b, s')
    → (a : A) × (s : S) × (r ≡ (ok a, s)) × (f a s ≡ (ok b, s'))
resume-ok f (ok a, s) b s' e = (a, s, refl, e)
resume-ok f (err x, s) b s' e = absurd cc
