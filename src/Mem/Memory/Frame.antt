-- ===== src/Mem/Memory/Frame.antt =====
-- The parts of the memory that a call of mem.rs leaves as they are.
use alioth.Base.{◌≡◌, refl, List, [], ◌∷◌, Result, ok, err, ◌∙◌}
use alioth.Mem.Error.{Error}
use alioth.Mem.Call.{Call, ◌>>=◌, resume, for_each}
use alioth.Mem.Memory.{Memory, State, in_world}

-- What a call leaves as it is.
module _ {W D X : Type 0} (f : Memory D → X) where
  abbrev pub Keeps : {A : Type 0} → Call (State W D) A → Type 0
  Keeps c = (s : State W D) → f (c s).1.0 ≡ f s.0

  Keeps-resume :
      {A B : Type 0} (k : A → Call (State W D) B) (x : X) (r : Result Error A × State W D)
      → f r.1.0 ≡ x
      → ((a : A) → Keeps (k a))
      → f (resume k r).1.0 ≡ x
  Keeps-resume k x (ok a, s) h keep = keep a s ∙ h
  Keeps-resume k x (err e, s) h keep = h

  pub Keeps-bind :
      {A B : Type 0} (c : Call (State W D) A) (k : A → Call (State W D) B)
      → Keeps c
      → ((a : A) → Keeps (k a))
      → Keeps (c >>= k)
  Keeps-bind c k h keep s = Keeps-resume k (f s.0) (c s) (h s) keep

  pub Keeps-world : {A : Type 0} (c : Call W A) → Keeps (in_world c)
  Keeps-world c (m, w) = refl

  pub Keeps-each :
      {A : Type 0} (xs : List A) (c : A → Call (State W D) (Unit {0}))
      → ((x : A) → Keeps (c x))
      → Keeps (for_each xs c)
  Keeps-each [] c h s = refl
  Keeps-each (x ∷ xs) c h s = Keeps-bind (c x) (λ _. for_each xs c) (h x) (λ _. Keeps-each xs c h) s
