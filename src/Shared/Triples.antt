-- ===== src/Shared/Triples.antt =====
-- Triples for the calls of Shared/Errors.antt: a precondition, a postcondition of the value that is
-- returned, and what also holds when the call raises.
use backend_core.Common.{Bool, true, false, ◌≡◌, refl}
use backend_core.Shared.Errors.{Error, Result, ok, err, Action, raise_if, ◌>>=◌}

module _ {S : Type 0} (I : S → Type 0) where
  abbrev pub Post : {A : Type 0} → (A → S → Type 0) → Result A → S → Type 0
  Post Q (ok a) s = Q a s
  Post Q (err e) s = I s

  abbrev pub Triple : {A : Type 0} → (S → Type 0) → Action S A → (A → S → Type 0) → Type 0
  Triple P m Q = (s : S) → P s → Post Q (m s).0 (m s).1

  -- A call that keeps `I` whatever it answers.
  abbrev pub Keeps : {A : Type 0} → Action S A → Type 0
  Keeps m = Triple I m (λ _. I)

  pub bind :
      {A B : Type 0} {P : S → Type 0} {Q : A → S → Type 0} (R : B → S → Type 0) (m : Action S A)
      (k : A → Action S B)
      → Triple P m Q
      → ((a : A) → Triple (Q a) (k a) R)
      → Triple P (m >>= k) R
  bind {A} {B} {P} {Q} R m k t u s p = bind_result (m s).0 (m s).1 (t s p)
    where
      bind_result :
          (r : Result A) (s' : S)
          → Post Q r s'
          → Post R (((λ _. (r, s')) >>= k) s).0 (((λ _. (r, s')) >>= k) s).1
      bind_result (ok a) s' h = u a s' h
      bind_result (err e) s' h = h

  -- What leaves the state alone.
  pub pass : {A : Type 0} (f : S → Result A) → Keeps (λ s. (f s, s))
  pass {A} f s v = pass_result (f s) s v
    where
      pass_result : (r : Result A) (s : S) → I s → Post (λ _. I) r s
      pass_result (ok a) s h = h
      pass_result (err e) s h = h

  -- A guard, under which the rest runs.
  pub guard :
      {P : S → Type 0} (b : Bool) (e : Error)
      → ((s : S) → P s → I s)
      → Triple P (raise_if b e) (λ _ s. P s × (b ≡ false))
  guard true e h s p = h s p
  guard false e h s p = (p, refl)

  pub keep :
      {A B : Type 0} (m : Action S A) (k : A → Action S B)
      → Keeps m
      → ((a : A) → Keeps (k a))
      → Keeps (m >>= k)
  keep m k t u = bind (λ _. I) m k t u
