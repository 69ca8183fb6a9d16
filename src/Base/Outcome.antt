-- ===== src/Base/Outcome.antt =====
-- Calls on a state that may end abnormally. What was done before stays done.
use mathlib.Core.Path.{◌≡◌, ap}

-- An exception that is not caught, a null pointer that is followed, and `*` on a null
-- `odb::nullable` or past the end of a string, which C++ and ODB leave undefined.
pub data Fault : Type 0 where
  exception null_pointer null_value out_of_range aborted : Fault

pub data Outcome (A : Type 0) : Type 0 where
  done : A → Outcome A
  crash : Fault → Outcome A

abbrev pub M : Type 0 → Type 0 → Type 0
M S A = S → Outcome A × S

abbrev pub pure : {S A : Type 0} → A → M S A
pure a s = (done a, s)

abbrev pub fail : {S A : Type 0} → Fault → M S A
fail e s = (crash e, s)

infixl 5 ◌>>=◌ ◌>>◌
abbrev pub ◌>>=◌ : {S A B : Type 0} → M S A → (A → M S B) → M S B
◌>>=◌ m f s = let (o, s') = m s in elim o [ done a ↦ f a s' | crash e ↦ (crash e, s') ]

abbrev pub ◌>>◌ : {S B : Type 0} → M S (Unit {0}) → M S B → M S B
m >> k = m >>= λ _. k

-- A step that is done is followed by the next.
pub bind_done :
    {S A B : Type 0} (m : M S A) (k : A → M S B) (a : A) (s t : S)
    → m s ≡ (done a, t)
    → (m >>= k) s ≡ k a t
bind_done m k a s t e = ap (λ x. elim (x.0) [ done b ↦ k b x.1 | crash f ↦ (crash f, x.1) ]) e
