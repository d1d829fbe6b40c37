-- ===== src/Common/Results.antt =====
-- Go's `(value, error)` results and early returns, as a state and error monad: a method runs on
-- the state `S`, and returns a value or the error with the state that it leaves.

use mathlib.Core.Path.{◌≡◌, refl, ap, ◌∙◌}

pub data Result (E A : Type 0) : Type 0 where
  ok : A → Result E A
  err : E → Result E A

abbrev pub M : Type 0 → Type 0 → Type 0 → Type 0
M S E A = S → Result E A × S

abbrev pub pure : {S E A : Type 0} → A → M S E A
pure a s = (ok a, s)

abbrev pub throw : {S E A : Type 0} → E → M S E A
throw e s = (err e, s)

abbrev pub bind_at : {S E A B : Type 0} → (A → M S E B) → Result E A → S → Result E B × S
bind_at f (ok a) s = f a s
bind_at f (err e) s = (err e, s)

infixl 5 ◌>>=◌ ◌>>◌
unfoldable pub ◌>>=◌ : {S E A B : Type 0} → M S E A → (A → M S E B) → M S E B
◌>>=◌ m f s = let r = m s in bind_at f r.0 r.1

abbrev pub ◌>>◌ : {S E B : Type 0} → M S E (Unit {0}) → M S E B → M S E B
m >> k = m >>= λ _. k

-- A state predicate across a bind: `P` holds between the parts, and gives `Q` where the first fails.
pub bind_state {ℓ κ} :
    {S E A B : Type 0} (P : S → Type ℓ) (Q : S → Type κ) (m : M S E A) (f : A → M S E B) (s : S)
    → P (m s).1
    → ((t : S) → P t → Q t)
    → ((a : A) (t : S) → P t → Q (f a t).1)
    → Q ((m >>= f) s).1
unfolding ◌>>=◌
bind_state {E} {A} P Q m f s p weaken next = at (m s).0
  where
    at : (r : Result E A) → Q (bind_at f r (m s).1).1
    at (ok a) = next a _ p
    at (err e) = weaken _ p

-- A property of the result and the state across a bind, by the way the first part ends.
pub bind_post {ℓ} :
    {S E A B : Type 0} (Q : Result E B → S → Type ℓ) (m : M S E A) (f : A → M S E B) (s : S)
    → ((e : E) → (m s).0 ≡ err e → Q (err e) (m s).1)
    → ((a : A) → (m s).0 ≡ ok a → Q (f a (m s).1).0 (f a (m s).1).1)
    → Q ((m >>= f) s).0 ((m >>= f) s).1
unfolding ◌>>=◌
bind_post {E} {A} Q m f s failed next = at (m s).0 refl
  where
    at : (r : Result E A) → (m s).0 ≡ r → Q (bind_at f r (m s).1).0 (bind_at f r (m s).1).1
    at (ok a) p = next a p
    at (err e) p = failed e p

-- The result across a bind whose first part gives a value.
pub bind_value :
    {S E A B : Type 0} (m : M S E A) (f : A → M S E B) (s : S) {a : A} {r : Result E B}
    → (m s).0 ≡ ok a
    → (f a (m s).1).0 ≡ r
    → ((m >>= f) s).0 ≡ r
unfolding ◌>>=◌
bind_value m f s p q = ap (λ x. (bind_at f x (m s).1).0) p ∙ q

-- What holds of the value across a bind, if it holds of each value of the second part.
pub bind_ok {ℓ} :
    {S E A B : Type 0} (P : B → Type ℓ) (m : M S E A) (f : A → M S E B) (s : S)
    → ((a : A) (t : S) → (b : B) → (f a t).0 ≡ ok b → P b)
    → (b : B) → ((m >>= f) s).0 ≡ ok b
    → P b
unfolding ◌>>=◌
bind_ok {E} {A} {B} P m f s next b h = at (m s).0 h
  where
    at : (r : Result E A) → (bind_at f r (m s).1).0 ≡ ok b → P b
    at (ok a) p = next a _ b p
    at (err e) p = cc p
