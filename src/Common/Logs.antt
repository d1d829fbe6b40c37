-- ===== src/Common/Logs.antt =====
-- Computations by what they leave in a log that the state holds, the newest entry first.
use mathlib.Core.Path.{◌≡◌, refl, sym, ap, ◌∙◌}
use mathlib.Core.List.{List, [], ◌∷◌, ◌++◌}
use net_perf_test.Common.Results.{ok, M, pure, ◌>>=◌}

-- The entries put on those made before.
abbrev pub onto {ℓ} : {L : Type ℓ} → List L → List L → List L
onto [] old = old
onto (q ∷ qs) old = onto qs (q ∷ old)

onto-append {ℓ} : {L : Type ℓ} (ps qs old : List L) → onto (ps ++ qs) old ≡ onto qs (onto ps old)
onto-append [] qs old = refl
onto-append (p ∷ ps) qs old = onto-append ps qs (p ∷ old)

module _ {S L : Type 0} (log : S → List L) where
  -- A computation that gives a value, and logs these entries in this order and no other.
  unfoldable pub Logs : {E A : Type 0} → List L → M S E A → Type 0
  Logs {E} {A} qs m = (s : S) → ((a : A) × ((m s).0 ≡ ok a)) × (log (m s).1 ≡ onto qs (log s))

  pub pure-Logs : (E : Type 0) {A : Type 0} (a : A) → Logs [] (pure {S = S} {E = E} a)
  unfolding Logs
  pure-Logs E a s = ((a, refl), refl)

  pub bind-Logs :
      {E A B : Type 0} (ps qs : List L) (m : M S E A) (f : A → M S E B)
      → Logs ps m
      → ((a : A) → Logs qs (f a))
      → Logs (ps ++ qs) (m >>= f)
  unfolding ◌>>=◌ Logs
  bind-Logs ps qs m f p q s =
      let ((a, e), h) = p s in
      let ((b, e1), h1) = q a (m s).1 in
      ((b, rw e e1), rw e (h1 ∙ ap (onto qs) h ∙ sym (onto-append ps qs (log s))))
