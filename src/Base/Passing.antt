-- ===== src/Base/Passing.antt =====
-- State passing: an operation takes the state and returns its result beside the new state.

abbrev pub State : Type 0 → Type 0 → Type 0
State S A = S → A × S

module _ {S A : Type 0} where
  abbrev pub pure : A → State S A
  pure a s = (a, s)

  abbrev pub gets : (S → A) → State S A
  gets f s = (f s, s)

module _ {S : Type 0} where
  abbrev pub modify : (S → S) → State S (Unit {0})
  modify f s = (tt, f s)

module _ {S A B : Type 0} where
  infixl 5 ◌>>=◌ ◌>>◌
  unfoldable pub ◌>>=◌ : State S A → (A → State S B) → State S B
  ◌>>=◌ m f s = let (a, s') = m s in f a s'

  abbrev pub ◌>>◌ : State S A → State S B → State S B
  m >> n = m >>= λ _. n
