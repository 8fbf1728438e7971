-- ===== src/Base/Attempt.antt =====
-- The result of code that returns an Option and can also panic.
use mathlib.Core.Option.{Option, none, some}

pub data Attempt {ℓ} (A : Type ℓ) : Type ℓ where
  panicked : Attempt A
  declined : Attempt A
  done : A → Attempt A

infixl 5 ◌>>=◌
abbrev pub ◌>>=◌ {ℓ κ} : {A : Type ℓ} {B : Type κ} → Attempt A → (A → Attempt B) → Attempt B
panicked >>= f = panicked
declined >>= f = declined
done a >>= f = f a

-- Code that panics on `none`.
abbrev pub expect {ℓ} : {A : Type ℓ} → Option A → Attempt A
expect none = panicked
expect (some a) = done a
