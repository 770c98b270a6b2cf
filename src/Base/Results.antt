-- ===== src/Base/Results.antt =====
-- Asynchronous methods that may throw, as functions from the world to a result and the world after.
-- What was done before a throw stays done, so the world comes back beside the error too.

pub data Result {ℓ κ} (E : Type κ) (A : Type ℓ) : Type (ℓ ⊔ κ) where
  ok : A → Result E A
  err : E → Result E A

abbrev pub Exec : Type 0 → Type 0 → Type 0 → Type 0
Exec W E A = W → Result E A × W

module _ {W E A : Type 0} where
  unfoldable pub pure : A → Exec W E A
  pure a w = (ok a, w)

  unfoldable pub throw : E → Exec W E A
  throw e w = (err e, w)

  unfoldable pub lift : Result E A → Exec W E A
  lift r w = (r, w)

module _ {W E A B : Type 0} where
  abbrev pub resume : Result E A → (A → Exec W E B) → (E → Exec W E B) → Exec W E B
  resume (ok a) f h w = f a w
  resume (err e) f h w = h e w

  -- `try { a = m } catch (e) { return h e }` followed by `f a` outside the `try`. Opening this opens
  -- `pure`, `throw` and `lift` too.
  unfoldable pub try_catch : Exec W E A → (A → Exec W E B) → (E → Exec W E B) → Exec W E B
  unfolding pure throw lift
  try_catch m f h w = let (r, w') = m w in resume r f h w'

  infixl 5 ◌>>=◌
  abbrev pub ◌>>=◌ : Exec W E A → (A → Exec W E B) → Exec W E B
  ◌>>=◌ m f = try_catch m f throw

module _ {W E B : Type 0} where
  infixl 5 ◌>>◌
  abbrev pub ◌>>◌ : {A : Type 0} → Exec W E A → Exec W E B → Exec W E B
  m >> k = m >>= λ _. k
