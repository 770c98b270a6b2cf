-- ===== src/Repository/Outcomes/Post.antt =====
-- What holds where a chain of calls has returned: rules over its links.
use api_proxy.Base.{
  ◌≡◌, refl, subst, Bool, true, false, if◌then◌else◌, Result, ok, err, Exec, pure, throw, try_catch,
  resume, ◌>>=◌,
}

module _ {W E : Type 0} where
  -- Where `m` returns from the world `w`, its value and the world after have `Q`.
  abbrev pub Post : {A : Type 0} → (A → W → Type 0) → Exec W E A → W → Type 0
  Post {A} Q m w = (a : A) → (m w).0 ≡ ok a → Q a (m w).1

  pub Post-pure : {A : Type 0} (Q : A → W → Type 0) (a : A) (w : W) → Q a w → Post Q (pure a) w
  unfolding pure
  Post-pure Q a w q b h = let e : a ≡ b = cc in subst (λ x. Q x w) e q

  pub Post-throw : {A : Type 0} (Q : A → W → Type 0) (e : E) (w : W) → Post Q (throw e) w
  unfolding throw
  Post-throw Q e w b h = cc

  pub Post-if :
      {A : Type 0} (Q : A → W → Type 0) (b : Bool) (m n : Exec W E A) (w : W)
      → (b ≡ true → Post Q m w)
      → (b ≡ false → Post Q n w)
      → Post Q (if b then m else n) w
  Post-if Q true m n w p q = p refl
  Post-if Q false m n w p q = q refl

  pub Post-resume :
      {A B : Type 0} (Q : B → W → Type 0) (r : Result E A) (f : A → Exec W E B) (h : E → Exec W E B)
      (v : W)
      → ((a : A) → r ≡ ok a → Post Q (f a) v)
      → ((e : E) → r ≡ err e → Post Q (h e) v)
      → Post Q (resume r f h) v
  Post-resume Q (ok a) f h v p q = p a refl
  Post-resume Q (err e) f h v p q = q e refl

  pub Post-try_catch :
      {A B : Type 0} (Q : B → W → Type 0) (m : Exec W E A) (f : A → Exec W E B) (h : E → Exec W E B)
      (w : W)
      → ((a : A) → (m w).0 ≡ ok a → Post Q (f a) (m w).1)
      → ((e : E) → (m w).0 ≡ err e → Post Q (h e) (m w).1)
      → Post Q (try_catch m f h) w
  unfolding try_catch
  Post-try_catch Q m f h w p q = Post-resume Q (m w).0 f h (m w).1 p q

  pub Post-bind :
      {A B : Type 0} (Q : B → W → Type 0) (m : Exec W E A) (f : A → Exec W E B) (w : W)
      → ((a : A) → (m w).0 ≡ ok a → Post Q (f a) (m w).1)
      → Post Q (m >>= f) w
  Post-bind Q m f w p = Post-try_catch Q m f throw w p (λ e _. Post-throw Q e (m w).1)
