-- ===== src/Base/Triple.antt =====
-- Triples: from which worlds a method is called, and what holds where it returns or throws.
use mathlib.Core.Path.{◌≡◌, refl, subst}
use native.Mathlib.Omega.{arith}
use mathlib.Core.Bool.{Bool, true, false}
use api_proxy.Base.Results.{Result, ok, err, Exec, pure, throw, lift, try_catch, resume, ◌>>=◌}
use api_proxy.Base.Tests.{if◌then◌else◌}

module _ {W X : Type 0} where
  abbrev pub Ends : {A : Type 0} → (A → W → Type 0) → (X → W → Type 0) → Result X A → W → Type 0
  Ends Q E (ok a) v = Q a v
  Ends Q E (err e) v = E e v

  -- Called where `P` holds, `m` returns with `Q` or throws with `E`.
  pub record Triple {A : Type 0} (P : W → Type 0) (m : Exec W X A) (Q : A → W → Type 0)
      (E : X → W → Type 0) : Type 0 where
    pub at : (w : W) → P w → Ends Q E (m w).0 (m w).1

  pub Ends-cases :
      {A : Type 0} (Q : A → W → Type 0) (E : X → W → Type 0) (r : Result X A) (v : W)
      → ((a : A) → r ≡ ok a → Q a v)
      → ((e : X) → r ≡ err e → E e v)
      → Ends Q E r v
  Ends-cases Q E (ok a) v k l = k a refl
  Ends-cases Q E (err e) v k l = l e refl

  -- A result, and the world that the method leaves.
  pub Ends-here :
      {A : Type 0} (Q : A → W → Type 0) (E : X → W → Type 0) (r : Result X A) (v : W)
      → Ends Q E r v
      → Ends (λ a u. Q a u × (u ≡ v) × (r ≡ ok a)) E r v
  Ends-here Q E (ok a) v k = (k, refl, refl)
  Ends-here Q E (err e) v k = k

  module _ {A : Type 0} {P : W → Type 0} {Q : A → W → Type 0} {E : X → W → Type 0} where
    pub Triple-lift :
        (r : Result X A)
        → ((a : A) (w : W) → r ≡ ok a → P w → Q a w)
        → ((e : X) (w : W) → P w → E e w)
        → Triple P (lift r) Q E
    unfolding lift
    Triple-lift r k l = record {
      at = λ w p. Ends-cases Q E r w (λ a h. k a w h p) (λ e _. l e w p);
    }

    pub Triple-pure : (a : A) → ((w : W) → P w → Q a w) → Triple P (pure a) Q E
    unfolding pure
    Triple-pure a k = record { at = k }

    pub Triple-throw : (e : X) → ((w : W) → P w → E e w) → Triple P (throw e) Q E
    unfolding throw
    Triple-throw e k = record { at = k }

    pub Triple-weaken :
        {R : A → W → Type 0} {m : Exec W X A}
        → ((a : A) (w : W) → R a w → Q a w)
        → Triple P m R E
        → Triple P m Q E
    Triple-weaken {R} {m} k t = record { at = λ w p. weakened (m w).0 (m w).1 (t.at w p) }
      where
        weakened : (r : Result X A) (v : W) → Ends R E r v → Ends Q E r v
        weakened (ok a) v h = k a v h
        weakened (err e) v h = h

    pub Triple-if :
        (b : Bool) (m n : Exec W X A)
        → (b ≡ true → Triple P m Q E)
        → (b ≡ false → Triple P n Q E)
        → Triple P (if b then m else n) Q E
    Triple-if true m n k l = k refl
    Triple-if false m n k l = l refl

  module _ {A B : Type 0} (R : A → W → Type 0) (F : X → W → Type 0) {Q : B → W → Type 0}
      {E : X → W → Type 0} where
    Ends-resume :
        (r : Result X A) (f : A → Exec W X B) (h : X → Exec W X B) (v : W)
        → Ends R F r v
        → ((a : A) → Triple (R a) (f a) Q E)
        → ((e : X) → Triple (F e) (h e) Q E)
        → Ends Q E (resume r f h v).0 (resume r f h v).1
    Ends-resume (ok a) f h v k q l = (q a).at v k
    Ends-resume (err e) f h v k q l = (l e).at v k

    pub Triple-try_catch :
        {P : W → Type 0} (m : Exec W X A) (f : A → Exec W X B) (h : X → Exec W X B)
        → Triple P m R F
        → ((a : A) → Triple (R a) (f a) Q E)
        → ((e : X) → Triple (F e) (h e) Q E)
        → Triple P (try_catch m f h) Q E
    unfolding try_catch
    Triple-try_catch m f h k q l = record {
      at = λ w p. Ends-resume (m w).0 f h (m w).1 (k.at w p) q l;
    }

  module _ {A B : Type 0} {P : W → Type 0} (R : A → W → Type 0) {Q : B → W → Type 0}
      {E : X → W → Type 0} where
    pub Triple-bind :
        (m : Exec W X A) (f : A → Exec W X B)
        → Triple P m R E
        → ((a : A) → Triple (R a) (f a) Q E)
        → Triple P (m >>= f) Q E
    Triple-bind m f k q = Triple-try_catch R E m f throw k q (λ e. Triple-throw e (λ w h. h))

  Ends-ok :
      {A : Type 0} (Q : A → W → Type 0) (E : X → W → Type 0) (r : Result X A) (v : W) (a : A)
      → Ends Q E r v
      → r ≡ ok a
      → Q a v
  Ends-ok Q E (ok b) v a k e = let same : b ≡ a = ground arith in subst (λ x. Q x v) same k
  Ends-ok Q E (err x) v a k e = cc

  -- Where the method has returned.
  pub Triple-returned :
      {A : Type 0} {P : W → Type 0} {Q : A → W → Type 0} {E : X → W → Type 0} {m : Exec W X A}
      (w : W) (a : A)
      → Triple P m Q E
      → P w
      → (m w).0 ≡ ok a
      → Q a (m w).1
  Triple-returned {Q} {E} {m} w a k p e = Ends-ok Q E (m w).0 (m w).1 a (k.at w p) e
