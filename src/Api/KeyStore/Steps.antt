-- ===== src/Api/KeyStore/Steps.antt =====
-- What every request may rely on while others change the store: the methods take steps only.
use api_proxy.Base.{
  ℕ, ◌≡◌, ◌⊎◌, inl, refl, sym, subst, Bool, true, false, Text, [], if◌then◌else◌, Result, ok, err,
  pure, throw, lift, try_catch, resume, ◌>>=◌,
}
use api_proxy.Contracts.Errors.{Thrown}
use api_proxy.Api.KeyStore.{Index, build_index}
use api_proxy.Api.KeyStore.Store.{
  SecretsOptions, KeyStore, loaded, Step, Steps, starts, settles, loads, cools, misses, here, next,
  Process, Method, read_now, read_store, write_store, await_settled,
}

-- Where an index comes from.
pub data Origin (Read : Text → ℕ → Type 0) : Index → Type 0 where
  unloaded : Origin Read []
  built :
      {index : Index} (text : Text) (now : ℕ)
      → Read text now
      → build_index text now ≡ ok index
      → Origin Read index

pub record IsValid (Read : Text → ℕ → Type 0) (s : KeyStore) : Type 0 where
  pub origin : Origin Read s.index
  pub fresh : (s.loaded_ever ≡ true) ⊎ (s.loaded_at ≡ 0)

module _ {options : SecretsOptions} {Read : Text → ℕ → Type 0} where
  pub Steps-trans :
      {s t u : KeyStore} → Steps options Read s t → Steps options Read t u → Steps options Read s u
  Steps-trans p here = p
  Steps-trans p (next q st) = next (Steps-trans p q) st

  Step-IsValid : {s t : KeyStore} → Step options Read s t → IsValid Read s → IsValid Read t
  unfolding loaded
  Step-IsValid (starts s) v = record { origin = v.origin; fresh = v.fresh }
  Step-IsValid (settles s) v = record { origin = v.origin; fresh = v.fresh }
  Step-IsValid (loads s text now at index was e) v = record {
    origin = built text now was e;
    fresh = inl refl;
  }
  Step-IsValid (cools s now e) v = record { origin = v.origin; fresh = v.fresh }
  Step-IsValid (misses s now) v = record { origin = v.origin; fresh = v.fresh }

  pub Steps-IsValid : {s t : KeyStore} → Steps options Read s t → IsValid Read s → IsValid Read t
  Steps-IsValid here v = v
  Steps-IsValid (next p st) v = Step-IsValid st (Steps-IsValid p v)

  Step-loaded :
      {s t : KeyStore} → Step options Read s t → s.loaded_ever ≡ true → t.loaded_ever ≡ true
  unfolding loaded
  Step-loaded (starts s) h = h
  Step-loaded (settles s) h = h
  Step-loaded (loads s text now at index was e) h = refl
  Step-loaded (cools s now e) h = h
  Step-loaded (misses s now) h = h

  pub Steps-loaded :
      {s t : KeyStore} → Steps options Read s t → s.loaded_ever ≡ true → t.loaded_ever ≡ true
  Steps-loaded here h = h
  Steps-loaded (next p st) h = Step-loaded st (Steps-loaded p h)

module _ {options : SecretsOptions} (p : Process options) where
  open p use {World, store}

  -- `m` takes steps only.
  pub record Stepwise {A : Type 0} (m : Method p A) : Type 0 where
    pub at : (w : World) → Steps options p.Read (store w) (store (m w).1)

  module _ {A : Type 0} where
    pub Stepwise-pure : (a : A) → Stepwise (pure a)
    unfolding pure
    Stepwise-pure a = record { at = λ w. here }

    pub Stepwise-throw : (e : Thrown) → Stepwise (throw {A = A} e)
    unfolding throw
    Stepwise-throw e = record { at = λ w. here }

    pub Stepwise-lift : (r : Result Thrown A) → Stepwise (lift r)
    unfolding lift
    Stepwise-lift r = record { at = λ w. here }

    pub Stepwise-if :
        (b : Bool) (m n : Method p A) → Stepwise m → Stepwise n → Stepwise (if b then m else n)
    Stepwise-if true m n k l = k
    Stepwise-if false m n k l = l

  module _ {A B : Type 0} where
    -- The later links may rely on what the earlier ones returned.
    pub Stepwise-resume :
        (r : Result Thrown A) (f : A → Method p B) (h : Thrown → Method p B) (v : World)
        → ((a : A) → r ≡ ok a → Steps options p.Read (store v) (store (f a v).1))
        → ((e : Thrown) → r ≡ err e → Steps options p.Read (store v) (store (h e v).1))
        → Steps options p.Read (store v) (store (resume r f h v).1)
    Stepwise-resume (ok a) f h v k l = k a refl
    Stepwise-resume (err e) f h v k l = l e refl

    pub try_catch-Steps :
        (m : Method p A) (f : A → Method p B) (h : Thrown → Method p B) (w : World)
        → Steps options p.Read (store w) (store (m w).1)
        → ((a : A) → (m w).0 ≡ ok a → Steps options p.Read (store (m w).1) (store (f a (m w).1).1))
        → ((e : Thrown)
            → (m w).0 ≡ err e
            → Steps options p.Read (store (m w).1) (store (h e (m w).1).1))
        → Steps options p.Read (store w) (store (try_catch m f h w).1)
    unfolding try_catch
    try_catch-Steps m f h w k q l = Steps-trans k (Stepwise-resume (m w).0 f h (m w).1 q l)

    pub Stepwise-try_catch :
        (m : Method p A) (f : A → Method p B) (h : Thrown → Method p B)
        → Stepwise m
        → ((a : A) → Stepwise (f a))
        → ((e : Thrown) → Stepwise (h e))
        → Stepwise (try_catch m f h)
    Stepwise-try_catch m f h k q l = record {
      at = λ w. try_catch-Steps m f h w (k.at w) (λ a _. (q a).at _) (λ e _. (l e).at _);
    }

  pub Stepwise-read_now : Stepwise (read_now p)
  Stepwise-read_now = record {
    at = λ w. subst (Steps options p.Read (store w)) (sym (p.now_lem w)) here;
  }

  pub Stepwise-read_store : Stepwise (read_store p)
  Stepwise-read_store = record { at = λ w. here }

  pub write_store-Steps :
      (f : KeyStore → KeyStore) (w : World)
      → Step options p.Read (store w) (f (store w))
      → Steps options p.Read (store w) (store (write_store p f w).1)
  write_store-Steps f w k =
      subst (Steps options p.Read (store w)) (sym (p.write_lem _ w)) (next here k)

  pub Stepwise-write :
      (f : KeyStore → KeyStore)
      → ((s : KeyStore) → Step options p.Read s (f s))
      → Stepwise (write_store p f)
  Stepwise-write f k = record { at = λ w. write_store-Steps f w (k (store w)) }

  pub Stepwise-await : Stepwise (await_settled p)
  Stepwise-await = record { at = λ w. p.pause_lem w }

  pub Stepwise-get_secret : Stepwise p.get_secret
  Stepwise-get_secret = record { at = λ w. p.get_secret_lem w }

  pub Stepwise-join : Stepwise p.join
  Stepwise-join = record { at = λ w. p.join_lem w }

  -- What was computed without an await is known where it is used.
  pub Stepwise-lifted :
      {A B : Type 0} (r : Result Thrown A) (f : A → Method p B)
      → ((a : A) → r ≡ ok a → Stepwise (f a))
      → Stepwise (lift r >>= f)
  unfolding try_catch
  Stepwise-lifted (ok a) f k = record { at = λ w. (k a refl).at w }
  Stepwise-lifted (err e) f k = record { at = λ w. here }
