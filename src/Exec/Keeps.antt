-- ===== src/Exec/Keeps.antt =====
-- Invariants of calls: what a call keeps whether it returns or throws, one rule for each way to
-- build a call.
use umbra_db.Prelude.{◌≡◌, refl, Bool, true, false, Option, Text}
use umbra_db.Errors.{Thrown, Result, ok, fail}
use umbra_db.Exec.{Exec, pure, settle, throw, lift, ◌>>=◌, statement, query, require, translating}

pub record Keeps {ℓ} {Tables A : Type ℓ} (Inv : Tables → Type ℓ) (m : Exec Tables A) : Type ℓ where
  pub keeps : (s : Tables) → Inv s → Inv (m s).0

module _ {ℓ} {Tables A : Type ℓ} {Inv : Tables → Type ℓ} where
  pub Keeps-throw : (e : Thrown) → Keeps Inv (throw {A = A} e)
  unfolding throw
  Keeps-throw e = record { keeps = λ t inv. inv }

  pub Keeps-lift : (r : Result A) → Keeps Inv (lift r)
  unfolding lift
  Keeps-lift r = record { keeps = λ t inv. inv }

  pub Keeps-query : (f : Tables → A) → Keeps Inv (query f)
  unfolding query
  Keeps-query f = record { keeps = λ t inv. inv }

  pub Keeps-pure : (a : A) → Keeps Inv (pure a)
  unfolding pure
  Keeps-pure a = record { keeps = λ t inv. inv }

  settle-kept :
      (f : Tables → Result (Tables × A)) (s : Tables)
      → ((s : Tables) (s' : Tables) (a : A) → Inv s → f s ≡ ok (s', a) → Inv s')
      → Inv s
      → (r : Result (Tables × A)) → f s ≡ r
      → Inv (settle s r).0
  settle-kept f s kept h (ok (s', a)) p = kept s s' a h p
  settle-kept f s kept h (fail e) p = h

  -- a statement keeps what its success keeps
  pub Keeps-statement :
      (f : Tables → Result (Tables × A))
      → ((s : Tables) (s' : Tables) (a : A) → Inv s → f s ≡ ok (s', a) → Inv s')
      → Keeps Inv (statement f)
  unfolding statement
  Keeps-statement f kept = record { keeps = λ s h. settle-kept f s kept h (f s) refl }

  pub Keeps-translating :
      (k : Option (Text × Text × Text)) (m : Exec Tables A)
      → Keeps Inv m
      → Keeps Inv (translating k m)
  unfolding translating
  Keeps-translating k m km = record { keeps = λ s h. after (m s) (km.keeps s h) }
    where
      after :
          (out : Tables × Result A)
          → Inv out.0
          → Inv (translating {S = Tables} k (λ _. out) out.0).0
      after (s', ok a) h = h
      after (s', fail e) h = h

module _ {ℓ} {Tables A B : Type ℓ} {Inv : Tables → Type ℓ} where
  pub Keeps-bind :
      (call : Exec Tables A) (rest : A → Exec Tables B)
      → Keeps Inv call
      → ((a : A) → Keeps Inv (rest a))
      → Keeps Inv (call >>= rest)
  unfolding ◌>>=◌
  Keeps-bind m f km kf = record { keeps = λ s h. after (m s) (km.keeps s h) }
    where
      after : (out : Tables × Result A) → Inv out.0 → Inv (◌>>=◌ {S = Tables} (λ _. out) f out.0).0
      after (s', ok a) h = (kf a).keeps s' h
      after (s', fail e) h = h

module _ {ℓ} {Tables : Type ℓ} {Inv : Tables → Type ℓ} where
  pub Keeps-require : (b : Bool) (e : Thrown) → Keeps Inv (require b e)
  unfolding require
  Keeps-require true e = record { keeps = λ t inv. inv }
  Keeps-require false e = record { keeps = λ t inv. inv }

pub ruleset keeps_rules =
    (Keeps-throw, Keeps-lift, Keeps-query, Keeps-pure, Keeps-translating, Keeps-bind, Keeps-require)
