-- ===== src/Exec/Steps.antt =====
-- One step of a call at a time, with the rest of the call kept shut.
use umbra_db.Prelude.{◌≡◌, refl, sym, Bool, true, false, ap, ◌∙◌, Option, Text}
use umbra_db.Errors.{Thrown, Result, ok, fail}
use umbra_db.Errors.Translate.{translate_postgres_error}
use umbra_db.Exec.{Exec, pure, lift, ◌>>=◌, statement, query, require, translating, run}

module _ {ℓ} {S A B : Type ℓ} where
  -- the rest of a call, from a statement's outcome
  continue : S → (A → Exec S B) → Result (S × A) → S × Result B
  continue s g (ok (s', a)) = g a s'
  continue s g (fail e) = (s, fail e)

  statement->>=-continue :
      (f : S → Result (S × A)) (g : A → Exec S B) (s : S)
      → (r : Result (S × A)) → f s ≡ r
      → (statement f >>= g) s ≡ continue s g (f s)
  unfolding run continue
  statement->>=-continue f g s (ok (s', a)) h = cc
  statement->>=-continue f g s (fail e) h = cc

  pub statement->>=_ok :
      (f : S → Result (S × A)) (g : A → Exec S B) (s : S) {s' : S} {a : A}
      → f s ≡ ok (s', a)
      → (statement f >>= g) s ≡ g a s'
  unfolding continue
  statement->>=_ok f g s h = statement->>=-continue f g s _ refl ∙ ap (continue s g) h

  pub statement->>=_fail :
      (f : S → Result (S × A)) (g : A → Exec S B) (s : S) {e : Thrown}
      → f s ≡ fail e
      → (statement f >>= g) s ≡ (s, fail e)
  unfolding continue
  statement->>=_fail f g s h = statement->>=-continue f g s _ refl ∙ ap (continue s g) h

  pub lift->>=_ok :
      (r : Result A) (g : A → Exec S B) (s : S) {a : A} → r ≡ ok a → (lift r >>= g) s ≡ g a s
  unfolding run
  lift->>=_ok r g s h = rw h

  pub lift->>=_fail :
      (r : Result A) (g : A → Exec S B) (s : S) {e : Thrown}
      → r ≡ fail e
      → (lift r >>= g) s ≡ (s, fail e)
  unfolding run
  lift->>=_fail r g s h = rw h

  pub query->>= : (f : S → A) (g : A → Exec S B) (s : S) → (query f >>= g) s ≡ g (f s) s
  unfolding run
  query->>= f g s = refl

  pub pure->>= : (a : A) (g : A → Exec S B) (s : S) → (pure a >>= g) s ≡ g a s
  unfolding run
  pure->>= a g s = refl

  -- the rest of a call, from the outcome of its first part
  after : (A → Exec S B) → S × Result A → S × Result B
  after g (s', ok a) = g a s'
  after g (s', fail e) = (s', fail e)

  >>=-after :
      (m : Exec S A) (g : A → Exec S B) (s : S) (out : S × Result A)
      → m s ≡ out
      → (m >>= g) s ≡ after g (m s)
  unfolding run after
  >>=-after m g s (s', ok a) h = cc
  >>=-after m g s (s', fail e) h = cc

  pub >>=_ok :
      (m : Exec S A) (g : A → Exec S B) (s : S) {s' : S} {a : A}
      → m s ≡ (s', ok a)
      → (m >>= g) s ≡ g a s'
  unfolding after
  >>=_ok m g s h = >>=-after m g s (m s) refl ∙ ap (after g) h

  after_inv :
      (g : A → Exec S B) (out : S × Result A) {s' : S} {b : B}
      → after g out ≡ (s', ok b)
      → (s1 : S) × (a : A) × (out ≡ (s1, ok a)) × (g a s1 ≡ (s', ok b))
  unfolding after
  after_inv g (s1, ok a) h = (s1, a, refl, h)
  after_inv g (s1, fail e) h = cc

  -- what a call that returned has done first
  pub >>=_inv :
      (m : Exec S A) (g : A → Exec S B) (s : S) {s' : S} {b : B}
      → (m >>= g) s ≡ (s', ok b)
      → (s1 : S) × (a : A) × (m s ≡ (s1, ok a)) × (g a s1 ≡ (s', ok b))
  >>=_inv m g s h = after_inv g (m s) (sym (>>=-after m g s (m s) refl) ∙ h)

module _ {ℓ} {S B : Type ℓ} where
  pub require->>=_inv :
      (c : Bool) (e : Thrown) (g : Unit {ℓ} → Exec S B) (s : S) {s' : S} {b : B}
      → (require c e >>= g) s ≡ (s', ok b)
      → (c ≡ true) × (g tt s ≡ (s', ok b))
  unfolding run
  require->>=_inv true e g s h = (refl, h)
  require->>=_inv false e g s h = cc

  pub require->>=_true :
      (b : Bool) (e : Thrown) (g : Unit {ℓ} → Exec S B) (s : S)
      → b ≡ true
      → (require b e >>= g) s ≡ g tt s
  unfolding run
  require->>=_true true e g s h = refl
  require->>=_true false e g s h = cc

  pub require->>=_false :
      (b : Bool) (e : Thrown) (g : Unit {ℓ} → Exec S B) (s : S)
      → b ≡ false
      → (require b e >>= g) s ≡ (s, fail e)
  unfolding run
  require->>=_false true e g s h = cc
  require->>=_false false e g s h = refl

module _ {ℓ} {S A : Type ℓ} where
  pub lift_inv :
      (r : Result A) (s : S) {s' : S} {a : A} → lift r s ≡ (s', ok a) → (s' ≡ s) × (r ≡ ok a)
  unfolding run
  lift_inv r s h = (sym (ap (λ p. p.0) h), ap (λ p. p.1) h)

  translated : Option (Text × Text × Text) → S × Result A → S × Result A
  translated k out = translating k (λ (_ : S). out) out.0

  translated_inv :
      (k : Option (Text × Text × Text)) (out : S × Result A) {s' : S} {a : A}
      → translated k out ≡ (s', ok a)
      → out ≡ (s', ok a)
  unfolding run translated
  translated_inv k (s1, ok a) h = h
  translated_inv k (s1, fail e) h = cc

  pub translating_inv :
      (k : Option (Text × Text × Text)) (m : Exec S A) (s : S) {s' : S} {a : A}
      → translating k m s ≡ (s', ok a)
      → m s ≡ (s', ok a)
  unfolding run translated
  translating_inv k m s h = translated_inv k (m s) h

  pub translating_ok :
      (k : Option (Text × Text × Text)) (m : Exec S A) (s : S) {s' : S} {a : A}
      → m s ≡ (s', ok a)
      → translating k m s ≡ (s', ok a)
  unfolding run translated
  translating_ok k m s h = ap (translated k) h

  pub translating_fail :
      (k : Option (Text × Text × Text)) (m : Exec S A) (s : S) {s' : S} {e : Thrown}
      → m s ≡ (s', fail e)
      → translating k m s ≡ (s', fail (translate_postgres_error e k))
  unfolding run translated
  translating_fail k m s h = ap (translated k) h
