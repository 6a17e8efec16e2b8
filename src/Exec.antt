-- ===== src/Exec.antt =====
-- The calls of the adapters as state passing: a call takes the state, the rows of the tables, and
-- gives the new state with what it returns or throws. What a call wrote before it threw stays
-- written, unless a transaction takes it back (Transaction).
pub mod Keeps
pub mod Steps
use umbra_db.Prelude.{Bool, true, false, Option, Text, if◌then◌else◌}
use umbra_db.Errors.{Thrown, Result, ok, fail}
use umbra_db.Errors.Translate.{translate_postgres_error}

abbrev pub Exec {ℓ} : Type ℓ → Type ℓ → Type ℓ
Exec S A = S → S × Result A

module _ {ℓ} {S : Type ℓ} where
  unfoldable pub pure : {A : Type ℓ} → A → Exec S A
  pure a s = (s, ok a)

  unfoldable pub throw : {A : Type ℓ} → Thrown → Exec S A
  throw e s = (s, fail e)

  -- a pure computation that may throw
  unfoldable pub lift : {A : Type ℓ} → Result A → Exec S A
  lift r s = (s, r)

  infixl 5 ◌>>=◌ ◌>>◌
  unfoldable pub ◌>>=◌ : {A B : Type ℓ} → Exec S A → (A → Exec S B) → Exec S B
  ◌>>=◌ m f s = let (s', r) = m s in elim r [ ok a ↦ f a s' | fail e ↦ (s', fail e) ]

  abbrev pub ◌>>◌ : {B : Type ℓ} → Exec S (Unit {ℓ}) → Exec S B → Exec S B
  m >> k = m >>= λ _. k

  abbrev pub settle : {A : Type ℓ} → S → Result (S × A) → S × Result A
  settle s (ok (s', a)) = (s', ok a)
  settle s (fail e) = (s, fail e)

  -- One SQL statement: it is atomic, so it changes nothing if it raises.
  unfoldable pub statement : {A : Type ℓ} → (S → Result (S × A)) → Exec S A
  statement f s = settle s (f s)

  -- a SELECT
  unfoldable pub query : {A : Type ℓ} → (S → A) → Exec S A
  query f s = (s, ok (f s))

  -- if (!condition) throw e
  unfoldable pub require : Bool → Thrown → Exec S (Unit {ℓ})
  require true e s = (s, ok tt)
  require false e s = (s, fail e)

  -- catch (err) { throw translatePostgresError(err, keyContext) }
  unfoldable pub translating : {A : Type ℓ} → Option (Text × Text × Text) → Exec S A → Exec S A
  translating k m s =
      let (s', r) = m s in
      elim r [ ok a ↦ (s', ok a) | fail e ↦ (s', fail (translate_postgres_error e k)) ]

  -- A proof that runs a call unfolds `run`, and with it all of the above.
  unfoldable pub run : {A : Type ℓ} → Exec S A → S → S × Result A
  unfolding pure throw lift statement query require translating ◌>>=◌
  run m s = m s
