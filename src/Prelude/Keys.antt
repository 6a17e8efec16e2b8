-- ===== src/Prelude/Keys.antt =====
-- Boolean equality as an interface, for the keys of tables, with its instances for numbers, text
-- (JavaScript strings as lists of UTF-16 code units; bytes are such lists too) and pairs.
use Prim.Native.Nat.{ℕ}
use mathlib.Core.Path.{◌≡◌, refl}
use mathlib.Core.Logic.{◌↔◌}
use mathlib.Core.Bool.{Bool, true, false, ◌&&◌}
use mathlib.Core.List.{List, [], ◌∷◌}
use native.Mathlib.Omega.{arith}
use umbra_db.Prelude.Tests.{◌==◌, ==_iff}

pub record Eq {ℓ} (A : Type ℓ) : Type ℓ where
  pub beq : A → A → Bool
  pub beq_iff : (a b : A) → (beq a b ≡ true) ↔ (a ≡ b)

-- the key test of a table
abbrev pub ◌=?◌ {ℓ} : {Key : Type ℓ} ⦃keys : Eq Key⦄ → Key → Key → Bool
◌=?◌ ⦃keys⦄ = keys.beq

infix 50 ◌=?◌
pub =?_refl {ℓ} : {A : Type ℓ} ⦃e : Eq A⦄ (a : A) → (a =? a) ≡ true
=?_refl ⦃e⦄ a = (e.beq_iff a a).1 refl

abbrev pub Text : Type 0
Text = List ℕ

abbrev pub text_beq : Text → Text → Bool
text_beq [] [] = true
text_beq [] (b ∷ ys) = false
text_beq (a ∷ xs) [] = false
text_beq (a ∷ xs) (b ∷ ys) = a == b && text_beq xs ys

pub text_beq_iff : (a b : Text) → (text_beq a b ≡ true) ↔ (a ≡ b)
text_beq_iff [] [] = ground arith
text_beq_iff [] (b ∷ ys) = ground arith
text_beq_iff (a ∷ xs) [] = ground arith
text_beq_iff (a ∷ xs) (b ∷ ys) = ground (arith, text_beq_iff xs ys)

instance abbrev pub text_eq : Eq Text
text_eq = record { beq = text_beq; beq_iff = text_beq_iff }

module _ {ℓ} {A B : Type ℓ} ⦃ea : Eq A⦄ ⦃eb : Eq B⦄ where
  abbrev pub pair_beq : A × B → A × B → Bool
  pair_beq p q = ea.beq p.0 q.0 && eb.beq p.1 q.1

  pub pair_beq_iff : (p q : A × B) → (pair_beq p q ≡ true) ↔ (p ≡ q)
  pair_beq_iff p q = ground (arith, ea.beq_iff p.0 q.0, eb.beq_iff p.1 q.1)

instance abbrev pub pair_eq {ℓ} : {A B : Type ℓ} ⦃ea : Eq A⦄ ⦃eb : Eq B⦄ → Eq (A × B)
pair_eq = record { beq = pair_beq; beq_iff = pair_beq_iff }

instance abbrev pub nat_eq : Eq ℕ
nat_eq = record { beq = λ a b. a == b; beq_iff = ==_iff }
