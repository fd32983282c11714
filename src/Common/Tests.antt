-- ===== src/Common/Tests.antt =====
-- Boolean tests, the conditional, and equality as an interface (Rust's `Eq` and `PartialEq`).
use Prim.Native.Nat.{ℕ, ◌≤◌, ◌<◌, compare, Ordering}
use Prim.Native.String.{String}
use mathlib.Core.Path.{◌≡◌, refl}
use mathlib.Core.Logic.{◌↔◌, ◌≢◌, ◌⊎◌, inl, inr}
use mathlib.Core.Bool.{Bool, true, false}
use mathlib.Core.Option.{Option, none, some}
use native.Mathlib.Omega.{arith}
use text.Mathlib.Text.{◌==◌ as text_eq}
use text.Mathlib.TextEquality.{eq_iff}

abbrev pub ltb : ℕ → ℕ → Bool
ltb a b = elim (compare a b) [ Ordering.lt ↦ true | _ ↦ false ]

abbrev pub leb : ℕ → ℕ → Bool
leb a b = elim (compare a b) [ Ordering.gt ↦ false | _ ↦ true ]

abbrev pub nat_beq : ℕ → ℕ → Bool
nat_beq a b = elim (compare a b) [ Ordering.eq ↦ true | _ ↦ false ]

infix 1 if◌then◌else◌
abbrev pub if◌then◌else◌ {ℓ} : {A : Type ℓ} → Bool → A → A → A
if true then x else y = x
if false then x else y = y

pub lt→ltb : (a b : ℕ) → a < b → ltb a b ≡ true
lt→ltb a b h = ground arith

pub ltb→lt : (a b : ℕ) → ltb a b ≡ true → a < b
ltb→lt a b h = ground arith

pub le→leb : (a b : ℕ) → a ≤ b → leb a b ≡ true
le→leb a b h = ground arith

pub leb→le : (a b : ℕ) → leb a b ≡ true → a ≤ b
leb→le a b h = ground arith

pub nat_beq_iff : (a b : ℕ) → (nat_beq a b ≡ true) ↔ (a ≡ b)
nat_beq_iff a b = ground arith

pub Bool-cases : (b : Bool) → (b ≡ true) ⊎ (b ≡ false)
Bool-cases true = inl refl
Bool-cases false = inr refl

pub Option-cases {ℓ} : {A : Type ℓ} (o : Option A) → (o ≡ none) ⊎ ((a : A) × (o ≡ some a))
Option-cases none = inl refl
Option-cases (some a) = inr (a, refl)

-- A type whose equality the program tests (`Eq`): the test accepts equal values and no others.
pub record Eq {ℓ} (A : Type ℓ) : Type ℓ where
  pub same : A → A → Bool
  pub sound : (x y : A) → same x y ≡ true → x ≡ y
  pub complete : (x : A) → same x x ≡ true

module _ {ℓ} {A : Type ℓ} ⦃eq : Eq A⦄ where
  infix 50 ◌==◌
  abbrev pub ◌==◌ : A → A → Bool
  x == y = eq.same x y

  pub ==_self : (x : A) → (x == x) ≡ true
  ==_self = eq.complete

  pub ==_iff : (x y : A) → ((x == y) ≡ true) ↔ (x ≡ y)
  ==_iff x y = (eq.sound x y, λ e. rw e (eq.complete y))

  pub ==_ne : (x y : A) → x ≢ y → (x == y) ≡ false
  ==_ne x y h = elim (Bool-cases (x == y)) [
    | inl both ↦ absurd (h (eq.sound x y both))
    | inr other ↦ other
  ]

pub nat_beq-eq : (m n : ℕ) → nat_beq m n ≡ true → m ≡ n
nat_beq-eq m n h = ground arith

pub nat_beq_self : (n : ℕ) → nat_beq n n ≡ true
nat_beq_self n = ground arith

pub text_eq_self : (s : String) → text_eq s s ≡ true
text_eq_self s = (eq_iff s s).1 refl

instance abbrev pub nat_eq : Eq ℕ
nat_eq = record { same = nat_beq; sound = nat_beq-eq; complete = nat_beq_self }

instance abbrev pub string_eq : Eq String
string_eq = record { same = text_eq; sound = λ s t. (eq_iff s t).0; complete = text_eq_self }
