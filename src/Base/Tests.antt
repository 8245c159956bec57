-- ===== src/Base/Tests.antt =====
-- Boolean tests on the native numbers, the conditional, and results that may be exceptions.
use Prim.Native.Nat.{ℕ, ◌≤◌, ◌<◌, compare, Ordering}
use mathlib.Core.Path.{◌≡◌, refl}
use mathlib.Core.Logic.{◌↔◌, ◌⊎◌, inl, inr}
use mathlib.Core.Bool.{Bool, true, false}
use mathlib.Core.Option.{Option, none, some}
use native.Mathlib.Omega.{arith}

abbrev pub ltb : ℕ → ℕ → Bool
ltb a b = elim (compare a b) [ Ordering.lt ↦ true | _ ↦ false ]

abbrev pub leb : ℕ → ℕ → Bool
leb a b = elim (compare a b) [ Ordering.gt ↦ false | _ ↦ true ]

infix 50 ◌==◌
abbrev pub ◌==◌ : ℕ → ℕ → Bool
a == b = elim (compare a b) [ Ordering.eq ↦ true | _ ↦ false ]

infix 1 if◌then◌else◌
abbrev pub if◌then◌else◌ {ℓ} : {A : Type ℓ} → Bool → A → A → A
if true then x else y = x
if false then x else y = y

pub ltb→lt : (a b : ℕ) → ltb a b ≡ true → a < b
ltb→lt a b h = ground arith

pub lt→ltb : (a b : ℕ) → a < b → ltb a b ≡ true
lt→ltb a b h = ground arith

pub leb→le : (a b : ℕ) → leb a b ≡ true → a ≤ b
leb→le a b h = ground arith

pub ==_iff : (a b : ℕ) → ((a == b) ≡ true) ↔ (a ≡ b)
==_iff a b = ground arith

-- What holds of both branches holds of the conditional.
pub if_lem {ℓ κ} :
    {A : Type ℓ} (P : A → Type κ) (b : Bool) {x y : A} → P x → P y → P (if b then x else y)
if_lem P true p q = p
if_lem P false p q = q

-- To split on a computed value and keep the equation.
pub Bool-cases : (b : Bool) → (b ≡ true) ⊎ (b ≡ false)
Bool-cases true = inl refl
Bool-cases false = inr refl

pub Option-cases {ℓ} : {A : Type ℓ} (o : Option A) → (o ≡ none) ⊎ ((a : A) × (o ≡ some a))
Option-cases none = inl refl
Option-cases (some a) = inr (a, refl)

-- A call throws an exception of type `X`, or returns.
pub data Result {ℓ} (X : Type 0) (R : Type ℓ) : Type ℓ where
  err : (thrown : X) → Result X R
  ok : (returned : R) → Result X R

infixl 5 ◌>>=◌
abbrev pub ◌>>=◌ {ℓ ι} :
    {X : Type 0} {R : Type ℓ} {S : Type ι} → Result X R → (R → Result X S) → Result X S
err thrown >>= next = err thrown
ok returned >>= next = next returned

infixl 5 ◌>>◌
abbrev pub ◌>>◌ {ι} : {X : Type 0} {S : Type ι} → Result X (Unit {0}) → Result X S → Result X S
err thrown >> then_this = err thrown
ok done >> then_this = then_this

-- `if (test) throw e;`
abbrev pub throw_if : {X : Type 0} → Bool → X → Result X (Unit {0})
throw_if test e = if test then err e else ok tt

-- A sequence that returns has two parts that return.
pub >>=-returns {ℓ ι} :
    {X : Type 0} {R : Type ℓ} {S : Type ι} (first : Result X R) (next : R → Result X S) {s : S}
    → (first >>= next) ≡ ok s
    → (r : R) × (first ≡ ok r) × (next r ≡ ok s)
>>=-returns (ok r) next h = (r, refl, h)
>>=-returns (err x) next h = cc
