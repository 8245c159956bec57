-- ===== src/Cloud/Transaction/Sync/Orders.antt =====
-- Lists in another order, and places in lists, for the rounds of `processSync` in
-- src/cloud/transaction.cpp.
use mathlib.Core.List.{Permᴰ}
use mathlib.Core.Path.{subst}
use myblob.Base.{
  ℕ, zero, suc, ◌<◌, ◌≡◌, refl, ap, ◌∙◌, Option, none, List, [], ◌∷◌, map, length, drop, set, arith,
}
use myblob.Base.Text.{Bytes}
use myblob.Cloud.Transaction.Model.{Callback, Message, Answer}
use myblob.Cloud.Transaction.Process.{slot_at}
use myblob.Cloud.Transaction.Sync.{first}

unfoldable pub All {ℓ} : {A : Type ℓ} → (A → Type ℓ) → List A → Type ℓ
All P [] = Unit
All P (x ∷ xs) = P x × All P xs

pub length-Permᴰ {ℓ} : {A : Type ℓ} {xs ys : List A} → Permᴰ xs ys → length xs ≡ length ys
length-Permᴰ Permᴰ.nil = refl
length-Permᴰ (Permᴰ.cons e p) = ap suc (length-Permᴰ p)
length-Permᴰ (Permᴰ.swap e f) = refl
length-Permᴰ (Permᴰ.trans p q) = length-Permᴰ p ∙ length-Permᴰ q

pub Permᴰ-All {ℓ} :
    {A : Type ℓ} (P : A → Type ℓ) {xs ys : List A} → Permᴰ xs ys → All P xs → All P ys
unfolding All
Permᴰ-All P Permᴰ.nil h = h
Permᴰ-All P (Permᴰ.cons e p) h = (subst P e h.0, Permᴰ-All P p h.1)
Permᴰ-All P (Permᴰ.swap e f) h = (subst P f h.1.0, (subst P e h.0, h.1.1))
Permᴰ-All P (Permᴰ.trans p q) h = Permᴰ-All P q (Permᴰ-All P p h)

pub length-map {ℓ ι} :
    {A : Type ℓ} {B : Type ι} (f : A → B) (xs : List A) → length (map f xs) ≡ length xs
length-map f [] = refl
length-map f (x ∷ xs) = ap suc (length-map f xs)

abbrev pub no_tag : Bytes
no_tag = []

abbrev pub no_slot : Option Message
no_slot = none

pub alone :
    (c : Callback) (cs : List (Callback × Answer))
    → Permᴰ (c ∷ []) (map first cs)
    → (a : Answer) × (cs ≡ (c, a) ∷ [])
unfolding All
alone c [] h = absurd (omega (arith, length-Permᴰ h))
alone c ((c', a) ∷ []) h =
    let e = Permᴰ-All (λ x. x ≡ c) h (refl, tt) in (a, ap (λ x. (x, a) ∷ []) e.0)
alone c (x ∷ y ∷ cs) h = absurd (omega (arith, length-Permᴰ h))

pub slot_at-set :
    (slots : List (Option Message)) (i : ℕ) (m : Option Message)
    → i < length slots
    → slot_at (set slots i m) i ≡ m
slot_at-set [] i m h = absurd (omega arith)
slot_at-set (x ∷ slots) zero m h = refl
slot_at-set (x ∷ slots) (suc i) m h = slot_at-set slots i m (omega arith)

pub drop-all {ℓ} : {A : Type ℓ} (xs : List A) → drop (length xs) xs ≡ []
drop-all [] = refl
drop-all (x ∷ xs) = drop-all xs
