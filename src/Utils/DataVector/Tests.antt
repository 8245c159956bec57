-- ===== src/Utils/DataVector/Tests.antt =====
-- Runs of the vector, and its theorems at concrete inputs.
use myblob.Base.{ℕ, ◌≡◌, refl, inl, [], ◌∷◌, true, false, some, arith, ok}
use myblob.Utils.DataVector.{DataVector, owned, push_back}
use myblob.Utils.DataVector.Laws.{elements, IsValid, push_back_appends}

abbrev full : DataVector ℕ
full = record { capacity = 2; size = 2; data_owned = true; memory = some (5 ∷ 6 ∷ []) }

abbrev lent : DataVector ℕ
lent = record { capacity = 2; size = 2; data_owned = false; memory = some (5 ∷ 6 ∷ []) }

full-IsValid : IsValid full
full-IsValid = record { fits = omega arith; backed = refl }

lent-IsValid : IsValid lent
lent-IsValid = record { fits = omega arith; backed = refl }

push_back-full :
    push_back 0 full 7
    ≡ ok (record { capacity = 4; size = 3; data_owned = true; memory = some (5 ∷ 6 ∷ 7 ∷ 0 ∷ []) })
unfolding push_back
push_back-full = refl

push_back_appends_example :
    (w : DataVector ℕ) × (push_back 0 full 7 ≡ ok w) × (elements w ≡ 5 ∷ 6 ∷ 7 ∷ []) × IsValid w
unfolding owned
push_back_appends_example = push_back_appends 0 full 7 full-IsValid (omega arith) (inl refl)
