-- ===== src/Utils/DataVector.antt =====
-- include/utils/data_vector.hpp: a growable array that owns its memory, or borrows memory of fixed
-- size. `data` is the memory that `_data` points to (`none` for a null pointer), and `data_owned`
-- says whether `_dataOwned` holds it. `blank` is the value-initialised `T{}` of `new T[cap]()`.
pub mod Laws
pub mod Sizes
mod Tests
use myblob.Base.{
  ℕ, ◌+◌, ◌-◌, ◌*◌, ◌==◌, Bool, true, false, not, ◌&&◌, ◌||◌, Option, none, some, List, [], ◌∷◌,
  ◌++◌, ltb, leb, if◌then◌else◌, length, take, replicate, set, Result, ok, err, ◌>>=◌, get_elem?,
}
use myblob.Base.Words.{mul64}

pub record DataVector {ℓ} (T : Type ℓ) : Type ℓ where
  pub capacity : ℕ
  pub size : ℕ
  pub data_owned : Bool
  pub memory : Option (List T)

-- "Pointer not owned, thus size is fixed!"
pub data NotOwned : Type 0 where
  not_owned : NotOwned

module _ {ℓ} {T : Type ℓ} where
  unfoldable pub nothing : DataVector T
  nothing = record { capacity = 0; size = 0; data_owned = false; memory = none }

  -- `DataVector(T* ptr, uint64_t cap)`: borrowed memory of `cap` elements.
  unfoldable pub borrow : Option (List T) → ℕ → DataVector T
  borrow ptr cap = record { capacity = cap; size = 0; data_owned = false; memory = ptr }

  unfoldable pub owned : DataVector T → Bool
  owned v = v.data_owned || v.capacity == 0

  unfoldable pub clear : DataVector T → DataVector T
  clear v = record v { size = 0 }

  -- What `memcpy` takes from the old memory: nothing if there is none.
  unfoldable pub copied : Option (List T) → ℕ → List T
  copied none size = []
  copied (some cells) size = take size cells

  unfoldable pub transfer_buffer : DataVector T → Option (List T) × DataVector T
  transfer_buffer v = (
    if v.data_owned then v.memory else none,
    record { capacity = 0; size = 0; data_owned = false; memory = none },
  )

  -- The move constructor: the new vector, and what is left of the old one.
  unfoldable pub move : DataVector T → DataVector T × DataVector T
  move other = (other, record other { capacity = 0; size = 0; data_owned = false; memory = none })

  -- `_data[_size++] = value`.
  unfoldable pub store : DataVector T → T → DataVector T
  store v value = record v {
    size = v.size + 1;
    memory = elim v.memory [ none ↦ none | some cells ↦ some (set cells v.size value) ];
  }

  -- `operator[]` for reading.
  unfoldable pub at : DataVector T → ℕ → Option T
  at v index = elim v.memory [ none ↦ none | some cells ↦ get_elem? cells index ]

module _ {ℓ} {T : Type ℓ} (blank : T) where
  unfoldable pub reserve : DataVector T → ℕ → Result NotOwned (DataVector T)
  unfolding copied
  reserve v cap =
      if ltb v.capacity cap
      then (if not v.data_owned && not (v.capacity == 0)
          then err not_owned
          else ok (record {
            capacity = cap;
            size = v.size;
            data_owned = true;
            memory =
                let kept = copied v.memory v.size in
                some (kept ++ replicate (cap - length kept) blank);
          }))
      else ok v

  unfoldable pub resize : DataVector T → ℕ → Result NotOwned (DataVector T)
  unfolding reserve
  resize v size =
      if ltb v.capacity size
      then (do w ← reserve v size; ok (record w { size = size }))
      else ok (record v { size = size })

  unfoldable pub push_back : DataVector T → T → Result NotOwned (DataVector T)
  unfolding reserve store
  push_back v value =
      if leb v.capacity v.size
      then (do
        w ← reserve v (if v.capacity == 0 then 1 else mul64 v.capacity 2)
        ok (store w value))
      else ok (store v value)

  -- The copy constructor.
  unfoldable pub copy : DataVector T → Result NotOwned (DataVector T)
  unfolding resize nothing copied
  copy other =
      if ltb 0 other.size
      then (do
        w ← resize nothing other.size
        ok (record w { memory = some (copied other.memory other.size) }))
      else ok nothing
