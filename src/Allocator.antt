-- ===== src/Allocator.antt =====
-- Code/OSAllocator.hpp and Code/OSAllocator.cpp
use file_read_speed_test.Base.{
  ℕ, ◌≡◌, ◌≢◌, ◌⊎◌, inl, inr, ◌==◌, ==_iff, Bool-cases, if◌then◌else◌, Option, none, some, Exec,
  ◌>>=◌, return, call, arith,
}
use file_read_speed_test.Win32.{Win32}

pub record OsAllocation : Type 0 where
  pub memory : ℕ

abbrev pub new_os_allocation : ℕ → OsAllocation
new_os_allocation memory = record { memory = memory }

module _ (os : Win32) where
  unfoldable pub allocate : ℕ → Exec os.World (Option OsAllocation)
  allocate size = do
    pointer ← call (os.virtual_alloc size)
    if pointer == 0 then return none else return (some (new_os_allocation pointer))

  -- The allocation is passed by reference: the result is what it holds afterwards.
  unfoldable pub deallocate : OsAllocation → Exec os.World OsAllocation
  deallocate allocation =
      if allocation.memory == 0
      then return allocation
      else do result ← call (os.virtual_free allocation.memory); return (record { memory = 0 })

  -- Windows refuses and there is no allocation, or there is one that is not null.
  pub allocate-cases :
      (size : ℕ) (w : os.World)
      → (((os.virtual_alloc size w).0 ≡ 0)
          × (allocate size w ≡ some (none, (os.virtual_alloc size w).1)))
        ⊎ ((allocation : OsAllocation) × (allocation.memory ≢ 0)
            × (allocate size w ≡ some (some allocation, (os.virtual_alloc size w).1)))
  unfolding allocate
  allocate-cases size w = elim (Bool-cases ((os.virtual_alloc size w).0 == 0)) [
    | inl refused ↦ inl ((==_iff _ 0).0 refused, rw refused)
    | inr granted ↦ inr (record { memory = (os.virtual_alloc size w).0 }, ground arith, rw granted)
  ]
