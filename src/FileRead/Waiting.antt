-- ===== src/FileRead/Waiting.antt =====
-- `WaitForThreadsToFinish` of Code/OverlappedIOFileRead.cpp. The contexts are written by other
-- threads meanwhile: what each round of the loop finds is an argument.
use mathlib.Core.Option.{some-injective}
use file_read_speed_test.Base.{
  ℕ, zero, suc, ◌≡◌, refl, ap, ◌∙◌, inl, inr, Bool-cases, if◌then◌else◌, Bool, true, false, Option,
  none, some, List, [], ◌∷◌, ◌++◌, length, get_elem?, Exec, ◌>>=◌, ◌>>◌, return, call, bind_some,
  All,
}
use file_read_speed_test.Win32.{Win32}
use file_read_speed_test.FileRead.{IoContext, OverlappedIoFileRead, print_results}
use file_read_speed_test.FileRead.Printing.{report, run_effects, freed, print_results-report}

-- The inner loop, which ends at the first context that is not complete.
unfoldable pub all_complete : List IoContext → Bool
all_complete [] = true
all_complete (c ∷ contexts) = if c.is_complete then all_complete contexts else false

module _ (os : Win32) where
  -- The rounds of the outer loop, and `PrintResults` after the last one; none while it goes on.
  unfoldable pub wait_for_threads_to_finish :
      ℕ → OverlappedIoFileRead → List (List IoContext) → Exec os.World (Option OverlappedIoFileRead)
  wait_for_threads_to_finish pre_open_time r [] = return none
  wait_for_threads_to_finish pre_open_time r (contexts ∷ later) = do
    call (os.sleep 100)
    elim (all_complete contexts) [
      | true ↦ do
        r' ← print_results os pre_open_time (record r { contexts = contexts })
        return (some r')
      | false ↦ wait_for_threads_to_finish pre_open_time r later
    ]

-- A context is not complete.
abbrev pub IsPending : List IoContext → Type 0
IsPending contexts =
    (k : ℕ) × (c : IoContext) × (get_elem? contexts k ≡ some c) × (c.is_complete ≡ false)

abbrev pub IsComplete : IoContext → Type 0
IsComplete c = c.is_complete ≡ true

all_complete-IsPending :
    (contexts : List IoContext) (k : ℕ) (c : IoContext)
    → get_elem? contexts k ≡ some c
    → c.is_complete ≡ false
    → all_complete contexts ≡ false
unfolding all_complete
all_complete-IsPending [] k c at_k pending = cc
all_complete-IsPending (x ∷ contexts) zero c at_k pending =
    let e = ap IoContext.is_complete (some-injective _ _ at_k) in rw (e ∙ pending) refl
all_complete-IsPending (x ∷ contexts) (suc k) c at_k pending =
    let rest = all_complete-IsPending contexts k c at_k pending in
    elim (Bool-cases x.is_complete) [
      | inl complete ↦ rw (complete, rest) refl
      | inr not_complete ↦ rw not_complete refl
    ]

all_complete-All :
    (contexts : List IoContext) → All IsComplete contexts → all_complete contexts ≡ true
unfolding all_complete
all_complete-All [] all = refl
all_complete-All (x ∷ contexts) all = rw all.0 (all_complete-All contexts all.1)

-- The world after a number of sleeps.
abbrev pub slept : (os : Win32) → ℕ → os.World → os.World
slept os zero w = w
slept os (suc n) w = slept os n (os.sleep 100 w).1

module _ (os : Win32) (pre_open_time : ℕ) (r : OverlappedIoFileRead) where
  -- If some context is pending in each of the first rounds, and then none is, the call sleeps once
  -- in each of these rounds and in the one after, prints the report of the contexts of the last one
  -- and frees their buffers, and looks at the contexts no more.
  pub waits_until_done :
      (rounds : List (List IoContext)) (last : List IoContext) (later : List (List IoContext))
      (w : os.World)
      → All IsPending rounds
      → All IsComplete last
      → wait_for_threads_to_finish os pre_open_time r (rounds ++ (last ∷ later)) w
        ≡ some (
          some (freed (record r { contexts = last })),
          run_effects os
              (report pre_open_time (record r { contexts = last }))
              (slept os (suc (length rounds)) w),
        )
  unfolding wait_for_threads_to_finish
  waits_until_done [] last later w pending complete =
      rw (all_complete-All last complete, wait_for_threads_to_finish)
        (bind_some (print_results os pre_open_time (record r { contexts = last })) _ _
          (print_results-report os pre_open_time (record r { contexts = last }) _))
  waits_until_done (contexts ∷ rounds) last later w ((k, c, at_k, not_complete), pending) complete =
      rw (all_complete-IsPending contexts k c at_k not_complete, wait_for_threads_to_finish)
        (waits_until_done rounds last later (os.sleep 100 w).1 pending complete)

  -- As long as some context is pending in every round, nothing is printed: the call goes on.
  waits_on :
      (rounds : List (List IoContext)) (w : os.World)
      → All IsPending rounds
      → wait_for_threads_to_finish os pre_open_time r rounds w
        ≡ some (none, slept os (length rounds) w)
  unfolding wait_for_threads_to_finish
  waits_on [] w pending = refl
  waits_on (contexts ∷ rounds) w ((k, c, at_k, not_complete), pending) =
      rw (all_complete-IsPending contexts k c at_k not_complete, wait_for_threads_to_finish)
        (waits_on rounds (os.sleep 100 w).1 pending)
