-- ===== src/System/Share.antt =====
-- How far a thread has come among the contexts that it strides over.
use file_read_speed_test.Base.{
  ℕ, zero, suc, ◌+◌, ◌-◌, ◌*◌, ◌/◌, ◌%◌, add-mod_self, ◌<◌, ◌≤◌, ◌≡◌, ◌≢◌, ◌⊎◌, inl, inr, refl, sym,
  ap, ◌∙◌, List, [], ◌∷◌, ◌==◌, ==_iff, Bool-cases, block_unique, arith,
}
use file_read_speed_test.ReadTask.{OverlappedIoFileReadTask, Task, read_task}
use file_read_speed_test.System.Reads.{times, times_self, times_other}

-- The `i`-th context from the number `j` on, in strides of `d`.
abbrev pub turn : ℕ → ℕ → ℕ → ℕ
turn d j i = j + i * d

turn_injective : (d j i i' : ℕ) → 0 < d → turn d j i ≡ turn d j i' → i ≡ i'
turn_injective d j i i' pos e =
    block_unique i i' (i * d) d (omega arith) (omega arith) (omega (arith, e)) (omega (arith, e))

pub turn_next : (d j m : ℕ) → turn d j m + d ≡ turn d j (m + 1)
turn_next d j m = grind arith

pub turn_up : (d j m i : ℕ) → i ≤ m → turn d j i ≤ turn d j m
turn_up d j m i le = let (k, e) : (k : ℕ) × (m ≡ i + k) = (m - i, omega arith) in rw e (grind arith)

pub turn_after : (d j m i : ℕ) → m < i → turn d j (m + 1) ≤ turn d j i
turn_after d j m i lt =
    let (k, e) : (k : ℕ) × (i ≡ m + 1 + k) = (i - (m + 1), omega arith) in rw e (grind arith)

turn-suc : (d j i : ℕ) → turn d j (suc i) ≡ turn d j i + d
turn-suc d j i = grind arith

turn_residue : (d j i : ℕ) → 0 < d → turn d j i % d ≡ j % d
turn_residue d j zero pos = ap (λ (x : ℕ). x % d) (let same : turn d j 0 ≡ j = omega arith in same)
turn_residue d j (suc i) pos =
    ap (λ (x : ℕ). x % d) (turn-suc d j i)
    ∙ add-mod_self (turn d j i) d pos
    ∙ turn_residue d j i pos

-- A later number of the same residue is a turn.
pub of_residue : (d j k : ℕ) → 0 < d → j < k → j % d ≡ k % d → (i : ℕ) × (0 < i) × (turn d j i ≡ k)
of_residue d j k pos lt same = (k / d - j / d, grind arith, grind arith)

-- The thread has read its turns up to `last`, but for the context that it began at, once each, and
-- no other one; its queue holds the task that stands there, or nothing when the next turn is past
-- the last context.
pub record Share (d count j : ℕ) (reads : List ℕ) (tasks : List Task) : Type 0 where
  pub last : ℕ
  pub in_count : 0 < last → turn d j last < count
  pub read_once : (i : ℕ) → 0 < i → i ≤ last → times (turn d j i) reads ≡ 1
  pub not_read : (i : ℕ) → last < i → times (turn d j i) reads ≡ 0
  pub others : (k : ℕ) → (k ≤ j) ⊎ (j % d ≢ k % d) → times k reads ≡ 0
  pub stands :
      ((t : OverlappedIoFileReadTask) × (tasks ≡ read_task t ∷ [])
        × (t.context_index ≡ turn d j last))
      ⊎ ((tasks ≡ []) × (count ≤ turn d j (last + 1)))

module _ (d count : ℕ) (pos : 0 < d) where
  pub Share-start :
      (j : ℕ) (t : OverlappedIoFileReadTask) (tasks : List Task)
      → tasks ≡ read_task t ∷ []
      → t.context_index ≡ j
      → Share d count j [] tasks
  Share-start j t tasks one at_j = record {
    last = 0;
    in_count = λ more. absurd (omega arith);
    read_once = λ i more le. absurd (omega arith);
    not_read = λ i more. refl;
    others = λ k out. refl;
    stands = inl (t, one, omega arith);
  }

  module _ (j : ℕ) (reads : List ℕ) (tasks : List Task) (f : Share d count j reads tasks) where
    -- The thread reads the context of its next turn.
    pub Share-next :
        (t : OverlappedIoFileReadTask) (tasks' : List Task)
        → turn d j (f.last + 1) < count
        → tasks' ≡ read_task t ∷ []
        → t.context_index ≡ turn d j (f.last + 1)
        → Share d count j (turn d j (f.last + 1) ∷ reads) tasks'
    Share-next t tasks' in_count one at_next =
        let next = f.last + 1 in
        let skip : (k : ℕ) → turn d j next ≢ k → times k (turn d j next ∷ reads) ≡ times k reads =
          λ k ne. times_other (turn d j next) k reads ne in
        let apart : (i : ℕ) → next ≢ i → turn d j next ≢ turn d j i =
          λ i ne e. ne (turn_injective d j next i pos e) in
        let above = turn_after d j 0 next (omega arith) in
        record {
          last = next;
          in_count = λ _. in_count;
          read_once = λ i more le. elim (Bool-cases (next == i)) [
            | inl same ↦
                let none_before = f.not_read next (omega arith) in
                ap (λ (x : ℕ). times (turn d j x) (turn d j next ∷ reads))
                  (sym ((==_iff next i).0 same))
                ∙ times_self (turn d j next) reads
                ∙ omega (arith, none_before)
            | inr other ↦
                let ne : next ≢ i = λ e. let yes = (==_iff next i).1 e in cc in
                skip (turn d j i) (apart i ne) ∙ f.read_once i more (omega arith)
          ];
          not_read =
              λ i more. skip (turn d j i) (apart i (λ e. omega arith)) ∙ f.not_read i (omega arith);
          others = λ k out.
              skip k (λ e. elim out [
                | inl le ↦ omega (arith, above, e, le)
                | inr residue ↦ residue (sym (turn_residue d j next pos) ∙ ap (λ (x : ℕ). x % d) e)
              ])
              ∙ f.others k out;
          stands = inl (t, one, at_next);
        }

    -- The thread has come to its end.
    pub Share-last :
        (tasks' : List Task)
        → count ≤ turn d j (f.last + 1)
        → tasks' ≡ []
        → Share d count j reads tasks'
    Share-last tasks' past nothing = record {
      last = f.last;
      in_count = f.in_count;
      read_once = f.read_once;
      not_read = f.not_read;
      others = f.others;
      stands = inr (nothing, past);
    }
