-- ===== src/ThreadPool/Selection.antt =====
-- How many threads are made, and why.
use mathlib.Core.Path.{subst}
use file_read_speed_test.Base.{
  ℕ, zero, suc, ◌+◌, ◌<◌, ◌≤◌, ◌≡◌, refl, sym, ap, ◌⊎◌, inl, inr, Option, none, some, List, [], ◌∷◌,
  ◌++◌, length, length-append, get_elem?, Option-cases, arith, ◌>>=◌, bind_none,
}
use file_read_speed_test.Win32.{Win32, cores_line}
use file_read_speed_test.TaskQueue.{TaskThreads, IsJoinable}
use file_read_speed_test.Cores.{ProcessorCoreInformation}
use file_read_speed_test.ThreadPool.{
  Best, improve, no_best, find_best, destroy_threads, create_threads, create_thread_pool,
}

-- The classes are those of bytes.
abbrev pub AreBytes : List ProcessorCoreInformation → Type 0
AreBytes [] = Unit {0}
AreBytes (i ∷ infos) = (i.efficiency_class < 256) × AreBytes infos

abbrev pub AtMost : ℕ → List ProcessorCoreInformation → Type 0
AtMost n [] = Unit {0}
AtMost n (i ∷ infos) = (i.efficiency_class ≤ n) × AtMost n infos

-- The groups before the position `k` are less efficient.
abbrev pub Below : ℕ → ℕ → List ProcessorCoreInformation → Type 0
Below k n [] = Unit {0}
Below zero n (i ∷ infos) = Unit {0}
Below (suc k) n (i ∷ infos) = (i.efficiency_class < n) × Below k n infos

abbrev of_group : ProcessorCoreInformation → Best
of_group i = record { max_efficiency = i.efficiency_class; max_efficiency_core_count = i.count }

-- `b` is that of the first of the most efficient groups.
pub record IsFirstBest (infos : List ProcessorCoreInformation) (b : Best) : Type 0 where
  pub position : ℕ
  pub group : ProcessorCoreInformation
  pub stands : get_elem? infos position ≡ some group
  pub has_class : b.max_efficiency ≡ group.efficiency_class
  pub has_count : b.max_efficiency_core_count ≡ group.count
  pub most : AtMost group.efficiency_class infos
  pub first : Below position group.efficiency_class infos

AtMost-trans :
    {m n : ℕ} (infos : List ProcessorCoreInformation) → m ≤ n → AtMost m infos → AtMost n infos
AtMost-trans [] le most = tt
AtMost-trans (i ∷ infos) le most = (omega arith, AtMost-trans infos le most.1)

improve-cases :
    (i : ProcessorCoreInformation) (b : Best)
    → i.efficiency_class < 256
    → b.max_efficiency < 256
    → ((i.efficiency_class ≤ b.max_efficiency) × (improve i b ≡ b))
      ⊎ ((b.max_efficiency < i.efficiency_class) × (improve i b ≡ of_group i))
unfolding improve
improve-cases i b small_i small_b = ground arith

improve-small :
    (i : ProcessorCoreInformation) (b : Best)
    → i.efficiency_class < 256
    → b.max_efficiency < 256
    → (improve i b).max_efficiency < 256
unfolding improve
improve-small i b small_i small_b = ground arith

improve-no_best :
    (i : ProcessorCoreInformation) → i.efficiency_class < 256 → improve i no_best ≡ of_group i
unfolding improve
improve-no_best i small = ground arith

-- What the loop makes of `b`: it stays, or a more efficient group takes its place.
abbrev Selects : List ProcessorCoreInformation → Best → Best → Type 0
Selects infos b r =
    ((r ≡ b) × AtMost b.max_efficiency infos)
    ⊎ ((b.max_efficiency < r.max_efficiency) × IsFirstBest infos r)

-- A group with only less efficient ones in front of it.
IsFirstBest-cons :
    (i : ProcessorCoreInformation) (infos : List ProcessorCoreInformation) (r : Best)
    → i.efficiency_class < r.max_efficiency
    → IsFirstBest infos r
    → IsFirstBest (i ∷ infos) r
IsFirstBest-cons i infos r lt best = record {
  position = suc best.position;
  group = best.group;
  stands = best.stands;
  has_class = best.has_class;
  has_count = best.has_count;
  most = (omega (arith, best.has_class), best.most);
  first = (omega (arith, best.has_class), best.first);
}

Selects-of_group :
    (i : ProcessorCoreInformation) (infos : List ProcessorCoreInformation) (r : Best)
    → Selects infos (of_group i) r
    → IsFirstBest (i ∷ infos) r
Selects-of_group i infos r (inl (kept, most)) = record {
  position = 0;
  group = i;
  stands = refl;
  has_class = ap (λ (b : Best). b.max_efficiency) kept;
  has_count = ap (λ (b : Best). b.max_efficiency_core_count) kept;
  most = (omega arith, most);
  first = tt;
}
Selects-of_group i infos r (inr (more, best)) = IsFirstBest-cons i infos r more best

Selects-lt :
    (i : ProcessorCoreInformation) (infos : List ProcessorCoreInformation) (b r : Best)
    → b.max_efficiency < i.efficiency_class
    → Selects infos (of_group i) r
    → b.max_efficiency < r.max_efficiency
Selects-lt i infos b r lt (inl (kept, most)) = rw kept lt
Selects-lt i infos b r lt (inr (more, best)) = omega arith

Selects-cons :
    (i : ProcessorCoreInformation) (infos : List ProcessorCoreInformation) (b r : Best)
    → i.efficiency_class < 256
    → b.max_efficiency < 256
    → Selects infos (improve i b) r
    → Selects (i ∷ infos) b r
Selects-cons i infos b r small_i small_b selects = elim (improve-cases i b small_i small_b) [
  | inl (le, same) ↦ elim (rw same at selects) [
    | inl (kept, most) ↦ inl (kept, (le, most))
    | inr (more, best) ↦ inr (more, IsFirstBest-cons i infos r (omega arith) best)
  ]
  | inr (lt, better) ↦
      let selects' = rw better at selects in
      let best = Selects-of_group i infos r selects' in
      inr (Selects-lt i infos b r lt selects', best)
]

module _ (os : Win32) where
  find_best-Selects :
      (infos : List ProcessorCoreInformation) (b : Best) (w : os.World)
      → b.max_efficiency < 256
      → AreBytes infos
      → Selects infos b (find_best os infos b w).0
  unfolding find_best
  find_best-Selects [] b w small bytes = inl (refl, tt)
  find_best-Selects (i ∷ infos) b w small bytes = Selects-cons i infos b _ bytes.0 small (
      find_best-Selects infos (improve i b) _ (omega (arith, improve-small i b bytes.0 small))
        bytes.1)

  -- Of groups that are not none and whose classes fit a byte, the loop picks the first one of the
  -- most efficient class, with its count.
  pub find_best-IsFirstBest :
      (i : ProcessorCoreInformation) (infos : List ProcessorCoreInformation) (w : os.World)
      → AreBytes (i ∷ infos)
      → IsFirstBest (i ∷ infos) (find_best os (i ∷ infos) no_best w).0
  unfolding find_best
  find_best-IsFirstBest i infos w bytes =
      let w' = (os.write_line (cores_line i.count i.efficiency_class i.has_hyperthreading) w).1 in
      subst (λ (b : Best). IsFirstBest (i ∷ infos) (find_best os infos b w').0)
        (sym (improve-no_best i bytes.0))
        (Selects-of_group i infos _ (find_best-Selects infos (of_group i) w' bytes.0 bytes.1))

  module _ {Queue : Type 0} (t : TaskThreads os.World Queue) where
    -- All the threads that were asked for, or no pool (or the end of the program) where a thread could
    -- not be created.
    abbrev pub Pool : ℕ → Option (Option (List t.Thread) × os.World) → Type 0
    Pool n none = (w : os.World) × ((t.create_task_thread w).0 ≡ none)
    Pool n (some (none, w')) = (w : os.World) × ((t.create_task_thread w).0 ≡ none)
    Pool n (some (some threads, w')) = length threads ≡ n

    create_threads-Pool :
        (rounds n : ℕ) (threads : List t.Thread) (w : os.World)
        → length threads + rounds ≡ n
        → Pool n (create_threads os t rounds threads w)
    unfolding create_threads
    create_threads-Pool zero n threads w e = omega arith
    create_threads-Pool (suc rounds) n threads w e =
        elim (Option-cases (t.create_task_thread w).0) [
          | inl failed ↦
              rw failed
                (elim (Option-cases (destroy_threads os t threads (t.create_task_thread w).1)) [
                  | inl ends ↦ rw (ends, ◌>>=◌) (w, failed)
                  | inr (r, e') ↦ rw (e', ◌>>=◌) (w, failed)
                ])
          | inr (thread, made) ↦ rw made (
              create_threads-Pool rounds n (threads ++ (thread ∷ [])) _
                (omega (arith, length-append {0} threads (thread ∷ []))))
        ]

    -- A pool has exactly as many threads as were asked for; there is no pool, or the program has
    -- ended, only where the creation of a thread failed.
    pub create_thread_pool-Pool : (n : ℕ) (w : os.World) → Pool n (create_thread_pool os t n w)
    unfolding create_thread_pool
    create_thread_pool-Pool n w = create_threads-Pool n n [] w (omega arith)

    -- If the first thread can be created and the second one cannot, asking for two or more threads
    -- terminates the program.
    pub create_thread_pool-terminates :
        IsJoinable t
        → (n : ℕ) (w : os.World) (thread : t.Thread) → (t.create_task_thread w).0 ≡ some thread
        → (t.create_task_thread (t.create_task_thread w).1).0 ≡ none
        → create_thread_pool os t (suc (suc n)) w ≡ none
    unfolding create_thread_pool create_threads destroy_threads
    create_thread_pool-terminates joinable n w thread first second =
        rw (first, second)
          (bind_none (destroy_threads os t (thread ∷ [])) _ _ (
            bind_none (t.destroy_task_thread thread) _ _
              (joinable.destroy_created w _ thread first)))
