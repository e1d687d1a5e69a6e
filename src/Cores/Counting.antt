-- ===== src/Cores/Counting.antt =====
-- The groups of cores: one entry for each efficiency class with and without hyperthreading, with
-- the number of cores of that kind modulo 2 ^ 16.
use native.Mathlib.Nat.{mod-eq_of_lt}
use file_read_speed_test.Base.{
  sym, ℕ, ◌+◌, ◌%◌, ◌<◌, ◌≡◌, refl, ◌∙◌, ◌==◌, if◌then◌else◌, Bool, true, false, ◌&&◌, List, [],
  ◌∷◌, ◌++◌, inl, inr, Bool-cases, arith,
}
use file_read_speed_test.Words.{uint16_mod}
use file_read_speed_test.Cores.{
  ProcessorCoreInformation, same_bool, is_match, count_matches, count_core,
}

-- The count of the group with a key, 0 if there is none.
abbrev pub count_of : ℕ → Bool → List ProcessorCoreInformation → ℕ
count_of e h [] = 0
count_of e h (i ∷ infos) = if is_match e h i then i.count else count_of e h infos

abbrev pub has_group : ℕ → Bool → List ProcessorCoreInformation → Bool
has_group e h [] = false
has_group e h (i ∷ infos) = if is_match e h i then true else has_group e h infos

-- No two groups have the same key.
abbrev pub Distinct : List ProcessorCoreInformation → Type 0
Distinct [] = Unit {0}
Distinct (i ∷ infos) =
    (has_group i.efficiency_class i.has_hyperthreading infos ≡ false) × Distinct infos

abbrev pub same_key : ℕ → Bool → ℕ → Bool → Bool
same_key e h e' h' = e == e' && same_bool h h'

count_matches-found :
    (e : ℕ) (h : Bool) (infos : List ProcessorCoreInformation)
    → (count_matches e h infos).0 ≡ has_group e h infos
unfolding count_matches
count_matches-found e h [] = refl
count_matches-found e h (i ∷ infos) = ground (arith, count_matches-found e h infos)

count_of-none :
    (e : ℕ) (h : Bool) (infos : List ProcessorCoreInformation)
    → has_group e h infos ≡ false
    → count_of e h infos ≡ 0
count_of-none e h [] none_there = refl
count_of-none e h (i ∷ infos) none_there = ground (arith, count_of-none e h infos)

count_of-count_matches_same :
    (e : ℕ) (h : Bool) (infos : List ProcessorCoreInformation)
    → count_of e h (count_matches e h infos).1
      ≡ (if has_group e h infos then (count_of e h infos + 1) % uint16_mod else count_of e h infos)
unfolding count_matches
count_of-count_matches_same e h [] = refl
count_of-count_matches_same e h (i ∷ infos) = ground (arith, count_of-count_matches_same e h infos)

same_bool_refl : (b : Bool) → same_bool b b ≡ true
same_bool_refl true = refl
same_bool_refl false = refl

is_match-other :
    (e e' : ℕ) (h h' : Bool) (i : ProcessorCoreInformation)
    → same_key e' h' e h ≡ false
    → is_match e h i ≡ true
    → is_match e' h' i ≡ false
is_match-other e e' h h' i other hit = ground arith

-- Bumping the groups of one key leaves every other key alone.
count_of-count_matches_other :
    (e e' : ℕ) (h h' : Bool) (infos : List ProcessorCoreInformation)
    → same_key e' h' e h ≡ false
    → count_of e' h' (count_matches e h infos).1 ≡ count_of e' h' infos
unfolding count_matches
count_of-count_matches_other e e' h h' [] other = refl
count_of-count_matches_other e e' h h' (i ∷ infos) other =
    let rest = count_of-count_matches_other e e' h h' infos other in
    elim (Bool-cases (is_match e h i)) [
      | inl hit ↦ let miss = is_match-other e e' h h' i other hit in rw (hit, miss) rest
      | inr miss ↦ rw (miss, rest)
    ]

has_group-count_matches :
    (e e' : ℕ) (h h' : Bool) (infos : List ProcessorCoreInformation)
    → has_group e' h' (count_matches e h infos).1 ≡ has_group e' h' infos
unfolding count_matches
has_group-count_matches e e' h h' [] = refl
has_group-count_matches e e' h h' (i ∷ infos) =
    ground (arith, has_group-count_matches e e' h h' infos)

Distinct-count_matches :
    (e : ℕ) (h : Bool) (infos : List ProcessorCoreInformation)
    → Distinct infos
    → Distinct (count_matches e h infos).1
unfolding count_matches
Distinct-count_matches e h [] d = tt
Distinct-count_matches e h (i ∷ infos) d = ground (
  arith,
  Distinct-count_matches e h infos d.1,
  has_group-count_matches e i.efficiency_class h i.has_hyperthreading infos,
)

has_group-append :
    (e : ℕ) (h : Bool) (xs : List ProcessorCoreInformation) (i : ProcessorCoreInformation)
    → has_group e h (xs ++ (i ∷ [])) ≡ (if has_group e h xs then true else is_match e h i)
has_group-append e h [] i = ground arith
has_group-append e h (x ∷ xs) i = ground (arith, has_group-append e h xs i)

count_of-append :
    (e : ℕ) (h : Bool) (xs : List ProcessorCoreInformation) (i : ProcessorCoreInformation)
    → count_of e h (xs ++ (i ∷ []))
      ≡ (if has_group e h xs then count_of e h xs else if is_match e h i then i.count else 0)
count_of-append e h [] i = ground arith
count_of-append e h (x ∷ xs) i = ground (arith, count_of-append e h xs i)

Distinct-append :
    (xs : List ProcessorCoreInformation) (i : ProcessorCoreInformation)
    → Distinct xs
    → has_group i.efficiency_class i.has_hyperthreading xs ≡ false
    → Distinct (xs ++ (i ∷ []))
Distinct-append [] i d fresh = (refl, tt)
Distinct-append (x ∷ xs) i d fresh =
    ground (
      arith,
      Distinct-append xs i d.1,
      has_group-append x.efficiency_class x.has_hyperthreading xs i,
    )

has_group-none :
    (e : ℕ) (h : Bool) (infos : List ProcessorCoreInformation)
    → (count_matches e h infos).0 ≡ false
    → has_group e h (count_matches e h infos).1 ≡ false
has_group-none e h infos missed =
    has_group-count_matches e e h h infos ∙ (sym (count_matches-found e h infos) ∙ missed)

same_key-eq : (e e' : ℕ) (h h' : Bool) → same_key e' h' e h ≡ true → (e' ≡ e) × (h' ≡ h)
same_key-eq e e' true true same = ground arith
same_key-eq e e' true false same = ground arith
same_key-eq e e' false true same = ground arith
same_key-eq e e' false false same = ground arith

module _ (e : ℕ) (h : Bool) (infos : List ProcessorCoreInformation) (small : e < uint16_mod) where
  -- Counting a core keeps the keys of the groups distinct.
  pub count_core-Distinct : Distinct infos → Distinct (count_core e h infos)
  unfolding count_core
  count_core-Distinct d = elim (Bool-cases (count_matches e h infos).0) [
    | inl found ↦ rw found (Distinct-count_matches e h infos d)
    | inr missed ↦ rw missed (
        Distinct-append (count_matches e h infos).1 _ (Distinct-count_matches e h infos d)
          (rw (mod-eq_of_lt small) (has_group-none e h infos missed)))
  ]

  -- It adds one to the count of its own key.
  count_core_same :
      (n : ℕ)
      → count_of e h infos ≡ n % uint16_mod
      → count_of e h (count_core e h infos) ≡ (n + 1) % uint16_mod
  unfolding count_core
  count_core_same n counted = elim (Bool-cases (count_matches e h infos).0) [
    | inl found ↦
        let there = sym (count_matches-found e h infos) ∙ found in
        rw (found, count_of-count_matches_same e h infos, there) (omega arith)
    | inr missed ↦
        let absent = sym (count_matches-found e h infos) ∙ missed in
        let zero_before = count_of-none e h infos absent in
        rw
          (
            missed,
            count_of-append e h (count_matches e h infos).1,
            has_group-none e h infos missed,
            mod-eq_of_lt small,
            same_bool_refl h,
          )
          (ground arith)
  ]

  -- And leaves the counts of the other keys alone.
  count_core_other :
      (e' : ℕ) (h' : Bool)
      → same_key e' h' e h ≡ false
      → count_of e' h' (count_core e h infos) ≡ count_of e' h' infos
  unfolding count_core
  count_core_other e' h' other = elim (Bool-cases (count_matches e h infos).0) [
    | inl found ↦ rw found (count_of-count_matches_other e e' h h' infos other)
    | inr missed ↦
        rw (missed, count_of-append e' h' (count_matches e h infos).1, mod-eq_of_lt small)
          (ground (
            arith,
            has_group-count_matches e e' h h' infos,
            count_of-count_matches_other e e' h h' infos other,
            count_of-none e' h' infos,
            is_match-other e e' h h'
                (record { efficiency_class = e; count = 1; has_hyperthreading = h }) other,
            same_bool_refl h,
          ))
  ]

  -- Both cases at once.
  pub count_core_lem :
      (e' : ℕ) (h' : Bool) (n : ℕ)
      → count_of e' h' infos ≡ n % uint16_mod
      → count_of e' h' (count_core e h infos)
        ≡ ((if same_key e' h' e h then 1 else 0) + n) % uint16_mod
  count_core_lem e' h' n counted = elim (Bool-cases (same_key e' h' e h)) [
    | inl same ↦
        let (e_eq, h_eq) = same_key-eq e e' h h' same in
        rw same (rw (e_eq, h_eq) (count_core_same n (rw (e_eq, h_eq) at counted) ∙ omega arith))
    | inr other ↦ rw other (count_core_other e' h' other ∙ (counted ∙ omega arith))
  ]
