-- ===== src/Cores/Walk.antt =====
-- The walk over the buffer that Windows fills: it ends, and counts every structure once.
use file_read_speed_test.Base.{
  ℕ, zero, suc, ◌+◌, ◌-◌, ◌%◌, ◌^◌, ◌<◌, ◌≤◌, ◌≡◌, ◌∙◌, ltb, if◌then◌else◌, Bool, true, some, List,
  [], ◌∷◌, arith,
}
use file_read_speed_test.Words.{uint16_mod}
use file_read_speed_test.Win32.{Win32, ProcessorInformation}
use file_read_speed_test.Cores.{ProcessorCoreInformation, count_core, is_hyperthreaded, count_cores}
use file_read_speed_test.Cores.Counting.{
  count_of, Distinct, same_key, count_core-Distinct, count_core_lem,
}

-- The structures that lie one behind the other from an offset to the end of the buffer. Each has a
-- size of its own, and a class that fits a byte, which is what Windows stores it in.
abbrev pub Tiles : (ℕ → ProcessorInformation) → ℕ → ℕ → List ProcessorInformation → Type 0
Tiles buffer buffer_end offset [] = buffer_end ≤ offset
Tiles buffer buffer_end offset (p ∷ ps) =
    (offset < buffer_end)
    × (buffer offset ≡ p)
    × (0 < p.size)
    × (p.efficiency_class < 2 ^ 8)
    × Tiles buffer buffer_end (offset + p.size) ps

module _ (os : Win32) where
  -- The structures counted in order.
  abbrev pub count_all :
      List ProcessorInformation → List ProcessorCoreInformation → List ProcessorCoreInformation
  count_all [] infos = infos
  count_all (p ∷ ps) infos =
      count_all ps (count_core p.efficiency_class (is_hyperthreaded os p) infos)

  -- How many structures are of a kind.
  abbrev pub occurrences : ℕ → Bool → List ProcessorInformation → ℕ
  occurrences e h [] = 0
  occurrences e h (p ∷ ps) =
      (if same_key e h p.efficiency_class (is_hyperthreaded os p) then 1 else 0)
      + occurrences e h ps

  count_cores-count_all :
      (ps : List ProcessorInformation) (fuel : ℕ) (buffer : ℕ → ProcessorInformation)
      (buffer_end offset : ℕ) (infos : List ProcessorCoreInformation)
      → Tiles buffer buffer_end offset ps
      → buffer_end - offset < fuel
      → count_cores os fuel buffer buffer_end offset infos ≡ some (count_all ps infos)
  unfolding count_cores
  count_cores-count_all [] zero buffer buffer_end offset infos tiles enough = absurd (omega arith)
  count_cores-count_all [] (suc fuel) buffer buffer_end offset infos tiles enough = ground arith
  count_cores-count_all (p ∷ ps) zero buffer buffer_end offset infos tiles enough =
      absurd (omega arith)
  count_cores-count_all (p ∷ ps) (suc fuel) buffer buffer_end offset infos tiles enough =
      let inside : ltb offset buffer_end ≡ true = ground arith in
      rw (inside, tiles.1)
        (count_cores-count_all ps fuel buffer buffer_end (offset + p.size)
          (count_core p.efficiency_class (is_hyperthreaded os p) infos) tiles.4 (omega arith))

  count_all-Distinct :
      (ps : List ProcessorInformation) (buffer : ℕ → ProcessorInformation) (buffer_end offset : ℕ)
      (infos : List ProcessorCoreInformation)
      → Tiles buffer buffer_end offset ps
      → Distinct infos
      → Distinct (count_all ps infos)
  count_all-Distinct [] buffer buffer_end offset infos tiles d = d
  count_all-Distinct (p ∷ ps) buffer buffer_end offset infos tiles d =
      count_all-Distinct ps buffer buffer_end (offset + p.size) _ tiles.4
        (count_core-Distinct p.efficiency_class (is_hyperthreaded os p) infos (omega arith) d)

  count_all-occurrences :
      (ps : List ProcessorInformation) (buffer : ℕ → ProcessorInformation) (buffer_end offset : ℕ)
      (infos : List ProcessorCoreInformation) (e : ℕ) (h : Bool) (n : ℕ)
      → Tiles buffer buffer_end offset ps
      → count_of e h infos ≡ n % uint16_mod
      → count_of e h (count_all ps infos) ≡ (n + occurrences e h ps) % uint16_mod
  count_all-occurrences [] buffer buffer_end offset infos e h n tiles counted = omega arith
  count_all-occurrences (p ∷ ps) buffer buffer_end offset infos e h n tiles counted =
      count_all-occurrences ps buffer buffer_end (offset + p.size) _ e h _ tiles.4 (
        count_core_lem p.efficiency_class (is_hyperthreaded os p) infos (omega arith) e h n counted)
      ∙ omega arith

  module _ (ps : List ProcessorInformation) (buffer : ℕ → ProcessorInformation) (size : ℕ)
      (tiles : Tiles buffer size 0 ps) where
    -- Over structures that fill the buffer, the walk ends within a fuel of one more than the
    -- buffer's size; each kind of core has at most one group, whose count is the number of its
    -- structures modulo 2 ^ 16.
    pub count_cores-groups :
        (infos : List ProcessorCoreInformation) × (count_cores os (suc size) buffer size 0 []
          ≡ some infos)
        × Distinct infos
        × ((e : ℕ) (h : Bool) → count_of e h infos ≡ occurrences e h ps % uint16_mod)
    count_cores-groups = (
      count_all ps [],
      count_cores-count_all ps (suc size) buffer size 0 [] tiles (omega arith),
      count_all-Distinct ps buffer size 0 [] tiles tt,
      λ e h. count_all-occurrences ps buffer size 0 [] e h 0 tiles (omega arith) ∙ omega arith,
    )
