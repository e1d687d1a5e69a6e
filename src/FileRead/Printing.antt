-- ===== src/FileRead/Printing.antt =====
-- `PrintResults`: what it prints and what it frees.
use file_read_speed_test.Base.{
  ℕ, ◌+◌, ◌≡◌, refl, ap, sym, ◌∙◌, ==_iff, inl, inr, ◌==◌, Bool-cases, if◌then◌else◌, sub_ℕ, some,
  List, [], ◌∷◌, ◌++◌, map, bind_some,
}
use file_read_speed_test.Win32.{Win32, Line, open_delay_line, open_to_read_delay_line, buffer_line}
use file_read_speed_test.Allocator.{new_os_allocation, deallocate}
use file_read_speed_test.FileRead.{IoContext, OverlappedIoFileRead, print_contexts, print_results}

-- A line that is printed, or a call of `VirtualFree`.
pub data Effect : Type 0 where
  prints : Line → Effect
  frees : ℕ → Effect

abbrev pub run_effect : (os : Win32) → Effect → os.World → os.World
run_effect os (prints line) w = (os.write_line line w).1
run_effect os (frees memory) w = (os.virtual_free memory w).1

abbrev pub run_effects : (os : Win32) → List Effect → os.World → os.World
run_effects os [] w = w
run_effects os (e ∷ es) w = run_effects os es (run_effect os e w)

-- A buffer is freed unless its address is null.
abbrev pub free_effects : IoContext → List Effect
free_effects c = if c.buffer.memory == 0 then [] else frees c.buffer.memory ∷ []

-- One line for each context, with its number, its delay from the first read on and its duration.
unfoldable pub report_contexts : ℕ → ℕ → List IoContext → List Effect
report_contexts read_issue_time i [] = []
report_contexts read_issue_time i (c ∷ contexts) =
    prints (
      buffer_line i (sub_ℕ c.request_start_time read_issue_time)
        (sub_ℕ c.request_complete_time c.request_start_time))
    ∷ (free_effects c ++ report_contexts read_issue_time (i + 1) contexts)

unfoldable pub report : ℕ → OverlappedIoFileRead → List Effect
report pre_open_time r =
    prints (open_delay_line (sub_ℕ r.overlapped_io_file.file_open_time pre_open_time))
    ∷ prints (open_to_read_delay_line (sub_ℕ r.read_issue_time r.overlapped_io_file.file_open_time))
    ∷ report_contexts r.read_issue_time 0 r.contexts

abbrev pub freed_context : IoContext → IoContext
freed_context c = record c { buffer = record { memory = 0 } }

abbrev pub freed : OverlappedIoFileRead → OverlappedIoFileRead
freed r = record r { contexts = map freed_context r.contexts }

-- The calls of `VirtualFree` among the effects.
abbrev pub frees_of : List Effect → List ℕ
frees_of [] = []
frees_of (prints line ∷ es) = frees_of es
frees_of (frees memory ∷ es) = memory ∷ frees_of es

module _ (os : Win32) where
  deallocate_lem :
      (c : IoContext) (es : List Effect) (w : os.World)
      → (w' : os.World) × (deallocate os c.buffer w ≡ some (record { memory = 0 }, w'))
        × (run_effects os (free_effects c ++ es) w ≡ run_effects os es w')
  unfolding deallocate
  deallocate_lem c es w = elim (Bool-cases (c.buffer.memory == 0)) [
    | inl null ↦ (
      w,
      rw null (ap (λ (m : ℕ). some (new_os_allocation m, w)) ((==_iff _ 0).0 null)),
      rw null refl,
    )
    | inr live ↦ ((os.virtual_free c.buffer.memory w).1, rw live refl, rw live refl)
  ]

  print_contexts-report_contexts :
      (read_issue_time i : ℕ) (contexts : List IoContext) (w : os.World)
      → print_contexts os read_issue_time i contexts w
        ≡ some (
          map freed_context contexts,
          run_effects os (report_contexts read_issue_time i contexts) w,
        )
  unfolding print_contexts report_contexts
  print_contexts-report_contexts read_issue_time i [] w = refl
  print_contexts-report_contexts read_issue_time i (c ∷ contexts) w =
      let (w', frees_it, same) =
        deallocate_lem c (report_contexts read_issue_time (i + 1) contexts) _ in
      bind_some (deallocate os c.buffer) _ _ frees_it
      ∙ bind_some (print_contexts os read_issue_time (i + 1) contexts) _ w'
          (print_contexts-report_contexts read_issue_time (i + 1) contexts w')
      ∙ ap (λ (v : os.World). some (freed_context c ∷ map freed_context contexts, v)) (sym same)

  -- The call prints the report and frees the buffers in its order, and nothing else; it is always
  -- defined, and leaves each context with a null buffer.
  pub print_results-report :
      (pre_open_time : ℕ) (r : OverlappedIoFileRead) (w : os.World)
      → print_results os pre_open_time r w
        ≡ some (freed r, run_effects os (report pre_open_time r) w)
  unfolding print_results report
  print_results-report pre_open_time r w =
      bind_some (print_contexts os r.read_issue_time 0 r.contexts) _ _
        (print_contexts-report_contexts r.read_issue_time 0 r.contexts _)

frees_of-report_contexts_freed :
    (read_issue_time i : ℕ) (contexts : List IoContext)
    → frees_of (report_contexts read_issue_time i (map freed_context contexts)) ≡ []
unfolding report_contexts
frees_of-report_contexts_freed read_issue_time i [] = refl
frees_of-report_contexts_freed read_issue_time i (c ∷ contexts) =
    frees_of-report_contexts_freed read_issue_time (i + 1) contexts

unfoldable pub live_buffers : List IoContext → List ℕ
live_buffers [] = []
live_buffers (c ∷ contexts) =
    if c.buffer.memory == 0 then live_buffers contexts else c.buffer.memory ∷ live_buffers contexts

frees_of-report_contexts :
    (read_issue_time i : ℕ) (contexts : List IoContext)
    → frees_of (report_contexts read_issue_time i contexts) ≡ live_buffers contexts
unfolding report_contexts live_buffers
frees_of-report_contexts read_issue_time i [] = refl
frees_of-report_contexts read_issue_time i (c ∷ contexts) =
    elim (Bool-cases (c.buffer.memory == 0)) [
      | inl null ↦ rw null (frees_of-report_contexts read_issue_time (i + 1) contexts)
      | inr live ↦ rw live (
          ap (λ (ms : List ℕ). c.buffer.memory ∷ ms)
            (frees_of-report_contexts read_issue_time (i + 1) contexts))
    ]

frees_once :
    (pre_open_time : ℕ) (r : OverlappedIoFileRead)
    → (frees_of (report pre_open_time r) ≡ live_buffers r.contexts)
      × (frees_of (report pre_open_time (freed r)) ≡ [])
unfolding report
frees_once pre_open_time r = (
  frees_of-report_contexts r.read_issue_time 0 r.contexts,
  frees_of-report_contexts_freed r.read_issue_time 0 r.contexts,
)

-- The call is always defined: it prints the report and frees the buffers in the order of the
-- report, and does nothing else, and it leaves each context with a null buffer. The report frees
-- each buffer that is not null once, in the order of the contexts, and a second report frees none.
pub print_results_frees_once :
    (os : Win32) (pre_open_time : ℕ) (r : OverlappedIoFileRead) (w : os.World)
    → (print_results os pre_open_time r w
        ≡ some (freed r, run_effects os (report pre_open_time r) w))
      × (frees_of (report pre_open_time r) ≡ live_buffers r.contexts)
      × (frees_of (report pre_open_time (freed r)) ≡ [])
print_results_frees_once os pre_open_time r w =
    let (first, second) = frees_once pre_open_time r in
    (print_results-report os pre_open_time r w, first, second)
