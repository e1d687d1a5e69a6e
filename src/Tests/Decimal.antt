-- ===== src/Tests/Decimal.antt =====
-- Numbers in decimal digits: a printer that the C library of the tests reads back.
use Prim.Native.Char.{Char, code}
use Prim.Native.String.{String}
use file_read_speed_test.Base.{
  ℕ, zero, suc, ◌-◌, ◌/◌, ◌%◌, ◌^◌, ◌<◌, ◌≡◌, refl, ap, ◌∙◌, false, ltb, leb, if◌then◌else◌, inl,
  inr, Bool-cases, some, none, arith,
}
use file_read_speed_test.Words.{x64, size_mod}
use file_read_speed_test.CommandLine.{
  SuccessAction, success_action, process_command_line_parameters,
}
use file_read_speed_test.CommandLine.RoundTrip.{IsPrinter, print_action, process-print_action}
use file_read_speed_test.Tests.Libraries.{
  list_machines, list_machines-IsFirstMatch, digits_value, digits_library,
  digits_library-IsStrtoull,
}

abbrev digit : ℕ → Char
digit zero = "0"
digit (suc zero) = "1"
digit (suc (suc zero)) = "2"
digit (suc (suc (suc zero))) = "3"
digit (suc (suc (suc (suc zero)))) = "4"
digit (suc (suc (suc (suc (suc zero))))) = "5"
digit (suc (suc (suc (suc (suc (suc zero)))))) = "6"
digit (suc (suc (suc (suc (suc (suc (suc zero))))))) = "7"
digit (suc (suc (suc (suc (suc (suc (suc (suc zero)))))))) = "8"
digit (suc (suc (suc (suc (suc (suc (suc (suc (suc n))))))))) = "9"

code-digit : (n : ℕ) → n < 10 → code (digit n) - b'0' ≡ n
code-digit zero lt = refl
code-digit (suc zero) lt = refl
code-digit (suc (suc zero)) lt = refl
code-digit (suc (suc (suc zero))) lt = refl
code-digit (suc (suc (suc (suc zero)))) lt = refl
code-digit (suc (suc (suc (suc (suc zero))))) lt = refl
code-digit (suc (suc (suc (suc (suc (suc zero)))))) lt = refl
code-digit (suc (suc (suc (suc (suc (suc (suc zero))))))) lt = refl
code-digit (suc (suc (suc (suc (suc (suc (suc (suc zero)))))))) lt = refl
code-digit (suc (suc (suc (suc (suc (suc (suc (suc (suc n))))))))) lt = omega (arith, lt)

-- The digits of a number in front of a text, at most as many as the fuel.
unfoldable digits_before : ℕ → ℕ → String → String
digits_before zero n tail = tail
digits_before (suc fuel) n tail =
    let rest = digits_before fuel (n / 10) (String.◌∷◌ (digit (n % 10)) tail) in
    if ltb n 10 then String.◌∷◌ (digit n) tail else rest

digits_value-before :
    (fuel n : ℕ) (tail : String)
    → n < 10 ^ fuel
    → digits_value 0 (digits_before fuel n tail) ≡ digits_value n tail
unfolding digits_before
digits_value-before zero n tail small =
    ap (λ (m : ℕ). digits_value m tail) (let nothing : 0 ≡ n = omega arith in nothing)
digits_value-before (suc fuel) n tail small = elim (Bool-cases (ltb n 10)) [
  | inl one ↦
      let lt : n < 10 = ground arith in
      rw one (ap (λ (m : ℕ). digits_value m tail) (let e = code-digit n lt in omega (arith, e)))
  | inr more ↦
      let fewer : n / 10 < 10 ^ fuel = grind arith in
      let last : n % 10 < 10 = grind arith in
      rw more (
        digits_value-before fuel (n / 10) (String.◌∷◌ (digit (n % 10)) tail) fewer
        ∙ ap (λ (m : ℕ). digits_value m tail)
            (let e = code-digit (n % 10) last in grind (arith, e)))
]

abbrev show : ℕ → String
show n = digits_before 20 n ""

show_run : digits_before 20 4096 "" ≡ "4096"
unfolding digits_before
show_run = refl

show-value : (n : ℕ) → n < size_mod x64 → digits_value 0 (show n) ≡ n
show-value n small = digits_value-before 20 n "" (omega arith)

show-fits : (n : ℕ) → n < size_mod x64 → leb (2 ^ 64) (digits_value 0 (show n)) ≡ false
show-fits n small = let e = show-value n small in rw e (ground arith)

show-IsPrinter : IsPrinter x64 digits_library digits_library-IsStrtoull show
unfolding digits_library-IsStrtoull
show-IsPrinter = record { fits = show-fits; reads_back = show-value }

abbrev action : SuccessAction
action = record {
  file_path = "a.txt";
  buffer_size = some 4096;
  thread_count = none;
  queue_depth = some 0;
}

process-print_action_example :
    process_command_line_parameters digits_library x64 list_machines
      (print_action show "test.exe" action)
      0
    ≡ some (success_action action)
process-print_action_example =
    process-print_action digits_library x64 digits_library-IsStrtoull show show-IsPrinter
      list_machines list_machines-IsFirstMatch 0 (omega arith) "test.exe" action
      (omega arith, tt, omega arith)
