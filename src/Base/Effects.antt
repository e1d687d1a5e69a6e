-- ===== src/Base/Effects.antt =====
-- Code that runs in a mutable environment `W` and may not come back: it does what the language
-- leaves undefined, such as an index out of range, a null pointer read or a division by zero, or the
-- program is terminated. That outcome is `none`.
use mathlib.Core.Path.{◌≡◌}
use mathlib.Core.Option.{Option, none, some}

abbrev pub Exec : Type 0 → Type 0 → Type 0
Exec W A = W → Option (A × W)

infixl 5 ◌>>=◌ ◌>>◌
abbrev pub ◌>>=◌ : {W A B : Type 0} → Exec W A → (A → Exec W B) → Exec W B
◌>>=◌ m f w = elim (m w) [ none ↦ none | some (a, w') ↦ f a w' ]

abbrev pub ◌>>◌ : {W A B : Type 0} → Exec W A → Exec W B → Exec W B
m >> k = m >>= λ _. k

abbrev pub return : {W A : Type 0} → A → Exec W A
return a w = some (a, w)

abbrev pub undefined : {W A : Type 0} → Exec W A
undefined w = none

-- A call of the environment always comes back.
abbrev pub call : {W A : Type 0} → (W → A × W) → Exec W A
call f w = some (f w)

-- A step whose outcome is known.
module _ {W A B : Type 0} (m : Exec W A) (f : A → Exec W B) (w : W) where
  pub bind_some : {a : A} {w' : W} → m w ≡ some (a, w') → (m >>= f) w ≡ f a w'
  bind_some e = rw (e, ◌>>=◌)

  pub bind_none : m w ≡ none → (m >>= f) w ≡ none
  bind_none e = rw (e, ◌>>=◌)
