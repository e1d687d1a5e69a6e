-- ===== src/FileRead/Worker.antt =====
-- `WorkerThread` of Code/OverlappedIOFileRead.cpp, a loop over the completions of a port. Its waits
-- have no other effect, and what they give in turn is an argument.
use mathlib.Core.Option.{some-injective}
use file_read_speed_test.Base.{
  ℕ, ◌<◌, ◌≡◌, ◌≢◌, refl, sym, ap, ◌∙◌, inl, inr, ◌==◌, ==_iff, Bool-cases, if◌then◌else◌, Bool,
  true, false, ◌&&◌, ◌||◌, Option, none, some, List, [], ◌∷◌, ◌++◌, length, length-set, get_elem?,
  set, get_elem?-set_self, get_elem?-set_ne, get_elem?-lt, lt_of_get_elem?, Exec, ◌>>=◌, return,
  undefined, call, bind_some,
}
use file_read_speed_test.Win32.{Win32, Completion}
use file_read_speed_test.FileRead.{IoContext}

abbrev pub is_null : Option ℕ → Bool
is_null none = true
is_null (some k) = false

-- The shutdown signal.
abbrev pub is_shutdown : Completion → Bool
is_shutdown c = c.completion_key == 0 && is_null c.context

abbrev pub finish_context : ℕ → IoContext → IoContext
finish_context time c = record c { request_complete_time = time; is_complete = true }

abbrev pub fail_context : IoContext → IoContext
fail_context c = record c { is_complete = true }

module _ (os : Win32) where
  -- A write through the pointer `context`.
  unfoldable pub write_context :
      Option ℕ → (IoContext → IoContext) → List IoContext → Exec os.World (List IoContext)
  write_context none change contexts = undefined
  write_context (some k) change contexts = elim (get_elem? contexts k) [
    | none ↦ undefined
    | some c ↦ return (set contexts k (change c))
  ]

  -- One round of the loop past the test for the signal. Both branches on the error are empty.
  unfoldable pub worker_round : Completion → List IoContext → Exec os.World (List IoContext)
  worker_round completion contexts =
      if completion.result
      then (do time ← call os.now; write_context completion.context (finish_context time) contexts)
      else (do
        error ← call os.get_last_error
        write_context completion.context fail_context contexts)

  -- The exit code, or none while the thread waits for the next completion; and the contexts.
  unfoldable pub worker_thread :
      List Completion → List IoContext → Exec os.World (Option ℕ × List IoContext)
  worker_thread [] contexts = return (none, contexts)
  worker_thread (completion ∷ completions) contexts = elim (is_shutdown completion) [
    | true ↦ return (some 0, contexts)
    | false ↦ do contexts' ← worker_round completion contexts; worker_thread completions contexts'
  ]

-- The completions of requests, among `n` contexts.
abbrev pub AreRequests : ℕ → List Completion → Type 0
AreRequests n [] = Unit {0}
AreRequests n (c ∷ cs) = ((k : ℕ) × (c.context ≡ some k) × (k < n)) × AreRequests n cs

abbrev pub points_to : ℕ → Option ℕ → Bool
points_to k none = false
points_to k (some j) = j == k

abbrev pub mentions : ℕ → List Completion → Bool
mentions k [] = false
mentions k (c ∷ cs) = points_to k c.context || mentions k cs

-- The context is as it was, but for the time of completion, and complete if it was or is `told`.
abbrev pub IsTold : Bool → IoContext → Option IoContext → Type 0
IsTold told c o =
    (time : ℕ) × (o
      ≡ some (record c { request_complete_time = time; is_complete = c.is_complete || told }))

and_false : (b : Bool) → (b && false) ≡ false
and_false true = refl
and_false false = refl

or_false : (b : Bool) → (b || false) ≡ b
or_false true = refl
or_false false = refl

or_true : (b : Bool) → (b || true) ≡ true
or_true true = refl
or_true false = refl

module _ (os : Win32) where
  worker_round_request :
      (completion : Completion) (contexts : List IoContext) (w : os.World) (j : ℕ) (c : IoContext)
      → completion.context ≡ some j
      → get_elem? contexts j ≡ some c
      → (time : ℕ) × (w' : os.World) × (worker_round os completion contexts w
          ≡ some
              (set contexts j (record c { request_complete_time = time; is_complete = true }), w'))
  unfolding worker_round write_context
  worker_round_request completion contexts w j c points at_j = elim (Bool-cases completion.result) [
    | inl succeeds ↦
        ((os.now w).0, (os.now w).1, rw (succeeds, points, write_context) (rw at_j refl))
    | inr fails ↦ (
      c.request_complete_time,
      (os.get_last_error w).1,
      rw (fails, points, write_context) (rw at_j refl),
    )
  ]

  IsTold-cons :
      (completion : Completion) (completions : List Completion)
      (contexts contexts' : List IoContext) (j time : ℕ) (new : IoContext)
      → completion.context ≡ some j
      → get_elem? contexts j ≡ some new
      → ((k : ℕ) (c : IoContext)
          → get_elem?
              (set contexts j (record new { request_complete_time = time; is_complete = true }))
              k
            ≡ some c
          → IsTold (mentions k completions) c (get_elem? contexts' k))
      → (k : ℕ) (c : IoContext) → get_elem? contexts k ≡ some c
      → IsTold (mentions k (completion ∷ completions)) c (get_elem? contexts' k)
  IsTold-cons completion completions contexts contexts' j time new points at_j rest k c at_k =
      rw points (elim (Bool-cases (j == k)) [
        | inl same ↦
            let same' = (==_iff j k).0 same in
            let is_new : new ≡ c =
              some-injective _ _ (sym at_j ∙ ap (get_elem? contexts) same' ∙ at_k) in
            let new' = record new { request_complete_time = time; is_complete = true } in
            let at_new : get_elem? (set contexts j new') k ≡ some new' =
              ap (get_elem? (set contexts j new')) (sym same')
              ∙ get_elem?-set_self contexts j new' (lt_of_get_elem? contexts j new at_j) in
            let (time', told) = rest k new' at_new in
            rw (same, or_true c.is_complete)
              (
                time',
                told
                    ∙ ap
                        (λ (x : IoContext).
                          some (record x { request_complete_time = time'; is_complete = true }))
                        is_new,
              )
        | inr other ↦
            let ne : j ≢ k = λ e. let yes = (==_iff j k).1 e in cc in
            rw other (rest k c (get_elem?-set_ne contexts _ ne ∙ at_k))
      ])

  worker_thread-IsTold :
      (completions : List Completion) (signal : Completion) (later : List Completion)
      (contexts : List IoContext) (w : os.World)
      → is_shutdown signal ≡ true
      → AreRequests (length contexts) completions
      → (contexts' : List IoContext) × (w' : os.World) × (worker_thread os
            (completions ++ (signal ∷ later))
            contexts
            w
          ≡ some ((some 0, contexts'), w'))
        × (length contexts' ≡ length contexts)
        × ((k : ℕ) (c : IoContext)
            → get_elem? contexts k ≡ some c
            → IsTold (mentions k completions) c (get_elem? contexts' k))
  unfolding worker_thread
  worker_thread-IsTold [] signal later contexts w ends requests = (
    contexts,
    w,
    rw (ends, worker_thread) refl,
    refl,
    λ k c at_k. (
      c.request_complete_time,
      at_k ∙ ap (λ (b : Bool). some (record c { is_complete = b })) (sym (or_false c.is_complete)),
    ),
  )
  worker_thread-IsTold (completion ∷ completions) signal later contexts w ends
        ((j, points, lt), requests) =
      let (new, at_j) = get_elem?-lt contexts j lt in
      let (time, w₁, round) = worker_round_request completion contexts w j new points at_j in
      let new' = record new { request_complete_time = time; is_complete = true } in
      let same = length-set contexts j new' in
      let (contexts', w', runs, count, told) =
        worker_thread-IsTold completions signal later (set contexts j new') w₁ ends
          (rw same requests) in
      let request : is_shutdown completion ≡ false = rw points (and_false _) in
      (
        contexts',
        w',
        rw (request, worker_thread)
            (bind_some (worker_round os completion contexts) _ w round ∙ runs),
        count ∙ same,
        IsTold-cons completion completions contexts contexts' j time new points at_j told,
      )

  -- If the completions before a shutdown signal are those of contexts that exist, the thread
  -- returns 0 at the signal, whatever comes after it; there are as many contexts as before, and
  -- each one is complete exactly if it was before or was told of, and has changed in nothing else
  -- but its time of completion.
  pub worker_thread_returns :
      (completions : List Completion) (signal : Completion) (later : List Completion)
      (contexts : List IoContext) (w : os.World) (k : ℕ) (c : IoContext)
      → is_shutdown signal ≡ true
      → AreRequests (length contexts) completions
      → get_elem? contexts k ≡ some c
      → (contexts' : List IoContext) × (w' : os.World) × (worker_thread os
            (completions ++ (signal ∷ later))
            contexts
            w
          ≡ some ((some 0, contexts'), w'))
        × (length contexts' ≡ length contexts)
        × IsTold (mentions k completions) c (get_elem? contexts' k)
  worker_thread_returns completions signal later contexts w k c ends requests at_k =
      let (contexts', w', runs, same, told) =
        worker_thread-IsTold completions signal later contexts w ends requests in
      (contexts', w', runs, same, told k c at_k)
