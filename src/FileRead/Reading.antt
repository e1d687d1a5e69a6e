-- ===== src/FileRead/Reading.antt =====
-- `GetNewReadOffset` and `Read`, on every branch.
use file_read_speed_test.Base.{
  ℕ, ◌+◌, ◌%◌, ◌<◌, ◌≤◌, ◌≡◌, ◌⊎◌, inl, inr, ap, ◌∙◌, ◌∷◌, Bool-cases, none, some, length,
  get_elem?, get_elem?-ge, set, arith, if◌then◌else◌,
}
use file_read_speed_test.Words.{quad_mod, quad_limit}
use file_read_speed_test.Win32.{Win32}
use file_read_speed_test.FileRead.{
  IoContext, OverlappedIoFileRead, get_new_read_offset, read, read_request,
}

-- If the size and the sum fit 63 bits, there is no new offset exactly where the sum lies beyond the
-- size, and otherwise the sum is the new offset.
pub get_new_read_offset_cases :
    (file_size start interval : ℕ)
    → file_size < quad_limit
    → start + interval < quad_limit
    → ((file_size < start + interval) × (get_new_read_offset file_size start interval ≡ none))
      ⊎ ((start + interval ≤ file_size)
          × (get_new_read_offset file_size start interval ≡ some (start + interval)))
unfolding get_new_read_offset
get_new_read_offset_cases file_size start interval small fits =
    let sum : (start + interval) % quad_mod ≡ start + interval = omega arith in
    let size_up : (file_size + quad_limit) % quad_mod ≡ file_size + quad_limit = omega arith in
    let sum_up : (start + interval + quad_limit) % quad_mod ≡ start + interval + quad_limit =
      omega arith in
    rw (sum, size_up, sum_up) (ground arith)

module _ (os : Win32) (r : OverlappedIoFileRead) (i : ℕ) (w : os.World) where
  -- The context as `Read` leaves it.
  abbrev pub started : IoContext → IoContext
  started c = record c { request_start_time = (os.now w).0 }

  -- The world after the calls of `Read`.
  abbrev pub world_after : IoContext → os.World
  world_after c =
      let (accepted, w') =
        os.read_file (read_request r.overlapped_io_file.handle i c) (os.now w).1 in
      if accepted then w' else (os.get_last_error w').1

  pub world_after-requests :
      (c : IoContext)
      → os.requests (world_after c) ≡ read_request r.overlapped_io_file.handle i c ∷ os.requests w
  world_after-requests c =
      let request = read_request r.overlapped_io_file.handle i c in
      let asked =
        os.read_file_requests request (os.now w).1 ∙ ap (λ rs. request ∷ rs) (os.now_requests w) in
      elim (Bool-cases (os.read_file request (os.now w).1).0) [
        | inl accepted ↦ rw accepted asked
        | inr refused ↦ rw refused (os.get_last_error_requests _ ∙ asked)
      ]

  -- A read of a context that exists gives it a start time, changes nothing else of the object, and
  -- leaves the world that the calls of Windows leave, also where Windows refuses the request.
  pub read_in_range :
      (c : IoContext)
      → get_elem? r.contexts i ≡ some c
      → read os r i w ≡ some (record r { contexts = set r.contexts i (started c) }, world_after c)
  unfolding read
  read_in_range c at_i = rw (at_i, read) (ground arith)

  -- A read of a context that does not exist is undefined.
  pub read_out_of_range : length r.contexts ≤ i → read os r i w ≡ none
  unfolding read
  read_out_of_range past = rw (get_elem?-ge r.contexts i (λ h. omega arith), read)
