-- ===== src/Handles.antt =====
-- Code/Win32Types.hpp and Code/Win32Types.cpp: objects that own a handle.
use file_read_speed_test.Base.{
  ℕ, ◌≡◌, some, inl, inr, Bool-cases, ◌==◌, if◌then◌else◌, Exec, ◌>>=◌, ◌>>◌, return, call, refl,
  sym, ◌∙◌, bind_some, ==_iff,
}
use file_read_speed_test.Win32.{Win32}

pub record HandleObject : Type 0 where
  pub handle : ℕ

abbrev pub new_handle_object : ℕ → HandleObject
new_handle_object handle = record { handle = handle }

module _ (os : Win32) where
  -- The move constructor: the object made, and what is left of the one moved from.
  unfoldable pub move_construct : HandleObject → HandleObject × HandleObject
  move_construct rhs = (new_handle_object rhs.handle, new_handle_object os.invalid_handle_value)

  -- The move assignment between two objects: what each holds afterwards. The handle that the left
  -- one held is overwritten.
  unfoldable pub move_assign : HandleObject → HandleObject → HandleObject × HandleObject
  move_assign lhs rhs = (new_handle_object rhs.handle, new_handle_object os.invalid_handle_value)

  unfoldable pub destroy : HandleObject → Exec os.World (Unit {0})
  destroy object =
      if object.handle == os.invalid_handle_value
      then return tt
      else do result ← call (os.close_handle object.handle); return tt

  -- A destructor always comes back.
  pub destroy_lem :
      (object : HandleObject) (w : os.World) → (w' : os.World) × (destroy object w ≡ some (tt, w'))
  unfolding destroy
  destroy_lem object w = elim (Bool-cases (object.handle == os.invalid_handle_value)) [
    | inl empty ↦ (w, rw empty)
    | inr owned ↦ ((os.close_handle object.handle w).1, rw owned)
  ]

  destroy_empty :
      (w : os.World) → destroy (new_handle_object os.invalid_handle_value) w ≡ some (tt, w)
  unfolding destroy
  destroy_empty w = rw ((==_iff os.invalid_handle_value os.invalid_handle_value).1 refl) refl

  -- A handle that has been moved is closed once: destroying the object made and the one moved from,
  -- in either order, does what destroying the original does.
  pub move_construct-destroy :
      (rhs : HandleObject) (w : os.World)
      → ((destroy (move_construct rhs).0 >> destroy (move_construct rhs).1) w ≡ destroy rhs w)
        × ((destroy (move_construct rhs).1 >> destroy (move_construct rhs).0) w ≡ destroy rhs w)
  unfolding move_construct
  move_construct-destroy rhs w =
      let (w', destroyed) = destroy_lem rhs w in
      (
        bind_some (destroy rhs) _ w destroyed ∙ destroy_empty w' ∙ sym destroyed,
        bind_some (destroy (new_handle_object os.invalid_handle_value)) _ w (destroy_empty w),
      )

  -- After a move assignment, destroying both objects does what destroying the right one alone would
  -- have done: the handle that the left one held is never closed.
  pub move_assign-destroy :
      (lhs rhs : HandleObject) (w : os.World)
      → (destroy (move_assign lhs rhs).0 >> destroy (move_assign lhs rhs).1) w ≡ destroy rhs w
  unfolding move_assign
  move_assign-destroy lhs rhs w =
      let (w', destroyed) = destroy_lem rhs w in
      bind_some (destroy rhs) _ w destroyed ∙ destroy_empty w' ∙ sym destroyed
