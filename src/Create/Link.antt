-- ===== src/Create/Link.antt =====
-- handle_link with an absolute old name.
use model_lib.Prelude.{◌≡◌, refl, true, false, ◌==◌, some}
use model_lib.Prelude.Int.{ℤ, pos, leb_ℤ}
use model_lib.Env.{Env, Bytes}
use model_lib.Dir.{head_char, slash}
use model_lib.Create.{handle_link, adj_path_i}

module _ ⦃env : Env⦄ where
  -- If the old name begins with a slash, handle_link does the same for all current directories whose
  -- number is positive: a new name without a slash is resolved from the root as well.
  pub handle_link-absolute :
      (old_name new_name : Bytes) (i j : ℤ)
      → (head_char old_name == slash) ≡ true
      → leb_ℤ i (pos 0) ≡ false
      → leb_ℤ j (pos 0) ≡ false
      → handle_link (some old_name) (some new_name) i
        ≡ handle_link (some old_name) (some new_name) j
  unfolding handle_link adj_path_i
  handle_link-absolute old_name new_name i j h p q = rw (p, q, h) refl
