-- ===== src/Smart/Modes.antt =====
-- The mode that a caller sets for its own operations. `_mode_override` is a context variable: each
-- thread or task has a value of its own.
use hurricache_python_client.Base.{◌≡◌, refl, String, Option, none, some}
use hurricache_python_client.Models.{Mode}
use hurricache_python_client.Routing.{is_write, mode_of}

-- `set_mode`, on the value of the variable
unfoldable pub set_mode : Mode → Option Mode → Option Mode
set_mode mode override = some mode

unfoldable pub clear_mode : Option Mode → Option Mode
clear_mode override = none

-- `mode`, with its block: the token restores what was there.
unfoldable pub with_mode :
    {A : Type 0} → Mode → (Option Mode → A × Option Mode) → Option Mode → A × Option Mode
unfolding set_mode
with_mode mode block override =
    let (result, _) = block (set_mode mode override) in (result, override)

-- the mode of the operation of a name
unfoldable pub mode_for : String → Mode → Option Mode → Mode
unfolding mode_of
mode_for name configured override = mode_of override (is_write name) configured

-- In the block of a mode every operation has that mode, be it a write; behind it, whatever the block
-- set or cleared, it has the mode it had before.
with_mode-mode_for :
    (mode configured : Mode) (name : String) (change : Option Mode → Option Mode)
    (override : Option Mode)
    → let (inside, behind) =
        with_mode mode (λ o. (mode_for name configured o, change o)) override in
      (inside ≡ mode) × (mode_for name configured behind ≡ mode_for name configured override)
unfolding with_mode set_mode mode_for
with_mode-mode_for mode configured name change override = (refl, refl)
