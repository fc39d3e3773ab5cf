-- ===== src/Examples/Shell.antt =====
-- The theorems about commands and the shell, at a file system with nothing but the root.
use anaga.Prelude.{ℕ, ◌≡◌, some, Bool, false, arith, replicate, length-replicate, Returns}
use anaga.Keyboard.{getchar}
use anaga.Kernel.{max_command_len, Shell, step}
use anaga.Kernel.Loop.{IsShell, StepResult, step_lem}
use anaga.Examples.State.{blank_screen-IsValid, fresh, fresh-IsValid, cat_buffer, cat_buffer-size}

abbrev shell : Shell
shell = record { shift_state = false; idx = 0; cmd = replicate max_command_len 0; vfs = fresh }

shell-IsShell : IsShell shell
shell-IsShell = record {
  files = fresh-IsValid;
  ready = record {
    screen_valid = blank_screen-IsValid;
    inside = omega arith;
    room = omega (arith, length-replicate {A = ℕ} max_command_len 0);
    no_nul = tt;
  };
}

step_example :
    (key : ℕ × Bool) × (getchar 0x1c false ≡ some key)
    × Returns (StepResult cat_buffer shell key.0) (step cat_buffer 0x1c shell)
step_example = step_lem cat_buffer 0x1c shell cat_buffer-size shell-IsShell
