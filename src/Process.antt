-- ===== src/Process.antt =====
-- The daemon's process in src/core/daemon.rs: the pid file, the test for a live process, its end, and
-- the standard handles that it must not inherit.
use codex_bridge.Common.{
  ℕ, ◌-◌, ◌%◌, ◌^◌, Bool, true, false, ◌⧺◌, [], ◌∷◌, is_some_and, Option, none, some, and_then,
  if◌then◌else◌, ltb,
}
use codex_bridge.Common.Decimal.{ℤ, pos, negsuc, parse_unsigned, show_ℕ}
use codex_bridge.Common.Text.{trim_start, trim_end, contains}
use codex_bridge.Json.{Value, null, num, int}
use codex_bridge.Host.{
  Outside, Machine, Command, Effect, StdHandle, std_input, std_output, std_error, signalled, ran,
  uninherited, act,
}

-- The pid file after `spawn`: a write that fails is ignored.
unfoldable pub write_pid : Bool → ℕ → Machine → Machine
write_pid written pid m = if written then record m { pid_file = some (show_ℕ pid) } else m

unfoldable pub read_pid : Machine → Option ℕ
read_pid m = and_then m.pid_file (λ raw. parse_unsigned (2 ^ 32) (trim_end (trim_start raw)))

-- A removal that fails is ignored.
unfoldable pub clear_pid : Outside → Machine → Machine
clear_pid o m = record m { pid_file = if o.removes_pid m.trace then none else m.pid_file }

abbrev pub pid_value : Option ℕ → Value
pid_value none = null
pid_value (some pid) = num (int (pos pid))

-- `pid as i32`, in two's complement
unfoldable pub as_i32 : ℕ → ℤ
as_i32 n = let low = n % 2 ^ 32 in if ltb low (2 ^ 31) then pos low else negsuc (2 ^ 32 - 1 - low)

-- The two programs of `alive` and `terminate` on Windows.
abbrev pub tasklist : ℕ → Command
tasklist pid = record {
  program = "tasklist";
  args = "/FI" ∷ ("PID eq " ⧺ show_ℕ pid) ∷ "/NH" ∷ "/FO" ∷ "CSV" ∷ [];
}

abbrev pub taskkill : ℕ → Command
taskkill pid = record { program = "taskkill"; args = "/PID" ∷ show_ℕ pid ∷ "/T" ∷ "/F" ∷ [] }

unfoldable pub listed : Outside → Machine → ℕ → Bool
listed o m pid =
    is_some_and (λ out. contains ("\"" ⧺ (show_ℕ pid ⧺ "\"")) out.stdout)
      (o.outputs m.trace (tasklist pid))

-- Signal 0 only asks, as the list of processes does.
unfoldable pub alive : Outside → Machine → ℕ → Bool
unfolding listed
alive o m pid = elim o.windows [ true ↦ listed o m pid | false ↦ o.kills m.trace (as_i32 pid) 0 ]

abbrev pub sigterm : ℕ
sigterm = 15

unfoldable pub killing : Bool → ℕ → Effect
killing true pid = ran (taskkill pid)
killing false pid = signalled (as_i32 pid) sigterm

-- Whether it succeeds is not looked at.
unfoldable pub terminate : Outside → ℕ → Machine → Machine
unfolding act killing
terminate o pid m = act o (killing o.windows pid) 0 m

unfoldable pub clear_inherit : Outside → StdHandle → Machine → Machine
unfolding act
clear_inherit o handle m = if o.usable_handle handle then act o (uninherited handle) 0 m else m

unfoldable pub no_inherit_std_handles : Outside → Machine → Machine
unfolding clear_inherit
no_inherit_std_handles o m =
    clear_inherit o std_error (clear_inherit o std_output (clear_inherit o std_input m))

-- The block of `spawn` for Windows.
unfoldable pub detach : Outside → Machine → Machine
unfolding no_inherit_std_handles
detach o m = elim o.windows [ true ↦ no_inherit_std_handles o m | false ↦ m ]
