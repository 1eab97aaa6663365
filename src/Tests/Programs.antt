-- ===== src/Tests/Programs.antt =====
-- The program at sample command lines.
use mathlib.Core.Path.{subst}
use mathlib.Core.Option.{some-injective}
use vibe_switch.Base.{◌≡◌, Bytes, codes, true, none, some, List, [], ◌∷◌, get_or, if◌then◌else◌}
use vibe_switch.Command.Start.{Host}
use vibe_switch.Command.Handles.{opened, closed}
use vibe_switch.Program.{FlagPackage, Terminal, main}
use vibe_switch.Program.Status.{status-main, succeeds}
use vibe_switch.Control.Queries.{IsServed}
use vibe_switch.Tests.Tables.{whole_numbers}
use vibe_switch.Tests.Queries.{connection, connection-IsServed}
use vibe_switch.Tests.Commands.{flags}

-- The flags of a switch are always the two of Tests/Commands; a client has none.
abbrev flag_package : FlagPackage
flag_package = record {
  parse_switch = λ args. some (record { ports = flags; ageing = none; ctl_sock = none });
  parse_ctl = λ args. some (none, args);
}

abbrev machine : Host
machine = record { open_interface = λ name. some (get_or name 3 0); serves_control = true }

abbrev terminal : Terminal whole_numbers
terminal = record {
  dial = λ sock. some connection;
  lines = codes "show fdb" ∷ codes "quit" ∷ [];
  read_all = true;
}

abbrev show_all : List Bytes
show_all = codes "ctl" ∷ codes "show" ∷ codes "all" ∷ []

-- A query of every target.
status-main_example :
    ((main whole_numbers flag_package machine terminal show_all).status
      ≡ (if succeeds whole_numbers flag_package machine terminal show_all then 0 else 1))
    × (closed (main whole_numbers flag_package machine terminal show_all).actions
        ≡ opened (main whole_numbers flag_package machine terminal show_all).actions)
status-main_example =
    status-main whole_numbers flag_package machine terminal show_all (λ sock conn same.
      subst (IsServed whole_numbers) (some-injective connection conn same) connection-IsServed)
