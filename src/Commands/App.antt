-- ===== src/Commands/App.antt =====
-- main.go: the table of commands, with the flags of each and the hook that runs before it. The library
-- urfave/cli finds the command that the command line names, and runs the action of the program where
-- it names none.
use sara.Common.{
  ◌≡◌, Bool, true, List, [], ◌∷◌, ◌++◌, Option, none, some, Bytes, codes, lookup, lookup_inserted,
}
use sara.Config.{string_value}
use sara.Flags.{Flag, flag, init_flags, init_flags_for_test_of_make_conn}
use sara.Commands.{
  Host, System, before, cpu_log, start_cpu_profiles, start_mem_profiles, start_block_profile,
  write_text,
}

-- The functions that the table names.
pub data AppAction : Type 0 where
  sara_action vsn_action stop_action setup_action makeconn_action pprof_action : AppAction

pub record AppCommand : Type 0 where
  pub name : Bytes
  pub category : Bytes
  pub flags : List Flag
  pub action : AppAction

abbrev command_of : Bytes → Bytes → List Flag → AppAction → AppCommand
command_of name category flags action = record {
  name = name;
  category = category;
  flags = flags;
  action = action;
}

unfoldable pub app_commands : List AppCommand
app_commands =
    command_of (codes "version") [] [] vsn_action
    ∷ command_of (codes "stop") [] [] stop_action
    ∷ command_of (codes "setup") []
        (flag (codes "out,o") (string_value (codes "/etc/sara/conf.json")) ∷ []) setup_action
    ∷ command_of (codes "makeconn") (codes "benchmark") init_flags_for_test_of_make_conn
        makeconn_action
    ∷ command_of (codes "pprof") (codes "debug") [] pprof_action
    ∷ []

-- `app`, less what is only printed.
pub record App : Type 0 where
  pub version : Bytes
  pub author : Bytes
  pub email : Bytes
  pub app_flags : List Flag
  pub default_action : AppAction
  pub table : List AppCommand

unfoldable pub app : App
unfolding app_commands
app = record {
  version = codes "0.0.2";
  author = codes "liangc";
  email = codes "cc14514@icloud.com";
  app_flags = init_flags;
  default_action = sara_action;
  table = app_commands;
}

-- `vsn`, line by line.
unfoldable pub vsn : List Bytes
unfolding app
vsn =
    (codes "version\t: " ++ app.version)
    ∷ (codes "auth\t: " ++ app.author)
    ∷ (codes "email\t: " ++ app.email)
    ∷ codes "source\t: https://github.com/emsg/sara"
    ∷ []

-- The command line names a command of the table, or none.
unfoldable pub chosen_action : Option AppCommand → AppAction
unfolding app
chosen_action none = app.default_action
chosen_action (some c) = c.action

-- `app.Run`, up to the action: the hook has run. `find` is how the library finds a command.
unfoldable pub run_app :
    Host → (List AppCommand → Option AppCommand) → Bool → System → AppAction × System
unfolding chosen_action app
run_app h find debug s = (chosen_action (find app.table), before h debug s)

-- With the flag "debug" every command, also one that only sends a signal to a running server, empties
-- the file with that server's profile, where it can be written.
debug_empties :
    (h : Host) (find : List AppCommand → Option AppCommand) (s : System)
    → h.create_error cpu_log ≡ none
    → lookup cpu_log (run_app h find true s).1.files ≡ some []
unfolding run_app before start_cpu_profiles start_mem_profiles start_block_profile write_text
debug_empties h find s e = rw e (lookup_inserted cpu_log [] s.files)
