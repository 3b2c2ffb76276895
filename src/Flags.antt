-- ===== src/Flags.antt =====
-- utils/flags.go, the flags of the command line, with their texts of help left out, and what the
-- library urfave/cli makes of them: a flag is found by each of its names, and has the value that the
-- command line gives, under whichever of them, or else its default.
pub mod Reading
mod Tests
use sara.Common.{
  Bool, true, false, List, [], ◌∷◌, ◌++◌, Option, none, some, if◌then◌else◌, Bytes, codes, bytes_eq,
  split, ℤ, pos, Outcome, ret, after,
}
use sara.Config.{
  Conf, Value, int_value, string_value, bool_value, assert_int, assert_string, get_def,
}

-- `cli.IntFlag`, `cli.StringFlag` and `cli.BoolFlag`; the value tells which.
pub record Flag : Type 0 where
  pub name : Bytes
  pub value : Value

abbrev pub flag : Bytes → Value → Flag
flag name value = record { name = name; value = value }

-- `Value: config.GetDef(key).(int)`.
unfoldable pub int_flag : Bytes → Conf → Outcome Flag
int_flag key conf = after (assert_int (get_def key conf)) λ i. ret (flag key (int_value i))

unfoldable pub string_flag : Bytes → Bytes → Conf → Outcome Flag
string_flag name key conf =
    after (assert_string (get_def key conf)) λ s. ret (flag name (string_value s))

abbrev pub debug_flag : Flag
debug_flag = flag (codes "debug") (bool_value false)

abbrev pub config_flag : Flag
config_flag = flag (codes "config,c") (string_value (codes "/etc/sara/conf.json"))

-- One after the other; a type assertion that fails ends the program.
unfoldable pub all_flags : List (Outcome Flag) → Outcome (List Flag)
all_flags [] = ret []
all_flags (f ∷ fs) = after f λ x. after (all_flags fs) λ xs. ret (x ∷ xs)

-- The variables of the package, in order.
unfoldable pub package_flags : Conf → Outcome (List Flag)
unfolding int_flag string_flag all_flags
package_flags conf = all_flags (
    int_flag (codes "port") conf
    ∷ int_flag (codes "wsport") conf
    ∷ int_flag (codes "tlsport") conf
    ∷ int_flag (codes "rpcport") conf
    ∷ string_flag (codes "logfile") (codes "logfile") conf
    ∷ int_flag (codes "loglevel") conf
    ∷ string_flag (codes "dbaddr") (codes "dbaddr") conf
    ∷ int_flag (codes "dbpool") conf
    ∷ string_flag (codes "nodeaddr,n") (codes "nodeaddr") conf
    ∷ string_flag (codes "dc") (codes "dc") conf
    ∷ ret (flag (codes "callback") (string_value []))
    ∷ ret debug_flag
    ∷ ret config_flag
    ∷ ret (flag (codes "nodeid") (string_value []))
    ∷ [])

unfoldable pub init_flags : List Flag
init_flags = debug_flag ∷ config_flag ∷ []

unfoldable pub init_flags_for_test_of_make_conn : List Flag
init_flags_for_test_of_make_conn =
    flag (codes "total,t") (int_value (pos 1024))
    ∷ flag (codes "laddr,l") (string_value [])
    ∷ flag (codes "raddr,a") (string_value (codes "localhost:4222"))
    ∷ flag (codes "heartbeat,b") (int_value (pos 50))
    ∷ flag (codes "messagesize,ms") (int_value (pos 0))
    ∷ flag (codes "messagegap,mg") (int_value (pos 5))
    ∷ []

-- What the command line gives for a flag.
pub record Given : Type 0 where
  pub int_of : Bytes → Option ℤ
  pub string_of : Bytes → Option Bytes

unfoldable pub named : Bytes → List Bytes → Bool
named k [] = false
named k (n ∷ ns) = if bytes_eq n k then true else named k ns

-- The flag that has this name.
unfoldable pub find_flag : Bytes → List Flag → Option Flag
unfolding named
find_flag k [] = none
find_flag k (f ∷ fs) = if named k (split b',' f.name) then some f else find_flag k fs

abbrev pub or_else : {A : Type 0} → Option A → A → A
or_else (some a) b = a
or_else none b = b

abbrev int_of_flag : Given → Bytes → Value → ℤ
int_of_flag given name (int_value i) = or_else (given.int_of name) i
int_of_flag given name (string_value s) = pos 0
int_of_flag given name (bool_value b) = pos 0

abbrev string_of_flag : Given → Bytes → Value → Bytes
string_of_flag given name (int_value i) = []
string_of_flag given name (string_value s) = or_else (given.string_of name) s
string_of_flag given name (bool_value b) = []

-- `ctx.Int` and `ctx.String`: zero and empty where no flag of that type has the name.
unfoldable pub int : Given → List Flag → Bytes → ℤ
unfolding find_flag
int given flags k = elim (find_flag k flags) [
  | some f ↦ int_of_flag given f.name f.value
  | none ↦ pos 0
]

unfoldable pub string : Given → List Flag → Bytes → Bytes
unfolding find_flag
string given flags k = elim (find_flag k flags) [
  | some f ↦ string_of_flag given f.name f.value
  | none ↦ []
]

-- What benchmark/ is called with.
pub record MakeConn : Type 0 where
  pub laddr : Bytes
  pub addr : Bytes
  pub total : ℤ
  pub heartbeat : ℤ
  pub message_gap : ℤ
  pub message_size : ℤ

-- main.go.
unfoldable pub makeconn_for_test : Given → List Flag → MakeConn
unfolding int string
makeconn_for_test given flags = record {
  laddr = string given flags (codes "laddr");
  addr = string given flags (codes "raddr");
  total = int given flags (codes "total");
  heartbeat = int given flags (codes "heartbeat");
  message_gap = int given flags (codes "messagegap");
  message_size = int given flags (codes "messagesize");
}
