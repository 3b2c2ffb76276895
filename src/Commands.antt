-- ===== src/Commands.antt =====
-- main.go, what stands around the server: its process id in a file, the commands that send signals
-- to it, the handling of signals, the profiles of the flag "debug", and the command that writes a
-- configuration file. The operating system is the record `Host`.
pub mod Pid
pub mod Signals
pub mod Setup
pub mod App
mod Tests
use sara.Common.{
  ℕ, ◌≡◌, Bool, true, false, not, List, [], ◌∷◌, ◌++◌, Option, none, some, if◌then◌else◌, Bytes,
  codes, ℤ, decimal, atoi, lookup, insert, Result, ok, err, Outcome, ret, panic, Exec, pure, fault,
  ◌>>=◌, ◌>>◌, modify,
}

pub data Signal : Type 0 where
  sigint sigusr1 sigtstp : Signal
  other : ℕ → Signal

abbrev pub cpu_log : Bytes
cpu_log = codes "/tmp/sara_cpu.out"

abbrev pub mem_log : Bytes
mem_log = codes "/tmp/sara_mem.out"

abbrev pub blk_log : Bytes
blk_log = codes "/tmp/sara_blk.out"

abbrev pub pidf : Bytes
pidf = codes "/tmp/sara.pid"

-- `create_error` and `write_error` are the errors of `os.Create` and `ioutil.WriteFile` on a path,
-- `find_error` and `signal_error` those of `os.FindProcess` and `Signal`, and `profile` is what a
-- profile writes into its file.
pub record Host : Type 0 where
  pub create_error : Bytes → Option Bytes
  pub write_error : Bytes → Option Bytes
  pub find_error : ℤ → Option Bytes
  pub signal_error : ℤ → Signal → Option Bytes
  pub profile : Bytes → Bytes

-- The files, the signals that were sent, and the state of the profiler.
pub record System : Type 0 where
  pub files : List (Bytes × Bytes)
  pub signals : List (ℤ × Signal)
  pub profiling : Bool
  pub mem_rate : ℕ
  pub block_rate : ℕ

-- The process of a server. `node` says whether `currentnode` is set, `stopping` whether `Wait` has
-- been told to stop.
pub record Server : Type 0 where
  pub system : System
  pub node : Bool
  pub stopping : Bool

unfoldable pub read_file : Bytes → System → Result Bytes
read_file path s = elim (lookup path s.files) [
  | some text ↦ ok text
  | none ↦ err (codes "no such file or directory")
]

unfoldable pub write_text : Bytes → Bytes → System → System
write_text path text s = record s { files = insert path text s.files }

module _ (h : Host) where
  -- `os.FindProcess`, then `p.Signal`.
  unfoldable pub send_signal : ℤ → Signal → System → Result (Unit {0}) × System
  send_signal pid sig s = elim (h.find_error pid) [
    | some e ↦ (err e, s)
    | none ↦ elim (h.signal_error pid sig) [
      | some e ↦ (err e, s)
      | none ↦ (ok tt, record s { signals = s.signals ++ (pid, sig) ∷ [] })
    ]
  ]

  -- Without the file it sends nothing, and returns no error.
  unfoldable pub stop : System → Result (Unit {0}) × System
  unfolding send_signal read_file
  stop s = elim (read_file pidf s) [
    | err e ↦ (ok tt, s)
    | ok text ↦ send_signal (atoi text) sigint s
  ]

  unfoldable pub pprof_for_debug : System → Result (Unit {0}) × System
  unfolding send_signal read_file
  pprof_for_debug s = elim (read_file pidf s) [
    | err e ↦ (err e, s)
    | ok text ↦ send_signal (atoi text) sigusr1 s
  ]

  unfoldable pub save_pid : ℕ → System → System
  unfolding write_text
  save_pid pid s = elim (h.create_error pidf) [
    | some e ↦ s
    | none ↦ write_text pidf (decimal pid) s
  ]

  -- The error of `os.Create` is dropped; a second start of the profile fails.
  unfoldable pub start_cpu_profiles : System → System
  unfolding write_text
  start_cpu_profiles s =
      let made : System = elim (h.create_error cpu_log) [
        | some e ↦ s
        | none ↦ write_text cpu_log [] s
      ] in
      record made { profiling = true }

  unfoldable pub start_mem_profiles : System → System
  start_mem_profiles s = record s { mem_rate = 1024 }

  unfoldable pub start_block_profile : System → System
  start_block_profile s = record s { block_rate = 1 }

  -- `app.Before`.
  unfoldable pub before : Bool → System → System
  unfolding start_cpu_profiles start_mem_profiles start_block_profile
  before debug s =
      if debug then start_block_profile (start_mem_profiles (start_cpu_profiles s)) else s

  unfoldable pub on_system : (System → System) → Exec Server (Unit {0})
  on_system f v = (ret tt, record v { system = f v.system })

  unfoldable pub stop_cpu_profiles : Exec Server (Unit {0})
  stop_cpu_profiles = on_system λ s. record s { profiling = false }

  unfoldable pub stop_mem_profiles : Exec Server (Unit {0})
  unfolding write_text
  stop_mem_profiles = elim (h.create_error mem_log) [
    | some e ↦ pure tt
    | none ↦ on_system (write_text mem_log (h.profile mem_log))
  ]

  -- Where the file cannot be created, the profile cannot be written to nil, and printing `*f` panics.
  unfoldable pub stop_block_profile : Exec Server (Unit {0})
  unfolding write_text
  stop_block_profile = elim (h.create_error blk_log) [
    | some e ↦ fault
    | none ↦ on_system (write_text blk_log (h.profile blk_log))
  ]

  -- `currentnode.Stop()`: `Wait` receives once, so a second send blocks, which is `false`.
  unfoldable pub stop_node : Exec Server Bool
  stop_node v =
      if not v.node
      then (panic, v)
      else if v.stopping
      then (ret false, v)
      else (ret true, record v { stopping = true })

  -- A round of the loop; `false` is a round that does not end.
  unfoldable pub handle_signal : Bool → Signal → Exec Server Bool
  handle_signal debug sigint = stop_node
  handle_signal debug sigusr1 =
      if debug
      then (do stop_cpu_profiles; stop_mem_profiles; stop_block_profile; pure true)
      else pure true
  handle_signal debug sigtstp = pure true
  handle_signal debug (other n) = pure true

  -- The loop over the signals that arrive.
  unfoldable pub signal_handler : Bool → List Signal → Exec Server (Unit {0})
  signal_handler debug [] = pure tt
  signal_handler debug (sig ∷ sigs) = do
    on ← handle_signal debug sig
    if on then signal_handler debug sigs else pure tt
