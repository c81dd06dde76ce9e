-- ===== src/Cli.antt =====
-- The command line of a node (src/core/nos_cli.c): the history, the table of commands, the search for
-- the command of a line, and what the commands do. A line is the list of its bytes before the `'\0'`.
-- What a command prints is not modelled.
pub mod Recent
pub mod Dispatch
pub mod Run
pub mod Edit
mod Tests
use Prim.Native.Char.{code}
use Prim.Native.String.{String}
use gemini_nos.Base.{
  ℕ, ◌+◌, ◌-◌, Bool, true, false, ◌&&◌, Option, none, some, ltb, leb, ◌==◌, if◌then◌else◌, List, [],
  ◌∷◌,
}

abbrev pub Line : Type 0
Line = List ℕ

abbrev pub bytes : String → Line
bytes String.[] = []
bytes (String.◌∷◌ c s) = code c ∷ bytes s

-- `strcmp(a, b) == 0`
pub same_line : Line → Line → Bool
same_line [] [] = true
same_line (x ∷ xs) (y ∷ ys) = (x == y) && same_line xs ys
same_line _ _ = false

-- `g_history` and `g_history_count`
pub record History : Type 0 where
  pub line : ℕ → Line
  pub count : ℕ

abbrev pub max_history : ℕ
max_history = 3

-- `history_add`, for a line that fits in an entry, as every line of `node_cli_thread_entry` does. The
-- loop moves each entry up by one.
pub history_add : Line → History → History
unfolding same_line
history_add [] h = h
history_add (c ∷ cmd) h = if ltb 0 h.count && same_line (h.line 0) (c ∷ cmd) then h else record {
  line = λ i. if i == 0 then c ∷ cmd else if ltb i max_history then h.line (i - 1) else h.line i;
  count = if ltb h.count max_history then h.count + 1 else h.count;
}

-- The commands, by their handlers
pub data Command : Type 0 where
  do_help do_show_components do_show_services do_show_db do_show_memory do_show_ipc do_clear_ipc :
      Command
  do_log do_perf_start do_perf_remote_start do_load do_unload do_reload do_quit : Command

-- The names in `g_cli_cmds`
abbrev pub name_of : Command → Line
name_of do_help = bytes "help"
name_of do_show_components = bytes "show components"
name_of do_show_services = bytes "show services"
name_of do_show_db = bytes "show db"
name_of do_show_memory = bytes "show memory"
name_of do_show_ipc = bytes "show ipc"
name_of do_clear_ipc = bytes "clear ipc"
name_of do_log = bytes "log"
name_of do_perf_start = bytes "perf start"
name_of do_perf_remote_start = bytes "perf remote"
name_of do_load = bytes "load"
name_of do_unload = bytes "unload"
name_of do_reload = bytes "reload"
name_of do_quit = bytes "quit"

-- `g_cli_cmds`, in its order
abbrev pub cli_cmds : List Command
cli_cmds =
    do_help ∷ do_show_components ∷ do_show_services ∷ do_show_db ∷ do_show_memory ∷ do_show_ipc
    ∷ do_clear_ipc ∷ do_log ∷ do_perf_start ∷ do_perf_remote_start ∷ do_load ∷ do_unload ∷ do_reload
    ∷ do_quit ∷ []

-- `buf + strlen(name)`, if `strncmp(buf, name, strlen(name)) == 0`.
pub after : Line → Line → Option Line
after [] buf = some buf
after (x ∷ name) [] = none
after (x ∷ name) (y ∷ buf) = let rest = after name buf in if x == y then rest else none

-- What follows the name of a command: nothing, or a space and the arguments.
abbrev pub args_in : Option Line → Option (Option Line)
args_in none = none
args_in (some []) = some none
args_in (some (c ∷ args)) = if c == 32 then some (some args) else none

-- The loop of `node_cli_thread_entry` over the commands: the command of a line, and the arguments that
-- its handler is called with.
pub dispatch : List Command → Line → Option (Command × Option Line)
unfolding after
dispatch [] buf = none
dispatch (c ∷ cmds) buf =
    let rest = dispatch cmds buf in
    elim (args_in (after (name_of c) buf)) [ none ↦ rest | some args ↦ some (c, args) ]
