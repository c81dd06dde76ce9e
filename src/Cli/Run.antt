-- ===== src/Cli/Run.antt =====
-- What the commands do, and the round of `node_cli_thread_entry` for a line.
pub mod Quit
use gemini_nos.Base.{
  ℕ, zero, suc, ◌+◌, ◌-◌, Bool, true, false, ◌&&◌, Option, none, some, ltb, leb, ◌==◌,
  if◌then◌else◌, Status, List, [], ◌∷◌, map,
}
use gemini_nos.Cli.{
  Line, bytes, same_line, after, History, history_add, Command, do_help, do_show_components,
  do_show_services, do_show_db, do_show_memory, do_show_ipc, do_clear_ipc, do_log, do_perf_start,
  do_perf_remote_start, do_load, do_unload, do_reload, do_quit, cli_cmds, dispatch,
}
use gemini_nos.Log.{Log, set_level, set_comp_level}
use gemini_nos.Node.{Node, Library, reload_component, unload_component}
use gemini_nos.Ipc.{Stats, stats_clear}

-- What the commands use of the C library: `atoi`, and what `sscanf` reads with `%s %s` and with
-- `%u %u`. The name of a component is its number under `intern`.
pub record Reader : Type 0 where
  pub atoi : Line → ℕ
  pub words : Line → List Line
  pub numbers : Line → List ℕ
  pub intern : Line → ℕ

-- A message that a command sends to a service of this node.
pub record Request : Type 0 where
  pub dst_service : ℕ
  pub msg_code : ℕ
  pub payload : List ℕ

-- What the commands change. `keep_running` is the field of `g_node_ctx`; `requests` are the messages
-- sent, the newest first.
pub record Console : Type 0 where
  pub node : Node
  pub stats : Stats
  pub keep_running : Bool
  pub history : History
  pub requests : List Request

-- `tolower`
abbrev pub to_lower : ℕ → ℕ
to_lower c = if leb 65 c && leb c 90 then c + 32 else c

-- `strcasecmp(a, b) == 0` for a `b` in lower case
abbrev pub same_word : Line → Line → Bool
same_word a b = same_line (map to_lower a) b

-- `str_to_level`, with the numbers of `nos_log_level_t`
pub str_to_level : Line → ℕ
unfolding same_line
str_to_level str =
    if same_word str (bytes "debug")
    then 0
    else if same_word str (bytes "info")
    then 1
    else if same_word str (bytes "warn")
    then 2
    else if same_word str (bytes "error")
    then 3
    else 1

-- A message of the console, if the pool has a buffer for it.
pub send_request : Bool → ℕ → ℕ → List ℕ → Console → Console
send_request has_buffer dst code payload c =
    let r : Request = record { dst_service = dst; msg_code = code; payload = payload } in
    if has_buffer then record c { requests = r ∷ c.requests } else c

abbrev set_log : Log → Console → Console
set_log g c = record c { node = record (c.node) { log = g } }

-- The branch of `do_log` for a level: of the whole log by one word, of a component by two.
pub log_level : Reader → Bool → List Line → Console → Console
unfolding str_to_level
log_level r found (level ∷ []) c =
    if found then set_log (set_level c.node.log (str_to_level level) 0) c else c
log_level r found (id ∷ level ∷ []) c =
    if found then set_log (set_comp_level c.node.log (r.atoi id) (str_to_level level) 0) c else c
log_level r found words c = c

abbrev tail_of : Line → Line
tail_of [] = []
tail_of (x ∷ l) = l

-- The number of messages of `log spam`
abbrev spam_count : Reader → Line → ℕ
spam_count r [] = 2000
spam_count r (x ∷ l) = r.atoi l

-- `do_log`. `found` says whether the log service is there. Behind `level`, the byte after the space is
-- read; where the line ends before it, nothing is.
pub log_command : Reader → Bool → Bool → Option Line → Console → Console
unfolding after send_request log_level
log_command r found has_buffer none c = c
log_command r found has_buffer (some args) c = elim (after (bytes "stats") args) [
  | some rest ↦ c
  | none ↦ elim (after (bytes "spam") args) [
    | some rest ↦ send_request has_buffer 110 3002 (spam_count r rest ∷ []) c
    | none ↦ elim (after (bytes "level") args) [
      | some rest ↦ log_level r found (r.words (tail_of rest)) c
      | none ↦ c
    ]
  ]
]

-- `if (count == 0) count = 10000`
abbrev or_default : ℕ → ℕ
or_default n = if n == 0 then 10000 else n

abbrev perf_count : Reader → Option Line → ℕ
perf_count r none = 10000
perf_count r (some args) = or_default (r.atoi args)

-- The numbers read, over the defaults.
abbrev remote_args : List ℕ → List ℕ
remote_args [] = 10000 ∷ 0 ∷ []
remote_args (count ∷ []) = or_default count ∷ 0 ∷ []
remote_args (count ∷ size ∷ more) = or_default count ∷ size ∷ []

abbrev numbers_of : Reader → Option Line → List ℕ
numbers_of r none = []
numbers_of r (some args) = r.numbers args

module _ (r : Reader) (lib : Library) (found has_buffer : Bool) where
  -- `node_reload_component` or `node_unload_component` of the name in the arguments
  abbrev reload : Option Line → Console → Console
  reload none c = c
  reload (some name) c = record c { node = (reload_component lib (r.intern name) c.node).1 }

  abbrev unload : Option Line → Console → Console
  unload none c = c
  unload (some name) c = record c { node = (unload_component (r.intern name) c.node).1 }

  -- The handler of a command
  pub handler : Command → Option Line → Console → Console
  unfolding log_command send_request
  handler do_help args c = c
  handler do_show_components args c = c
  handler do_show_services args c = c
  handler do_show_db args c = c
  handler do_show_memory args c = c
  handler do_show_ipc args c = c
  handler do_clear_ipc args c = record c { stats = stats_clear c.stats }
  handler do_log args c = log_command r found has_buffer args c
  handler do_perf_start args c = send_request has_buffer 111 3001 (perf_count r args ∷ []) c
  handler do_perf_remote_start args c =
      send_request has_buffer 113 3001 (remote_args (numbers_of r args)) c
  handler do_load args c = reload args c
  handler do_unload args c = unload args c
  handler do_reload args c = reload args c
  handler do_quit args c = record c { keep_running = false }

  -- A round of `node_cli_thread_entry` for the line `buf`
  pub enter : Line → Console → Console
  unfolding handler dispatch
  enter [] c = c
  enter (x ∷ buf) c =
      let c' = record c { history = history_add (x ∷ buf) c.history } in
      elim (dispatch cli_cmds (x ∷ buf)) [ none ↦ c' | some (cmd, args) ↦ handler cmd args c' ]
