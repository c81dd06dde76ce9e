-- ===== src/Cli/Tests.antt =====
-- Lines as an operator types them.
use gemini_nos.Base.{
  ◌≡◌, ◌↔◌, ◌∷◌, ◌++◌, ◌==◌, if◌then◌else◌, refl, arith, true, false, Option, some, [],
}
use gemini_nos.Node.Tests.{pair, shut_files}
use gemini_nos.Cli.{Line, bytes, History, history_add, Command, cli_cmds, dispatch}
use gemini_nos.Cli
use gemini_nos.Cli.Dispatch.{line_for, dispatch_iff}
use gemini_nos.Cli.Edit.{get_line}
use gemini_nos.Cli.Edit.Typing.{IsPlain, and_then, none_left, outcome, get_line_lem}
use gemini_nos.Cli.Run.{Console, Reader, enter}
use gemini_nos.Cli.Run.Quit.{quit_iff}

dispatch_example :
    (dispatch cli_cmds (bytes "unload ping") ≡ some (Cli.do_unload, some (bytes "ping")))
    ↔ (bytes "unload ping" ≡ line_for Cli.do_unload (some (bytes "ping")))
dispatch_example = dispatch_iff (bytes "unload ping") Cli.do_unload (some (bytes "ping"))

abbrev two_lines : History
two_lines = record { line = λ i. if i == 0 then bytes "help" else bytes "log stats"; count = 2 }

abbrev reader : Reader
reader = record { atoi = λ l. 0; words = λ l. []; numbers = λ l. []; intern = λ l. 0 }

abbrev console : Console
console = record {
  node = pair;
  stats = record { tx_packets = 0; tx_bytes = 0; tx_errors = 0; dropped_full = 0 };
  keep_running = true;
  history = two_lines;
  requests = [];
}

quit_example :
    ((enter reader shut_files true true (bytes "quit now") console).keep_running ≡ false)
    ↔ ((a : Option Line) × (bytes "quit now" ≡ line_for Cli.do_quit a))
quit_example = quit_iff reader shut_files true true (bytes "quit now") console refl

q-IsPlain : IsPlain b'q'
q-IsPlain = record { no_end = refl; no_escape = refl; no_rub_out = refl; no_tab = refl }

u-IsPlain : IsPlain b'u'
u-IsPlain = record { no_end = refl; no_escape = refl; no_rub_out = refl; no_tab = refl }

i-IsPlain : IsPlain b'i'
i-IsPlain = record { no_end = refl; no_escape = refl; no_rub_out = refl; no_tab = refl }

t-IsPlain : IsPlain b't'
t-IsPlain = record { no_end = refl; no_escape = refl; no_rub_out = refl; no_tab = refl }

get_line_example :
    get_line (bytes "ping" ∷ []) two_lines 256 (bytes "quit" ++ 10 ∷ [])
    ≡ outcome (bytes "ping" ∷ []) two_lines 256 (bytes "quit")
get_line_example =
    get_line_lem (bytes "ping" ∷ []) two_lines 256 (bytes "quit")
      (and_then q-IsPlain (and_then u-IsPlain (and_then i-IsPlain (and_then t-IsPlain none_left))))
      (omega arith)
