-- ===== src/Cli/Dispatch.antt =====
-- Which lines reach which command.
use gemini_nos.Base.{
  ◌≡◌, ◌↔◌, refl, sym, ap, ◌∙◌, arith, Option, none, some, ◌==◌, List, [], ◌∷◌, ◌++◌, ==_iff,
  Bool-cases, inl, inr, ap₂, Option-cases, subst,
}
use gemini_nos.Cli.{Line, Command, name_of, cli_cmds, after, args_in, dispatch}
use gemini_nos.Cli

-- The line that asks for a command: its name, and a space and the arguments if there are some.
abbrev pub line_for : Command → Option Line → Line
line_for c none = name_of c
line_for c (some args) = name_of c ++ 32 ∷ args

reaches :
    (c : Command) (args : Line) → dispatch cli_cmds (line_for c (some args)) ≡ some (c, some args)
unfolding dispatch after
reaches Cli.do_help args = refl
reaches Cli.do_show_components args = refl
reaches Cli.do_show_services args = refl
reaches Cli.do_show_db args = refl
reaches Cli.do_show_memory args = refl
reaches Cli.do_show_ipc args = refl
reaches Cli.do_clear_ipc args = refl
reaches Cli.do_log args = refl
reaches Cli.do_perf_start args = refl
reaches Cli.do_perf_remote_start args = refl
reaches Cli.do_load args = refl
reaches Cli.do_unload args = refl
reaches Cli.do_reload args = refl
reaches Cli.do_quit args = refl

pub reaches_bare : (c : Command) → dispatch cli_cmds (line_for c none) ≡ some (c, none)
unfolding dispatch after
reaches_bare Cli.do_help = refl
reaches_bare Cli.do_show_components = refl
reaches_bare Cli.do_show_services = refl
reaches_bare Cli.do_show_db = refl
reaches_bare Cli.do_show_memory = refl
reaches_bare Cli.do_show_ipc = refl
reaches_bare Cli.do_clear_ipc = refl
reaches_bare Cli.do_log = refl
reaches_bare Cli.do_perf_start = refl
reaches_bare Cli.do_perf_remote_start = refl
reaches_bare Cli.do_load = refl
reaches_bare Cli.do_unload = refl
reaches_bare Cli.do_reload = refl
reaches_bare Cli.do_quit = refl

pub after-eq : (name buf rest : Line) → after name buf ≡ some rest → buf ≡ name ++ rest
unfolding after
after-eq [] buf rest e = cc
after-eq (x ∷ name) [] rest e = absurd (cc)
after-eq (x ∷ name) (y ∷ buf) rest e = elim (Bool-cases (x == y)) [
  | inl same ↦
      let h : after name buf ≡ some rest = ground (arith, e) in
      ap₂ ◌∷◌ (sym ((==_iff x y).0 same)) (after-eq name buf rest h)
  | inr other ↦ absurd (ground (arith, e))
]

append_nil : (l : Line) → l ++ [] ≡ l
append_nil [] = refl
append_nil (x ∷ l) = ap (◌∷◌ x) (append_nil l)

-- A line whose command is found by its arguments is the line for them.
args_in-eq :
    (c : Command) (buf : Line) (o : Option Line) (a : Option Line)
    → after (name_of c) buf ≡ o
    → args_in o ≡ some a
    → buf ≡ line_for c a
args_in-eq c buf none a f e = absurd (cc)
args_in-eq c buf (some []) a f e =
    let bare : none ≡ a = cc in
    subst (λ a. buf ≡ line_for c a) bare (after-eq (name_of c) buf [] f ∙ append_nil (name_of c))
args_in-eq c buf (some (x ∷ args)) a f e = elim (Bool-cases (x == 32)) [
  | inl space ↦
      let same : some args ≡ a = ground (arith, e) in
      let is_space : x ≡ 32 = (==_iff x 32).0 space in
      subst (λ a. buf ≡ line_for c a) same
        (after-eq (name_of c) buf (x ∷ args) f ∙ ap (λ k. name_of c ++ k ∷ args) is_space)
  | inr other ↦ absurd (ground (arith, e))
]

dispatch-eq :
    (cmds : List Command) (buf : Line) (c : Command) (a : Option Line)
    → dispatch cmds buf ≡ some (c, a)
    → buf ≡ line_for c a
unfolding dispatch
dispatch-eq [] buf c a e = absurd (cc)
dispatch-eq (d ∷ cmds) buf c a e = elim (Option-cases (args_in (after (name_of d) buf))) [
  | inl miss ↦ dispatch-eq cmds buf c a (rw (miss, dispatch) at e)
  | inr (args, hit) ↦
      let h : some (d, args) ≡ some (c, a) = rw (hit, dispatch) at e in
      let same : d ≡ c = cc (h) in
      let given : args ≡ a = cc (h) in
      subst (λ c. buf ≡ line_for c a) same
        (subst (λ a. buf ≡ line_for d a) given (args_in-eq d buf _ args refl hit))
]

-- A line runs a command with given arguments exactly if it is the name of the command, for no
-- arguments, or the name, a space and the arguments. So each command of the table is reached, none
-- is hidden by one before it, and no other line runs anything.
pub dispatch_iff :
    (buf : Line) (c : Command) (a : Option Line)
    → (dispatch cli_cmds buf ≡ some (c, a)) ↔ (buf ≡ line_for c a)
dispatch_iff buf c a = (dispatch-eq cli_cmds buf c a, λ e. ap (dispatch cli_cmds) e ∙ go a)
  where
    go : (a : Option Line) → dispatch cli_cmds (line_for c a) ≡ some (c, a)
    go none = reaches_bare c
    go (some args) = reaches c args
