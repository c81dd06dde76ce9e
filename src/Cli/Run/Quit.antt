-- ===== src/Cli/Run/Quit.antt =====
-- What ends the command line.
use gemini_nos.Base.{
  ℕ, ◌≡◌, ◌≢◌, ◌↔◌, inl, inr, refl, sym, ◌∙◌, subst, arith, Bool, true, false, Option, Option-cases,
  none, some, List, [], ◌∷◌, if◌then◌else◌,
}
use gemini_nos.Node.{Library}
use gemini_nos.Cli.{Line, bytes, after, history_add, Command, cli_cmds, dispatch}
use gemini_nos.Cli
use gemini_nos.Cli.Dispatch.{line_for, dispatch_iff}
use gemini_nos.Cli.Run.{Console, Reader, send_request, log_level, log_command, handler, enter}

is_quit : Command → Bool
is_quit Cli.do_quit = true
is_quit _ = false

is_quit-eq : (cmd : Command) → is_quit cmd ≡ true → cmd ≡ Cli.do_quit
unfolding is_quit
is_quit-eq Cli.do_help e = absurd (cc)
is_quit-eq Cli.do_show_components e = absurd (cc)
is_quit-eq Cli.do_show_services e = absurd (cc)
is_quit-eq Cli.do_show_db e = absurd (cc)
is_quit-eq Cli.do_show_memory e = absurd (cc)
is_quit-eq Cli.do_show_ipc e = absurd (cc)
is_quit-eq Cli.do_clear_ipc e = absurd (cc)
is_quit-eq Cli.do_log e = absurd (cc)
is_quit-eq Cli.do_perf_start e = absurd (cc)
is_quit-eq Cli.do_perf_remote_start e = absurd (cc)
is_quit-eq Cli.do_load e = absurd (cc)
is_quit-eq Cli.do_unload e = absurd (cc)
is_quit-eq Cli.do_reload e = absurd (cc)
is_quit-eq Cli.do_quit e = refl

send_request-running :
    (b : Bool) (dst code : ℕ) (payload : List ℕ) (c : Console)
    → (send_request b dst code payload c).keep_running ≡ c.keep_running
unfolding send_request
send_request-running true dst code payload c = refl
send_request-running false dst code payload c = refl

log_level-running :
    (r : Reader) (b : Bool) (words : List Line) (c : Console)
    → (log_level r b words c).keep_running ≡ c.keep_running
unfolding log_level
log_level-running r true [] c = refl
log_level-running r false [] c = refl
log_level-running r true (a ∷ []) c = refl
log_level-running r false (a ∷ []) c = refl
log_level-running r true (a ∷ b ∷ []) c = refl
log_level-running r false (a ∷ b ∷ []) c = refl
log_level-running r true (a ∷ b ∷ d ∷ words) c = refl
log_level-running r false (a ∷ b ∷ d ∷ words) c = refl

log_command-running :
    (r : Reader) (found b : Bool) (args : Option Line) (c : Console)
    → (log_command r found b args c).keep_running ≡ c.keep_running
unfolding log_command
log_command-running r found b none c = refl
log_command-running r found b (some args) c = elim (Option-cases (after (bytes "stats") args)) [
  | inr (rest, hit) ↦ rw (hit, log_command) refl
  | inl miss ↦ elim (Option-cases (after (bytes "spam") args)) [
    | inr (rest, hit) ↦ rw (miss, hit, log_command) (send_request-running b 110 3002 _ c)
    | inl miss2 ↦ elim (Option-cases (after (bytes "level") args)) [
      | inr (rest, hit) ↦ rw (miss, miss2, hit, log_command) (log_level-running r found _ c)
      | inl miss3 ↦ rw (miss, miss2, miss3, log_command) refl
    ]
  ]
]

module _ (r : Reader) (lib : Library) (found has_buffer : Bool) where
  handler-running :
      (cmd : Command) (args : Option Line) (c : Console)
      → (handler r lib found has_buffer cmd args c).keep_running
        ≡ (if is_quit cmd then false else c.keep_running)
  unfolding handler is_quit
  handler-running Cli.do_help args c = refl
  handler-running Cli.do_show_components args c = refl
  handler-running Cli.do_show_services args c = refl
  handler-running Cli.do_show_db args c = refl
  handler-running Cli.do_show_memory args c = refl
  handler-running Cli.do_show_ipc args c = refl
  handler-running Cli.do_clear_ipc args c = refl
  handler-running Cli.do_log args c = log_command-running r found has_buffer args c
  handler-running Cli.do_perf_start args c = send_request-running has_buffer 111 3001 _ c
  handler-running Cli.do_perf_remote_start args c = send_request-running has_buffer 113 3001 _ c
  handler-running Cli.do_load none c = refl
  handler-running Cli.do_load (some name) c = refl
  handler-running Cli.do_unload none c = refl
  handler-running Cli.do_unload (some name) c = refl
  handler-running Cli.do_reload none c = refl
  handler-running Cli.do_reload (some name) c = refl
  handler-running Cli.do_quit args c = refl

  unknown :
      (x : ℕ) (buf : Line) (c : Console)
      → dispatch cli_cmds (x ∷ buf) ≡ none
      → (enter r lib found has_buffer (x ∷ buf) c).keep_running ≡ c.keep_running
  unfolding enter
  unknown x buf c e = rw (e, enter) refl

  known :
      (x : ℕ) (buf : Line) (c : Console) (cmd : Command) (args : Option Line)
      → dispatch cli_cmds (x ∷ buf) ≡ some (cmd, args)
      → (enter r lib found has_buffer (x ∷ buf) c).keep_running
        ≡ (if is_quit cmd then false else c.keep_running)
  unfolding enter
  known x buf c cmd args e = rw (e, enter) (handler-running cmd args _)

  blank : (c : Console) → (enter r lib found has_buffer [] c).keep_running ≡ c.keep_running
  unfolding enter
  blank c = refl

  not_blank : (a : Option Line) → [] ≢ line_for Cli.do_quit a
  not_blank none e = absurd (cc)
  not_blank (some args) e = absurd (cc)

  -- The console of a running node ends with a line exactly if the line is `quit`, alone or followed
  -- by a space and anything.
  pub quit_iff :
      (buf : Line) (c : Console)
      → c.keep_running ≡ true
      → ((enter r lib found has_buffer buf c).keep_running ≡ false)
        ↔ ((a : Option Line) × (buf ≡ line_for Cli.do_quit a))
  unfolding is_quit
  quit_iff [] c on = (λ e. absurd (cc (e, blank c)), λ (a, e). absurd (not_blank a e))
  quit_iff (x ∷ buf) c on = elim (Option-cases (dispatch cli_cmds (x ∷ buf))) [
    | inl miss ↦ (
      λ e. absurd (cc (e, unknown x buf c miss)),
      λ (a, e). absurd (cc (miss, (dispatch_iff (x ∷ buf) Cli.do_quit a).1 e)),
    )
    | inr ((cmd, args), hit) ↦ (
      λ e.
          let quits : is_quit cmd ≡ true = ground (arith, known x buf c cmd args hit, e, on) in
          let same : cmd ≡ Cli.do_quit = is_quit-eq cmd quits in
          (
            args,
            subst (λ d. x ∷ buf ≡ line_for d args) same ((dispatch_iff (x ∷ buf) cmd args).0 hit),
          ),
      λ (a, e).
          let h : some (cmd, args) ≡ some (Cli.do_quit, a) =
            sym hit ∙ (dispatch_iff (x ∷ buf) Cli.do_quit a).1 e in
          let same : cmd ≡ Cli.do_quit = cc (h) in known x buf c cmd args hit ∙ rw same (refl),
    )
  ]
