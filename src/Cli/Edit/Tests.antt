-- ===== src/Cli/Edit/Tests.antt =====
-- The completion of `qu`.
use gemini_nos.Base.{◌≡◌, refl, ap, some, none, [], ◌++◌}
use gemini_nos.Cli.{
  Line, bytes, after, Command, name_of, cli_cmds, dispatch, do_help, do_show_components,
  do_show_services, do_show_db, do_show_memory, do_show_ipc, do_clear_ipc, do_log, do_perf_start,
  do_perf_remote_start, do_load, do_unload, do_reload, do_quit,
}
use gemini_nos.Cli.Edit.{complete}
use gemini_nos.Cli.Edit.Completing.{complete_lem}

clash : {A : Type 0} {t : Line} → none ≡ some t → A
clash e = absurd (cc)

-- Only `quit` begins with `qu`.
alone : (d : Command) (t : Line) → name_of d ≡ bytes "qu" ++ t → d ≡ do_quit
unfolding after
alone do_help t e = clash (ap (after (bytes "qu")) e)
alone do_show_components t e = clash (ap (after (bytes "qu")) e)
alone do_show_services t e = clash (ap (after (bytes "qu")) e)
alone do_show_db t e = clash (ap (after (bytes "qu")) e)
alone do_show_memory t e = clash (ap (after (bytes "qu")) e)
alone do_show_ipc t e = clash (ap (after (bytes "qu")) e)
alone do_clear_ipc t e = clash (ap (after (bytes "qu")) e)
alone do_log t e = clash (ap (after (bytes "qu")) e)
alone do_perf_start t e = clash (ap (after (bytes "qu")) e)
alone do_perf_remote_start t e = clash (ap (after (bytes "qu")) e)
alone do_load t e = clash (ap (after (bytes "qu")) e)
alone do_unload t e = clash (ap (after (bytes "qu")) e)
alone do_reload t e = clash (ap (after (bytes "qu")) e)
alone do_quit t e = refl

complete_example :
    (complete [] (bytes "qu") ≡ name_of do_quit)
    × (dispatch cli_cmds (complete [] (bytes "qu")) ≡ some (do_quit, none))
complete_example = complete_lem (bytes "qu") (bytes "it") do_quit refl alone []
