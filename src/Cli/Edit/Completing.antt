-- ===== src/Cli/Edit/Completing.antt =====
-- What the completion of a first word leads to.
use gemini_nos.Base.{
  ℕ, ◌≡◌, refl, sym, ap, ◌∙◌, arith, Bool-cases, Option-cases, none, some, inl, inr, List, [], ◌∷◌,
  ◌++◌, map, if◌then◌else◌, ◌==◌, ==_iff, zero, suc,
}
use gemini_nos.Cli.{Line, Command, name_of, cli_cmds, after, dispatch}
use gemini_nos.Cli
use gemini_nos.Cli.Dispatch.{after-eq, reaches_bare}
use gemini_nos.Cli.Edit.{endings, suggestions, complete}

-- The place of a command in `g_cli_cmds`, and the command of a place.
rank : Command → ℕ
rank Cli.do_help = 0
rank Cli.do_show_components = 1
rank Cli.do_show_services = 2
rank Cli.do_show_db = 3
rank Cli.do_show_memory = 4
rank Cli.do_show_ipc = 5
rank Cli.do_clear_ipc = 6
rank Cli.do_log = 7
rank Cli.do_perf_start = 8
rank Cli.do_perf_remote_start = 9
rank Cli.do_load = 10
rank Cli.do_unload = 11
rank Cli.do_reload = 12
rank Cli.do_quit = 13

nth : List Command → ℕ → Command
nth [] n = Cli.do_quit
nth (c ∷ cmds) zero = c
nth (c ∷ cmds) (suc n) = nth cmds n

nth-rank : (c : Command) → nth cli_cmds (rank c) ≡ c
unfolding nth rank
nth-rank Cli.do_help = refl
nth-rank Cli.do_show_components = refl
nth-rank Cli.do_show_services = refl
nth-rank Cli.do_show_db = refl
nth-rank Cli.do_show_memory = refl
nth-rank Cli.do_show_ipc = refl
nth-rank Cli.do_clear_ipc = refl
nth-rank Cli.do_log = refl
nth-rank Cli.do_perf_start = refl
nth-rank Cli.do_perf_remote_start = refl
nth-rank Cli.do_load = refl
nth-rank Cli.do_unload = refl
nth-rank Cli.do_reload = refl
nth-rank Cli.do_quit = refl

-- `s` for every occurrence of a command.
only : Command → Line → List Command → List Line
unfolding rank
only c s [] = []
only c s (d ∷ cmds) = let rest = only c s cmds in if rank d == rank c then s ∷ rest else rest

once : (c : Command) (s : Line) → only c s cli_cmds ≡ s ∷ []
unfolding only
once Cli.do_help s = refl
once Cli.do_show_components s = refl
once Cli.do_show_services s = refl
once Cli.do_show_db s = refl
once Cli.do_show_memory s = refl
once Cli.do_show_ipc s = refl
once Cli.do_clear_ipc s = refl
once Cli.do_log s = refl
once Cli.do_perf_start s = refl
once Cli.do_perf_remote_start s = refl
once Cli.do_load s = refl
once Cli.do_unload s = refl
once Cli.do_reload s = refl
once Cli.do_quit s = refl

after-append : (text s : Line) → after text (text ++ s) ≡ some s
unfolding after
after-append [] s = refl
after-append (x ∷ text) s = rw ((==_iff x x).1 refl) (after-append text s)

module _ (text s : Line) (c : Command) (begins : name_of c ≡ text ++ s)
    (alone : (d : Command) (t : Line) → name_of d ≡ text ++ t → d ≡ c) where
  endings-only : (cmds : List Command) → endings text (map name_of cmds) ≡ only c s cmds
  unfolding endings only
  endings-only [] = refl
  endings-only (d ∷ cmds) = elim (Bool-cases (rank d == rank c)) [
    | inl same ↦
        let e : d ≡ c = sym (nth-rank d) ∙ ap (nth cli_cmds) ((==_iff _ _).0 same) ∙ nth-rank c in
        let hit : after text (name_of d) ≡ some s =
          ap (λ k. after text (name_of k)) e ∙ ap (after text) begins ∙ after-append text s in
        rw (hit, endings, same) (ap (◌∷◌ s) (endings-only cmds))
    | inr other ↦ elim (Option-cases (after text (name_of d))) [
      | inl miss ↦ rw (miss, endings, other) (endings-only cmds)
      | inr (t, hit) ↦
          let e = alone d t (after-eq text (name_of d) t hit) in
          absurd (ground (arith, other, (==_iff (rank d) (rank c)).1 (ap rank e)))
    ]
  ]

  -- Where a text begins the name of one command and of no other, its completion is the name of that
  -- command, and the line that it is runs that command without arguments.
  pub complete_lem :
      (loaded : List Line)
      → (complete loaded text ≡ name_of c)
        × (dispatch cli_cmds (complete loaded text) ≡ some (c, none))
  unfolding complete suggestions
  complete_lem loaded = (done, ap (dispatch cli_cmds) done ∙ reaches_bare c)
    where
      done : complete loaded text ≡ name_of c
      done = rw (endings-only cli_cmds ∙ once c s, suggestions, complete) (sym begins)
