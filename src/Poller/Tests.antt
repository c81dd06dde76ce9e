-- ===== src/Poller/Tests.antt =====
-- A thread that watches the descriptors 5 and 6.
use gemini_nos.Base.{◌+◌, ◌≡◌, refl, arith, true, none, some, nos_ok, ◌==◌, if◌then◌else◌}
use gemini_nos.Base.Scan.{scan}
use gemini_nos.Poller.{Poller, add_fd_ex, remove_fd, dispatched}
use gemini_nos.Poller.Routing.{IsRouted, remove_fd_misroutes}

abbrev two : Poller
two = record {
  fd_entries = λ i. record { fd = i + 5; callback = i; arg = 0 };
  fd_count = 2;
  watched = λ fd. if fd == 5 then some 0 else if fd == 6 then some 1 else none;
}

two-IsRouted : IsRouted two
two-IsRouted = record { slots = λ i h. ground arith; few = omega arith }

remove_fd_example :
    (p1 p2 : Poller) × (remove_fd (some two) 5 ≡ (nos_ok, some p1))
    × (add_fd_ex (some p1) 9 3 0 true ≡ (nos_ok, some p2))
    × (dispatched p2 6 ≡ some (record { fd = 9; callback = 3; arg = 0 }))
unfolding scan
remove_fd_example =
    remove_fd_misroutes two 5 6 9 3 0 two-IsRouted refl refl (omega arith) (omega arith)
      (omega arith)
