-- ===== src/Poller/Routing.antt =====
-- Which callback an event reaches, after descriptors have come and gone.
use gemini_nos.Base.{
  ℕ, ◌+◌, ◌-◌, ◌<◌, ◌≤◌, ◌≡◌, ◌≢◌, refl, sym, ap, ◌∙◌, arith, true, none, some, nos_ok, ◌==◌,
  update, update_self, update_ne,
}
use gemini_nos.Base.Scan.{scan}
use gemini_nos.Poller.{FdEntry, Poller, add_fd_ex, remove_fd, dispatched}

dispatched-watched :
    (p : Poller) (fd i : ℕ) → p.watched fd ≡ some i → dispatched p fd ≡ some (p.fd_entries i)
unfolding dispatched
dispatched-watched p fd i e = rw (e, dispatched)

-- Every entry is watched, with its own slot for the pointer.
pub record IsRouted (p : Poller) : Type 0 where
  pub slots : (i : ℕ) → i < p.fd_count → p.watched (p.fd_entries i).fd ≡ some i
  pub few : p.fd_count ≤ 32

-- A descriptor that `nos_scheduler_add_fd_ex` adds to a routed thread with room, which does not
-- watch it yet, gets its own callback, and the thread stays routed.
pub add_fd-IsRouted :
    (p : Poller) (fd callback arg : ℕ)
    → IsRouted p
    → p.watched fd ≡ none
    → p.fd_count < 32
    → (p' : Poller) × (add_fd_ex (some p) fd callback arg true ≡ (nos_ok, some p'))
      × IsRouted p'
      × (dispatched p' fd ≡ some (record { fd = fd; callback = callback; arg = arg }))
unfolding add_fd_ex dispatched
add_fd-IsRouted p fd callback arg v idle room = (
  grown,
  ground arith,
  record { slots = λ i h. ground (arith, v.slots i); few = omega arith },
  dispatched-watched grown fd p.fd_count (update_self p.watched fd (some p.fd_count))
      ∙ ap some (update_self p.fd_entries p.fd_count added),
)
  where
    added : FdEntry
    added = record { fd = fd; callback = callback; arg = arg }

    grown : Poller
    grown = record {
      fd_entries = update p.fd_entries p.fd_count added;
      fd_count = p.fd_count + 1;
      watched = update p.watched fd (some p.fd_count);
    }

-- On a routed thread with several entries: when the descriptor of the first goes and a new one
-- comes, other than the last one's, an event on the last one's descriptor runs the callback of the
-- new descriptor.
pub remove_fd_misroutes :
    (p : Poller) (a b c callback arg : ℕ)
    → IsRouted p
    → scan (λ i. (p.fd_entries i).fd == a) 0 p.fd_count ≡ some 0
    → (p.fd_entries (p.fd_count - 1)).fd ≡ b
    → 1 < p.fd_count
    → a ≢ b
    → c ≢ b
    → (p1 p2 : Poller) × (remove_fd (some p) a ≡ (nos_ok, some p1))
      × (add_fd_ex (some p1) c callback arg true ≡ (nos_ok, some p2))
      × (dispatched p2 b ≡ some (record { fd = c; callback = callback; arg = arg }))
unfolding remove_fd add_fd_ex dispatched
remove_fd_misroutes p a b c callback arg v found last more ab cb = (
  p1,
  p2,
  rw (found, remove_fd) refl,
  ground (arith, v.few),
  dispatched-watched p2 b (p.fd_count - 1)
        (update_ne p1.watched (some (p.fd_count - 1)) cb ∙ update_ne p.watched none ab ∙ kept)
      ∙ ap some (update_self p1.fd_entries (p.fd_count - 1) added),
)
  where
    added : FdEntry
    added = record { fd = c; callback = callback; arg = arg }

    p1 : Poller
    p1 = record {
      fd_entries = update p.fd_entries 0 (p.fd_entries (p.fd_count - 1));
      fd_count = p.fd_count - 1;
      watched = update p.watched a none;
    }

    p2 : Poller
    p2 = record {
      fd_entries = update p1.fd_entries (p.fd_count - 1) added;
      fd_count = p.fd_count - 1 + 1;
      watched = update p1.watched c (some (p.fd_count - 1));
    }

    kept : p.watched b ≡ some (p.fd_count - 1)
    kept = ap p.watched (sym last) ∙ v.slots (p.fd_count - 1) (omega arith)
