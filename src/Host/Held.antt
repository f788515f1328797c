-- ===== src/Host/Held.antt =====
-- The resources that a trace leaves held: open descriptors, descriptors registered with the task,
-- and resolved address lists.
use natmap.Prelude.{ℕ, List, [], ◌∷◌, ◌==◌, if◌then◌else◌}
use natmap.Prelude.Int.{ℤ, is_neg, eq_ℤ}
use natmap.Host.{
  Event, Trace, resolved, freed, opened, closed, watched, unwatched, accepted, handed,
}

pub record Held : Type 0 where
  pub fds : List ℤ
  pub watches : List ℤ
  pub infos : List ℕ

abbrev pub drop_fd : ℤ → List ℤ → List ℤ
drop_fd fd [] = []
drop_fd fd (x ∷ xs) = if eq_ℤ x fd then xs else x ∷ drop_fd fd xs

abbrev pub drop_info : ℕ → List ℕ → List ℕ
drop_info i [] = []
drop_info i (x ∷ xs) = if x == i then xs else x ∷ drop_info i xs

abbrev pub after : Event → Held → Held
after (resolved i) h = record h { infos = i ∷ h.infos }
after (freed i) h = record h { infos = drop_info i h.infos }
after (opened fd) h = if is_neg fd then h else record h { fds = fd ∷ h.fds }
after (closed fd) h = record h { fds = drop_fd fd h.fds }
after (accepted fd) h = if is_neg fd then h else record h { fds = fd ∷ h.fds }
after (handed fd) h = record h { fds = drop_fd fd h.fds }
after (watched fd) h = record h { watches = fd ∷ h.watches }
after (unwatched fd) h = record h { watches = drop_fd fd h.watches }
after _ h = h

abbrev pub held : Trace → Held
held [] = record { fds = []; watches = []; infos = [] }
held (e ∷ t) = after e (held t)
