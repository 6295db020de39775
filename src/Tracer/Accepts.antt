-- ===== src/Tracer/Accepts.antt =====
-- The tracer accepts the stops of processes whose system calls pair up.
use mathlib.Core.Option.{none-ne-some}
use check_protocols.Prelude.{
  ℕ, ◌≡◌, refl, ◌∙◌, inl, inr, true, Option, none, some, List, [], ◌∷◌, ◌==◌, ==_iff, ==_refl,
  Bool-cases, Option-cases,
}
use check_protocols.Result.{ok}
use check_protocols.Syscall.{Syscall}
use check_protocols.Syscall.Code.{same}
use check_protocols.Tracer.{
  SyscallStop, enter, exit, Tracer, entered, remove, insert, update_syscall_state,
}
use check_protocols.Tracer.Alternation.{
  stops, of_process, in_front, turns, entered-remove, entered-insert,
}

-- Every process enters a system call and then leaves it, from the state that the tracer has on.
unfoldable pub PairUp : Tracer → List (ℕ × Syscall) → Type 0
PairUp tracer events =
    (p : ℕ)
    → (found : List SyscallStop) × (turns (entered tracer.entered_syscalls p) (of_process p events)
        ≡ some found)

in_front-some :
    (stop : SyscallStop) (o : Option (List SyscallStop)) (found : List SyscallStop)
    → in_front stop o ≡ some found
    → (later : List SyscallStop) × (o ≡ some later)
unfolding in_front
in_front-some stop none found h = absurd (none-ne-some found h)
in_front-some stop (some later) found h = (later, refl)

PairUp-enter :
    (pid : ℕ) (s : Syscall) (tracer : Tracer) (rest : List (ℕ × Syscall))
    → entered tracer.entered_syscalls pid ≡ none
    → PairUp tracer ((pid, s) ∷ rest)
    → PairUp (record tracer { entered_syscalls = insert pid s tracer.entered_syscalls }) rest
unfolding PairUp of_process turns
PairUp-enter pid s tracer rest e h p = elim (Bool-cases (pid == p)) [
  | inl q ↦
      let same_pid : pid ≡ p = (==_iff pid p).0 q in
      let outside : entered tracer.entered_syscalls p ≡ none = rw (← same_pid) e in
      let inside : entered (insert pid s tracer.entered_syscalls) p ≡ some s =
        entered-insert pid p s tracer.entered_syscalls ∙ rw q refl in
      let (found, t) = h p in
      let (later, l) =
        in_front-some enter (turns (some s) (of_process p rest)) found
          (rw (q, of_process, outside, turns) at t) in
      (later, rw inside l)
  | inr q ↦
      let unchanged : entered (insert pid s tracer.entered_syscalls) p
          ≡ entered tracer.entered_syscalls p =
        entered-insert pid p s tracer.entered_syscalls ∙ rw q refl in
      let (found, t) = h p in (found, rw unchanged (rw (q, of_process) at t))
]

PairUp-exit :
    (pid : ℕ) (old s : Syscall) (tracer : Tracer) (rest : List (ℕ × Syscall))
    → entered tracer.entered_syscalls pid ≡ some old
    → same old s ≡ true
    → PairUp tracer ((pid, s) ∷ rest)
    → PairUp (record tracer { entered_syscalls = remove pid tracer.entered_syscalls }) rest
unfolding PairUp of_process turns
PairUp-exit pid old s tracer rest e m h p = elim (Bool-cases (pid == p)) [
  | inl q ↦
      let same_pid : pid ≡ p = (==_iff pid p).0 q in
      let inside : entered tracer.entered_syscalls p ≡ some old = rw (← same_pid) e in
      let outside : entered (remove pid tracer.entered_syscalls) p ≡ none =
        entered-remove pid p tracer.entered_syscalls ∙ rw q refl in
      let (found, t) = h p in
      let (later, l) =
        in_front-some exit (turns none (of_process p rest)) found
          (rw (q, of_process, inside, turns, m) at t) in
      (later, rw outside l)
  | inr q ↦
      let unchanged : entered (remove pid tracer.entered_syscalls) p
          ≡ entered tracer.entered_syscalls p =
        entered-remove pid p tracer.entered_syscalls ∙ rw q refl in
      let (found, t) = h p in (found, rw unchanged (rw (q, of_process) at t))
]

-- A system call that a process leaves is the one it entered, if its system calls pair up.
PairUp-same :
    (pid : ℕ) (old s : Syscall) (tracer : Tracer) (rest : List (ℕ × Syscall))
    → entered tracer.entered_syscalls pid ≡ some old
    → PairUp tracer ((pid, s) ∷ rest)
    → same old s ≡ true
unfolding PairUp of_process turns
PairUp-same pid old s tracer rest e h = elim (Bool-cases (same old s)) [
  | inl m ↦ m
  | inr m ↦
      let (found, t) = h pid in
      absurd (none-ne-some found (rw (==_refl pid, of_process, e, turns, m) at t))
]

-- No stop is refused while the system calls of every process pair up, in whatever order the stops of
-- the processes arrive.
pub stops_accepted :
    (events : List (ℕ × Syscall)) (tracer : Tracer)
    → PairUp tracer events
    → (found : List (ℕ × SyscallStop)) × (stops tracer events ≡ ok found)
unfolding stops update_syscall_state
stops_accepted [] tracer h = ([], refl)
stops_accepted ((pid, s) ∷ rest) tracer h =
    elim (Option-cases (entered tracer.entered_syscalls pid)) [
      | inl e ↦
          let (found, r) =
            stops_accepted rest
              (record tracer { entered_syscalls = insert pid s tracer.entered_syscalls })
              (PairUp-enter pid s tracer rest e h) in
          ((pid, enter) ∷ found, rw (e, update_syscall_state, r) refl)
      | inr (old, e) ↦
          let m = PairUp-same pid old s tracer rest e h in
          let (found, r) =
            stops_accepted rest
              (record tracer { entered_syscalls = remove pid tracer.entered_syscalls })
              (PairUp-exit pid old s tracer rest e m h) in
          ((pid, exit) ∷ found, rw (e, update_syscall_state, m, r) refl)
    ]
