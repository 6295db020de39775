-- ===== src/Tracer/Alternation.antt =====
-- The system calls of one process enter and exit in turns, whatever the other processes do between.
use check_protocols.Prelude.{
  ℕ, ◌≡◌, refl, ap, ◌∙◌, inl, inr, true, Option, none, some, List, [], ◌∷◌, arith, ◌==◌,
  if◌then◌else◌, ==_iff, Bool-cases, Option-cases,
}
use check_protocols.Result.{R, ok, ◌>>=◌, Returns, Returns-bind}
use check_protocols.Syscall.{Syscall}
use check_protocols.Syscall.Code.{same}
use check_protocols.Tracer.{
  SyscallStop, enter, exit, Tracer, entered, remove, insert, update_syscall_state,
}

-- what `update_syscall_state` says of these stops, one after the other
unfoldable pub stops : Tracer → List (ℕ × Syscall) → R (List (ℕ × SyscallStop))
stops tracer [] = ok []
stops tracer ((pid, syscall) ∷ rest) = do
  (stop, tracer') ← update_syscall_state tracer pid syscall
  later ← stops tracer' rest
  ok ((pid, stop) ∷ later)

-- what concerns one process
unfoldable pub of_process : {A : Type 0} → ℕ → List (ℕ × A) → List A
of_process pid [] = []
of_process pid ((p, a) ∷ rest) =
    let others = of_process pid rest in if p == pid then a ∷ others else others

unfoldable pub in_front : SyscallStop → Option (List SyscallStop) → Option (List SyscallStop)
in_front stop none = none
in_front stop (some later) = some (stop ∷ later)

-- Enter and exit in turns, each exit from the system call that was entered. The first argument is
-- the system call that the process is inside of.
unfoldable pub turns : Option Syscall → List Syscall → Option (List SyscallStop)
turns inside [] = some []
turns none (s ∷ ss) = in_front enter (turns (some s) ss)
turns (some s) (t ∷ ss) =
    let later = turns none ss in if same s t then in_front exit later else none

pub entered-remove :
    (pid p : ℕ) (syscalls : List (ℕ × Syscall))
    → entered (remove pid syscalls) p ≡ (if pid == p then none else entered syscalls p)
unfolding entered remove
entered-remove pid p [] = ground arith
entered-remove pid p ((q, s) ∷ rest) = ground (arith, entered-remove pid p rest)

pub entered-insert :
    (pid p : ℕ) (s : Syscall) (syscalls : List (ℕ × Syscall))
    → entered (insert pid s syscalls) p ≡ (if pid == p then some s else entered syscalls p)
unfolding insert entered
entered-insert pid p s syscalls = ground (arith, entered-remove pid p syscalls)

abbrev pub Turns : ℕ → Tracer → List (ℕ × Syscall) → List (ℕ × SyscallStop) → Type 0
Turns p tracer events found =
    turns (entered tracer.entered_syscalls p) (of_process p events) ≡ some (of_process p found)

enter-Turns :
    (p pid : ℕ) (s : Syscall) (tracer : Tracer) (rest : List (ℕ × Syscall))
    (later : List (ℕ × SyscallStop))
    → entered tracer.entered_syscalls pid ≡ none
    → Turns p (record tracer { entered_syscalls = insert pid s tracer.entered_syscalls }) rest later
    → Turns p tracer ((pid, s) ∷ rest) ((pid, enter) ∷ later)
unfolding of_process turns in_front
enter-Turns p pid s tracer rest later e h = elim (Bool-cases (pid == p)) [
  | inl q ↦
      let same_pid : pid ≡ p = (==_iff pid p).0 q in
      let outside : entered tracer.entered_syscalls p ≡ none = rw (← same_pid) e in
      let inside : entered (insert pid s tracer.entered_syscalls) p ≡ some s =
        entered-insert pid p s tracer.entered_syscalls ∙ rw q refl in
      rw (q, of_process, outside, turns) (ap (in_front enter) (rw inside at h))
  | inr q ↦
      let unchanged : entered (insert pid s tracer.entered_syscalls) p
          ≡ entered tracer.entered_syscalls p =
        entered-insert pid p s tracer.entered_syscalls ∙ rw q refl in
      rw (q, of_process) (rw unchanged at h)
]

exit-Turns :
    (p pid : ℕ) (old s : Syscall) (tracer : Tracer) (rest : List (ℕ × Syscall))
    (later : List (ℕ × SyscallStop))
    → entered tracer.entered_syscalls pid ≡ some old
    → same old s ≡ true
    → Turns p (record tracer { entered_syscalls = remove pid tracer.entered_syscalls }) rest later
    → Turns p tracer ((pid, s) ∷ rest) ((pid, exit) ∷ later)
unfolding of_process turns in_front
exit-Turns p pid old s tracer rest later e m h = elim (Bool-cases (pid == p)) [
  | inl q ↦
      let same_pid : pid ≡ p = (==_iff pid p).0 q in
      let inside : entered tracer.entered_syscalls p ≡ some old = rw (← same_pid) e in
      let outside : entered (remove pid tracer.entered_syscalls) p ≡ none =
        entered-remove pid p tracer.entered_syscalls ∙ rw q refl in
      rw (q, of_process, inside, turns, m) (ap (in_front exit) (rw outside at h))
  | inr q ↦
      let unchanged : entered (remove pid tracer.entered_syscalls) p
          ≡ entered tracer.entered_syscalls p =
        entered-remove pid p tracer.entered_syscalls ∙ rw q refl in
      rw (q, of_process) (rw unchanged at h)
]

-- Whatever the order in which the stops of several processes arrive: if all are accepted, the stops
-- of each process are an enter and an exit in turns, each exit from the system call entered before.
pub stops-Turns :
    (p : ℕ) (events : List (ℕ × Syscall)) (tracer : Tracer)
    → Returns (Turns p tracer events) (stops tracer events)
unfolding stops of_process turns update_syscall_state
stops-Turns p [] tracer = refl
stops-Turns p ((pid, s) ∷ rest) tracer = elim (Option-cases (entered tracer.entered_syscalls pid)) [
  | inl e ↦
      let tracer' = record tracer { entered_syscalls = insert pid s tracer.entered_syscalls } in
      rw (e, update_syscall_state)
        (Returns-bind (Turns p tracer' rest) (Turns p tracer ((pid, s) ∷ rest)) (stops tracer' rest)
          _ (stops-Turns p rest tracer') λ later h. enter-Turns p pid s tracer rest later e h)
  | inr (old, e) ↦ elim (Bool-cases (same old s)) [
    | inr m ↦ rw (e, update_syscall_state, m) tt
    | inl m ↦
        let tracer' = record tracer { entered_syscalls = remove pid tracer.entered_syscalls } in
        rw (e, update_syscall_state, m)
          (Returns-bind (Turns p tracer' rest) (Turns p tracer ((pid, s) ∷ rest))
            (stops tracer' rest) _ (stops-Turns p rest tracer')
            λ later h. exit-Turns p pid old s tracer rest later e m h)
  ]
]
