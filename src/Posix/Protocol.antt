-- ===== src/Posix/Protocol.antt =====
-- The order of the calls of a concurrent server: an automaton over traces, and the accept loop.
use course_code.Base.{
  ℕ, zero, suc, ◌<◌, ◌≤◌, ◌≡◌, refl, Bool, true, false, ◌∙◌, append_assoc, Option, none, some, List,
  [], ◌∷◌, ◌++◌, arith, length, ◌==◌, if◌then◌else◌,
}
use course_code.Posix.Call.{Reply, done, fail, Call, Event, Trace}
use course_code.Posix.Run.{
  Outcome, ok, exited, blocked, fault, spins, M, pure, exit, ◌>>=◌, ◌>>◌, continue,
}
use course_code.Posix.Io.{call, ==_refl}
use course_code.Posix.Loop.{Next, again, resume, forever_rule}
use course_code.Posix.Program.{need, accept_round, accept_loop}
use course_code.Posix.Echo.{Endless}

-- Where a server stands: the parent between two connections, with a connection that it shuts down
-- first, with one to fork for, behind the fork;
-- the child before and behind the close of the listener; before the report of an error, behind it.
pub data Phase : Type 0 where
  idle dying dead : Phase
  fresh connected parent child serving : (conn : ℕ) → Phase

abbrev pub on_accept : (early : Bool) → Reply → Phase
on_accept true (done c _) = fresh c
on_accept false (done c _) = connected c
on_accept _ (fail _) = dying

abbrev pub on_fork : ℕ → Reply → Phase
on_fork c (done zero _) = child c
on_fork c (done (suc _) _) = parent c
on_fork c (fail _) = dying

abbrev pub on_shutdown : ℕ → Reply → Phase
on_shutdown c (done _ _) = connected c
on_shutdown c (fail _) = dying

-- The calls that each phase allows; `none` is a breach. With `early`, each connection is shut down
-- in front of the fork.
abbrev pub next : (early : Bool) → (listenfd : ℕ) → Phase → Event → Option Phase
next early l idle e = elim e.call [
  | Call.accept fd ↦ if fd == l then some (on_accept early e.reply) else none
  | _ ↦ none
]
next early l (fresh c) e = elim e.call [
  | Call.shutdown fd _ ↦ if fd == c then some (on_shutdown c e.reply) else none
  | _ ↦ none
]
next early l (connected c) e = elim e.call [ Call.fork ↦ some (on_fork c e.reply) | _ ↦ none ]
next early l (parent c) e = elim e.call [
  | Call.close fd ↦ if fd == c then some idle else none
  | _ ↦ none
]
next early l (child c) e = elim e.call [
  | Call.close fd ↦ if fd == l then some (serving c) else none
  | _ ↦ none
]
next early l (serving c) e = some (serving c)
next early l dying e = elim e.call [ Call.perror _ ↦ some dead | _ ↦ none ]
next early l dead e = none

-- How a run may end in each phase: with status 1 behind the report of an error, as a child that
-- serves, or in a call that waits, but not between an error and the end.
abbrev pub settled : Outcome (Unit {0}) → Phase → Bool
settled (ok _) _ = false
settled (exited n) dead = n == 1
settled (exited _) (serving _) = true
settled (exited _) _ = false
settled blocked dying = false
settled blocked dead = false
settled blocked _ = true
settled fault (serving _) = true
settled fault _ = false
settled spins (serving _) = true
settled spins _ = false

unfoldable pub follows : (early : Bool) → (listenfd : ℕ) → Outcome (Unit {0}) → Phase → Trace → Bool
follows early l o p [] = settled o p
follows early l o p (e ∷ es) = elim (next early l p e) [
  | none ↦ false
  | some q ↦ follows early l o q es
]

follows-serving :
    (early : Bool) (l c : ℕ) (o : Outcome (Unit {0})) (es : Trace)
    → Endless o
    → follows early l o (serving c) es ≡ true
unfolding follows
follows-serving early l c (ok _) [] h = absurd h
follows-serving early l c (exited _) [] h = refl
follows-serving early l c blocked [] h = refl
follows-serving early l c fault [] h = refl
follows-serving early l c spins [] h = refl
follows-serving early l c o (e ∷ es) h = follows-serving early l c o es h

suc-==-zero : (p : ℕ) → (suc p == 0) ≡ false
suc-==-zero p = ground arith

-- What stands between `accept` and `fork`.
abbrev pub before_fork : (early : Bool) → (connfd : ℕ) → M (Unit {0})
before_fork true connfd = need "shutdown error" (Call.shutdown connfd "SHUT_RDWR") >> pure tt
before_fork false connfd = pure tt

module _ (early : Bool) (listenfd : ℕ) (serve : ℕ → M (Unit {0})) where
  abbrev Kept : Outcome (Unit {0}) → Trace → Type 0
  Kept o t = (follows early listenfd o idle t ≡ true) × Endless o

  -- A round from `fork` on.
  abbrev forking : (connfd : ℕ) → M (Next (Unit {0}) (Unit {0}))
  forking connfd = do
    childpid ← need "fork error" Call.fork
    if childpid == 0
        then (do call (Call.close listenfd); serve connfd; exit 0)
        else (do call (Call.close connfd); pure (again tt))

  module _ (c : ℕ) (front : Trace)
      (lead : (o : Outcome (Unit {0})) (t : Trace)
        → follows early listenfd o idle (front ++ t)
          ≡ follows early listenfd o (connected c) t) where
    abbrev forked : ℕ → List ℕ → Event
    forked n l = record { call = Call.fork; reply = done n l }

    abbrev closed : (fd : ℕ) → Reply → Event
    closed fd r = record { call = Call.close fd; reply = r }

    child_line :
        (l : List ℕ) (r : Reply) (o : Outcome (Unit {0})) (t : Trace)
        → Endless o
        → follows early listenfd o (connected c) (forked 0 l ∷ closed listenfd r ∷ t) ≡ true
    unfolding follows
    child_line l r o t h = rw (follows, ==_refl listenfd) (follows-serving early listenfd c o t h)

    parent_line :
        (p : ℕ) (l : List ℕ) (r : Reply) (o : Outcome (Unit {0})) (t : Trace)
        → follows early listenfd o (connected c) (forked (suc p) l ∷ closed c r ∷ t)
          ≡ follows early listenfd o idle t
    unfolding follows
    parent_line p l r o t = rw (follows, ==_refl c)

    -- Behind the close of the listener the child serves, and then exits.
    serving_case :
        (l : List ℕ) (r : Reply) (k : Unit {0} → M (Unit {0})) (o : Outcome (Unit {0})) (t : Trace)
        (rest : List Reply)
        → let x = continue o t rest (λ (_ : Unit {0}). exit {A = Next (Unit {0}) (Unit {0})} 0) in
          let q =
            continue x.outcome
              (front ++ (forked 0 l ∷ closed listenfd r ∷ x.trace))
              x.rest
              (resume k) in
          Kept q.outcome q.trace
    serving_case l r k (ok _) t rest =
        (lead (exited 0) _ ∙ child_line l r (exited 0) (t ++ []) tt, tt)
    serving_case l r k (exited n) t rest = (lead (exited n) _ ∙ child_line l r (exited n) t tt, tt)
    serving_case l r k blocked t rest = (lead blocked _ ∙ child_line l r blocked t tt, tt)
    serving_case l r k fault t rest = (lead fault _ ∙ child_line l r fault t tt, tt)
    serving_case l r k spins t rest = (lead spins _ ∙ child_line l r spins t tt, tt)

    forking_case :
        (rs : List Reply) (k : Unit {0} → M (Unit {0}))
        → ((s' : Unit {0}) (rs' : List Reply)
            → length rs' ≤ length rs
            → Kept (k s' rs').outcome (k s' rs').trace)
        → let x = forking c rs in
          let q = continue x.outcome (front ++ x.trace) x.rest (resume k) in Kept q.outcome q.trace
    unfolding need
    forking_case [] k ih = (lead blocked [] ∙ (unfold follows in refl), tt)
    forking_case (fail e ∷ rs) k ih = (lead (exited 1) _ ∙ (unfold follows in refl), tt)
    forking_case (done zero l ∷ []) k ih = (lead blocked _ ∙ (unfold follows in refl), tt)
    forking_case (done zero l ∷ r ∷ rs) k ih =
        serving_case l r k (serve c rs).outcome (serve c rs).trace (serve c rs).rest
    forking_case (done (suc p) l ∷ []) k ih =
        (rw (suc-==-zero p) (lead blocked _ ∙ (unfold follows in refl)), rw (suc-==-zero p) tt)
    forking_case (done (suc p) l ∷ r ∷ rs) k ih =
        let (later, endless) = ih tt rs (omega arith) in
        (
          rw (suc-==-zero p, append_assoc, lead)
              (parent_line p l r (k tt rs).outcome (k tt rs).trace ∙ later),
          rw (suc-==-zero p) endless,
        )

module _ (listenfd : ℕ) (serve : ℕ → M (Unit {0})) where
  abbrev accepted : (connfd : ℕ) → List ℕ → Event
  accepted c l = record { call = Call.accept listenfd; reply = done c l }

  -- The connection is shut down, or not, and the fork follows.
  round :
      (early : Bool) (s : Unit {0}) (rs : List Reply) (k : Unit {0} → M (Unit {0}))
      → ((s' : Unit {0}) (rs' : List Reply)
          → length rs' < length rs
          → Kept early listenfd serve (k s' rs').outcome (k s' rs').trace)
      → let r = (accept_round listenfd (before_fork early) serve s >>= resume k) rs in
        Kept early listenfd serve r.outcome r.trace
  unfolding accept_round need
  round early s [] k ih = (unfold follows in refl, tt)
  round true s (fail e ∷ rs) k ih = (unfold follows in rw (follows, ==_refl listenfd), tt)
  round false s (fail e ∷ rs) k ih = (unfold follows in rw (follows, ==_refl listenfd), tt)
  round true s (done c l ∷ []) k ih = (unfold follows in rw (follows, ==_refl listenfd), tt)
  round true s (done c l ∷ fail e ∷ rs) k ih =
      (unfold follows in rw (follows, ==_refl listenfd, ==_refl c), tt)
  round true s (done c l ∷ done n l' ∷ rs) k ih =
      forking_case true listenfd serve c
        (accepted c l ∷ record { call = Call.shutdown c "SHUT_RDWR"; reply = done n l' } ∷ [])
        (λ o t. unfold follows in rw (follows, ==_refl listenfd, ==_refl c)) rs k
        (λ s' rs' le. ih s' rs' (omega arith))
  round false s (done c l ∷ rs) k ih =
      forking_case false listenfd serve c (accepted c l ∷ [])
        (λ o t. unfold follows in rw (follows, ==_refl listenfd)) rs k
        (λ s' rs' le. ih s' rs' (omega arith))

  -- On every list of answers the server keeps to the automaton: the parent closes each connection
  -- that `accept` gave it behind its fork and before the next `accept`, the child closes the
  -- listener first, and a failed `accept` or `fork` is reported, which ends the process with status
  -- 1. It ends in no other way but as a child that serves, waits only where such a call of the
  -- automaton stands, and does not return. So too where each connection is shut down in front of
  -- the fork.
  pub accept_loop-follows :
      (early : Bool) (rs : List Reply)
      → let r = accept_loop listenfd (before_fork early) serve rs in
        (follows early listenfd r.outcome idle r.trace ≡ true) × Endless r.outcome
  unfolding accept_loop
  accept_loop-follows early =
      forever_rule (accept_round listenfd (before_fork early) serve)
        (λ _ _ r. Kept early listenfd serve r.outcome r.trace) (round early) tt
