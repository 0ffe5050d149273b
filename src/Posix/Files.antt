-- ===== src/Posix/Files.antt =====
-- What the descriptors of a process stand for, by the calls that it has made.
use course_code.Base.{ℕ, zero, suc, ◌≡◌, refl, Bool, true, false, List, [], ◌∷◌, ◌++◌}
use course_code.Base.Family.{update}
use course_code.Posix.Call.{Bytes, Reply, done, fail, Call, Event, Trace}
use course_code.Posix.Run.{Outcome, ok, exited, blocked, fault, spins, M, ◌>>=◌, continue}

-- What a process got from its parent at descriptor `fd`, the file with a path, an end of a pipe, or
-- nothing.
pub data File : Type 0 where
  inherited : (fd : ℕ) → File
  opened : (path : Bytes) → File
  pipe_reads pipe_writes closed : File

abbrev pub Table : Type 0
Table = ℕ → File

-- `open` gives a descriptor, `dup2` makes one stand for the file of another, and behind `close`, even
-- one that reports an error, a descriptor stands for nothing.
abbrev pub after_event : Event → Table → Table
after_event e table = elim e.call [
  | Call.open_file path _ ↦ elim e.reply [
    | done fd _ ↦ update table fd (opened path)
    | fail _ ↦ table
  ]
  | Call.dup2 old new ↦ elim e.reply [ done _ _ ↦ update table new (table old) | fail _ ↦ table ]
  | Call.close fd ↦ update table fd closed
  | _ ↦ table
]

unfoldable pub files : Table → Trace → Table
files table [] = table
files table (e ∷ t) = files (after_event e table) t

-- The lowest one of `n` descriptors, from `fd` on, that stands for such a file.
unfoldable pub lowest : (is_it : File → Bool) → Table → (n fd : ℕ) → ℕ
lowest is_it table zero fd = fd
lowest is_it table (suc n) fd = elim (is_it (table fd)) [
  | true ↦ fd
  | false ↦ lowest is_it table n (suc fd)
]

-- Where a process reaches a file: it has at most 1024 descriptors.
abbrev pub place : (is_it : File → Bool) → Table → ℕ
place is_it table = lowest is_it table 1024 0

pub place-first :
    (is_it : File → Bool) (table : Table) (f : File)
    → table 0 ≡ f
    → is_it f ≡ true
    → place is_it table ≡ 0
unfolding lowest
place-first is_it table f e here = rw (lowest, e, here) refl

pub place-second :
    (is_it : File → Bool) (table : Table) (f g : File)
    → table 0 ≡ f
    → table 1 ≡ g
    → is_it f ≡ false
    → is_it g ≡ true
    → place is_it table ≡ 1
unfolding lowest
place-second is_it table f g e e' elsewhere here = rw (lowest, e, elsewhere, lowest, e', here) refl

files-append : (table : Table) (xs ys : Trace) → files table (xs ++ ys) ≡ files (files table xs) ys
unfolding files
files-append table [] ys = refl
files-append table (x ∷ xs) ys = files-append (after_event x table) xs ys

module _ (Goes Ends : Table → Type 0) where
  -- `Goes` of the descriptors if the run goes on, and `Ends` of them if it exits with status 0.
  abbrev pub Wired : {A : Type 0} → Table → Outcome A → Trace → Type 0
  Wired table (ok _) t = Goes (files table t)
  Wired table (exited zero) t = Ends (files table t)
  Wired table (exited (suc _)) t = Unit
  Wired table blocked t = Unit
  Wired table fault t = Unit
  Wired table spins t = Unit

  pub Wired-exit :
      {A : Type 0} (table : Table) (o : Outcome A) (t : Trace)
      → o ≡ exited 0
      → Wired table o t
      → Ends (files table t)
  Wired-exit table (ok _) t e h = absurd (cc)
  Wired-exit table (exited zero) t e h = h
  Wired-exit table (exited (suc _)) t e h = absurd (cc)
  Wired-exit table blocked t e h = absurd (cc)
  Wired-exit table fault t e h = absurd (cc)
  Wired-exit table spins t e h = absurd (cc)

  pub Wired-front :
      {A : Type 0} (table : Table) (xs : Trace) (o : Outcome A) (t : Trace)
      → Wired (files table xs) o t
      → Wired table o (xs ++ t)
  Wired-front table xs (ok _) t h = rw (files-append table xs t) h
  Wired-front table xs (exited zero) t h = rw (files-append table xs t) h
  Wired-front table xs (exited (suc _)) t h = tt
  Wired-front table xs blocked t h = tt
  Wired-front table xs fault t h = tt
  Wired-front table xs spins t h = tt

module _ (Goes Next Ends : Table → Type 0) where
  Wired-continue :
      {A B : Type 0} (table : Table) (o : Outcome A) (t : Trace) (rest : List Reply) (g : A → M B)
      → Wired Goes Ends table o t
      → ((a : A)
          → Goes (files table t)
          → Wired Next Ends (files table t) (g a rest).outcome (g a rest).trace)
      → let r = continue o t rest g in Wired Next Ends table r.outcome r.trace
  Wired-continue table (ok a) t rest g h later =
      Wired-front Next Ends table t (g a rest).outcome (g a rest).trace (later a h)
  Wired-continue table (exited zero) t rest g h later = h
  Wired-continue table (exited (suc _)) t rest g h later = tt
  Wired-continue table blocked t rest g h later = tt
  Wired-continue table fault t rest g h later = tt
  Wired-continue table spins t rest g h later = tt

  -- One thing after another.
  pub Wired-bind :
      {A B : Type 0} (table : Table) (m : M A) (g : A → M B) (rs : List Reply)
      → Wired Goes Ends table (m rs).outcome (m rs).trace
      → ((a : A) (rs' : List Reply) (table' : Table)
          → Goes table'
          → Wired Next Ends table' (g a rs').outcome (g a rs').trace)
      → let r = (m >>= g) rs in Wired Next Ends table r.outcome r.trace
  Wired-bind table m g rs h later =
      Wired-continue table (m rs).outcome (m rs).trace (m rs).rest g h
        (λ a goes. later a _ (files table (m rs).trace) goes)
