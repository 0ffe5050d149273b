-- ===== src/Exercise4/EchoClient/Connecting.antt =====
-- Which answer of `getaddrinfo` the client connects to.
use course_code.Base.{ℕ, zero, suc, ◌≡◌, refl, Option, none, some, List, [], ◌∷◌, ◌++◌, map, ap}
use course_code.Posix.Call.{Call, Reply, done, fail, Event}
use course_code.Posix.Run.{Outcome, ok, exited, blocked, fault, spins}
use course_code.Posix.Io.{gather}
use course_code.Exercise4.EchoClient.{connect_any}

pub data Attempt : Type 0 where
  refused accepted : (entry : ℕ) → Attempt

abbrev attempt : ℕ → Reply → Attempt
attempt entry (done zero _) = accepted entry
attempt entry (done (suc _) _) = refused entry
attempt entry (fail _) = refused entry

abbrev pub attempts_by : Event → List Attempt
attempts_by e = elim e.call [ Call.connect_entry _ entry ↦ attempt entry e.reply ∷ [] | _ ↦ [] ]

-- Every entry in front was refused, and the result is the first that accepted, or none.
abbrev pub Connects : List ℕ → Outcome (Option ℕ) → List Attempt → Type 0
Connects entries (ok none) tried = tried ≡ map refused entries
Connects entries (ok (some entry)) tried =
    (front : List ℕ) × (back : List ℕ) × (entries ≡ front ++ entry ∷ back)
    × (tried ≡ map refused front ++ accepted entry ∷ [])
Connects entries blocked tried =
    (front : List ℕ) × (entry : ℕ) × (back : List ℕ) × (entries ≡ front ++ entry ∷ back)
    × (tried ≡ map refused front)
Connects entries (exited _) tried = ⊥
Connects entries fault tried = ⊥
Connects entries spins tried = ⊥

Connects-refused :
    (entry : ℕ) (entries : List ℕ) (o : Outcome (Option ℕ)) (tried : List Attempt)
    → Connects entries o tried
    → Connects (entry ∷ entries) o (refused entry ∷ tried)
Connects-refused entry entries (ok none) tried h = ap (λ l. refused entry ∷ l) h
Connects-refused entry entries (ok (some e)) tried (front, back, p, q) =
    (entry ∷ front, back, ap (λ l. entry ∷ l) p, ap (λ l. refused entry ∷ l) q)
Connects-refused entry entries blocked tried (front, e, back, p, q) =
    (entry ∷ front, e, back, ap (λ l. entry ∷ l) p, ap (λ l. refused entry ∷ l) q)
Connects-refused entry entries (exited _) tried h = h
Connects-refused entry entries fault tried h = h
Connects-refused entry entries spins tried h = h

-- Whatever the kernel answers, `connect_any` tries the entries in their order. It gives the first
-- that accepts, and tries none behind it; it gives none if all were refused; and it waits in the
-- attempt behind the refused ones otherwise.
pub connect_any-Connects :
    (sockfd : ℕ) (entries : List ℕ) (rs : List Reply)
    → let r = connect_any sockfd entries rs in
      Connects entries r.outcome (gather attempts_by r.trace)
unfolding connect_any
connect_any-Connects sockfd [] rs = refl
connect_any-Connects sockfd (entry ∷ entries) [] = ([], entry, entries, refl, refl)
connect_any-Connects sockfd (entry ∷ entries) (done zero _ ∷ rs) = ([], entries, refl, refl)
connect_any-Connects sockfd (entry ∷ entries) (done (suc n) _ ∷ rs) =
    Connects-refused entry entries _ _ (connect_any-Connects sockfd entries rs)
connect_any-Connects sockfd (entry ∷ entries) (fail e ∷ rs) =
    Connects-refused entry entries _ _ (connect_any-Connects sockfd entries rs)
