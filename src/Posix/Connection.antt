-- ===== src/Posix/Connection.antt =====
-- Two programs at the two ends of one connection, their calls in any order that the connection allows.
use course_code.Base.{ℕ, ◌≡◌, refl, sym, List, [], ◌∷◌, ◌++◌, append_assoc, append-nil, All}
use course_code.Posix.Call.{Bytes, Event, Trace}
use course_code.Posix.Io.{chunks, chunks_by, sent, sent_by, asked, asked_by}
use course_code.Posix.Run.{Outcome, ok, exited, blocked, fault, spins}
use course_code.Posix.Relay.{Fits, IsPrefix, relayed, relayed-append}

-- The bytes of some pieces.
abbrev pub joined : List Bytes → Bytes
joined = relayed (λ buf. buf)

-- Each program reads from one descriptor and writes to another, which may be the same. `there` and
-- `back` are the bytes under way to the right and to the left. Each step is one call of one program,
-- in the order of its trace: a `write` through the connection puts what it moved behind the bytes under
-- way, a `read` takes what it returns from their front, any other call leaves them. The bytes of
-- `there_end` and `back_end` are under way at the end.
pub data Duplex (left_in left_out right_in right_out : ℕ) (there_end back_end : Bytes)
    : (there back : Bytes) → (left right : Trace) → Type 0 where
  over : Duplex left_in left_out right_in right_out there_end back_end there_end back_end [] []
  left_moves :
      {there back : Bytes} {l r : Trace} (e : Event) (rest : Bytes)
      → back ≡ joined (chunks_by left_in e) ++ rest
      → Duplex left_in left_out right_in right_out there_end back_end
          (there ++ sent_by left_out e)
          rest
          l
          r
      → Duplex left_in left_out right_in right_out there_end back_end there back (e ∷ l) r
  right_moves :
      {there back : Bytes} {l r : Trace} (e : Event) (rest : Bytes)
      → there ≡ joined (chunks_by right_in e) ++ rest
      → Duplex left_in left_out right_in right_out there_end back_end rest
          (back ++ sent_by right_out e)
          l
          r
      → Duplex left_in left_out right_in right_out there_end back_end there back l (e ∷ r)

-- The same with one descriptor at each end.
abbrev pub Link :
    (left_fd right_fd : ℕ) → (there_end back_end there back : Bytes) → (left right : Trace) → Type 0
Link left_fd right_fd = Duplex left_fd left_fd right_fd right_fd

behind_front :
    (front made wanted all : Bytes) (left_over : Bytes)
    → all ≡ front ++ wanted
    → wanted ≡ made ++ left_over
    → all ≡ (front ++ made) ++ left_over
behind_front front made wanted all left_over e p = rw (e, p, append_assoc)

module _ {left_in left_out right_in right_out : ℕ} {there_end back_end : Bytes} where
  -- What was under way to one end and what the other end moved is what the one has read and what
  -- is under way at the end.
  pub Duplex-account :
      {there back : Bytes} {l r : Trace}
      → Duplex left_in left_out right_in right_out there_end back_end there back l r
      → (there ++ sent left_out l ≡ joined (chunks right_in r) ++ there_end)
        × (back ++ sent right_out r ≡ joined (chunks left_in l) ++ back_end)
  unfolding relayed
  Duplex-account over = (append-nil there_end, append-nil back_end)
  Duplex-account {there = there} {back = back} (left_moves {l = l} {r = r} e rest p k) =
      let (h, h') = Duplex-account k in
      (
        rw (append_assoc) at h,
        rw (relayed-append (λ buf. buf) (chunks_by left_in e) (chunks left_in l)) (
            behind_front (joined (chunks_by left_in e)) (joined (chunks left_in l))
              (rest ++ sent right_out r) (back ++ sent right_out r) back_end (rw (p, append_assoc))
              h'),
      )
  Duplex-account {there = there} {back = back} (right_moves {l = l} {r = r} e rest p k) =
      let (h, h') = Duplex-account k in
      (
        rw (relayed-append (λ buf. buf) (chunks_by right_in e) (chunks right_in r)) (
            behind_front (joined (chunks_by right_in e)) (joined (chunks right_in r))
              (rest ++ sent left_out l) (there ++ sent left_out l) there_end (rw (p, append_assoc))
              h),
        rw (append_assoc) at h',
      )

-- What one end has read is a front part of what the other end moved.
pub Link-IsPrefix :
    {left_fd right_fd : ℕ} {there_end back_end : Bytes} {l r : Trace}
    → Link left_fd right_fd there_end back_end [] [] l r
    → IsPrefix (joined (chunks right_fd r)) (sent left_fd l)
      × IsPrefix (joined (chunks left_fd l)) (sent right_fd r)
Link-IsPrefix {there_end = there_end} {back_end = back_end} k =
    let (h, h') = Duplex-account k in ((there_end, sym h), (back_end, sym h'))

-- Each `write` of a trace through the connection moved all that it was given.
abbrev pub Whole : (fd : ℕ) → Trace → Type 0
Whole fd = All (λ e. sent_by fd e ≡ asked_by fd e)

pub sent-Whole : (fd : ℕ) (t : Trace) → Whole fd t → sent fd t ≡ asked fd t
sent-Whole fd [] h = refl
sent-Whole fd (e ∷ t) (one, h) = rw (one, sent-Whole fd t h)

-- The same, where each `write` through the connection moved all that it was given.
pub Link-asked :
    {left_fd right_fd : ℕ} {there_end back_end : Bytes} {l r : Trace}
    → Link left_fd right_fd there_end back_end [] [] l r
    → Whole left_fd l
    → Whole right_fd r
    → IsPrefix (joined (chunks right_fd r)) (asked left_fd l)
      × IsPrefix (joined (chunks left_fd l)) (asked right_fd r)
Link-asked {left_fd} {right_fd} {l = l} {r = r} k whole whole' =
    let (there, back) = Link-IsPrefix k in
    (rw (sent-Whole left_fd l whole) at there, rw (sent-Whole right_fd r whole') at back)

pub IsPrefix-trans :
    {X : Type 0} (xs ys zs : List X) → IsPrefix xs ys → IsPrefix ys zs → IsPrefix xs zs
IsPrefix-trans xs ys zs (tail, p) (tail', q) = (tail ++ tail', rw (← append_assoc, p, q))

pub IsPrefix-of_Fits :
    {A X : Type 0} (o : Outcome A) (made wanted : List X)
    → Fits o made wanted
    → IsPrefix made wanted
IsPrefix-of_Fits (ok _) made wanted h = ([], rw (append-nil made) h)
IsPrefix-of_Fits (exited n) made wanted (one, h) = h
IsPrefix-of_Fits blocked made wanted h = h
IsPrefix-of_Fits fault made wanted h = absurd h
IsPrefix-of_Fits spins made wanted h = absurd h
