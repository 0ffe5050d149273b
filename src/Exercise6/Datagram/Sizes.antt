-- ===== src/Exercise6/Datagram/Sizes.antt =====
-- The size that q1-client.c shows.
use course_code.Base.{
  ℕ, zero, suc, ◌+◌, ◌<◌, ◌≡◌, refl, inl, inr, Bool-cases, List, [], ◌∷◌, length, take, arith, ltb,
  append-nil,
}
use course_code.Posix.Call.{Bytes, Call, Arg, Errno, Reply, done, fail, Event, SockAddr, Trace}
use course_code.Posix.Run.{Result, Outcome, ok, exited, blocked, fault, spins, M, ◌>>=◌, continue}
use course_code.Posix.Io.{gather, gather-append}
use course_code.Posix.Loop.{resume, forever, forever_rule}
use course_code.Exercise6.Datagram.{Probe, stopped, refused, probe_round, report, str_cli}

abbrev pub shown_by : Event → List Arg
shown_by e = elim e.call [ Call.printf _ l ↦ l | _ ↦ [] ]

-- The datagrams that were accepted with a positive count, and those that were refused, with the
-- reason.
abbrev pub accepted_by : Event → List Bytes
accepted_by e = elim e.call [
  | Call.sendto _ bs _ ↦ elim e.reply [ done zero _ ↦ [] | done (suc _) _ ↦ bs ∷ [] | fail _ ↦ [] ]
  | _ ↦ []
]

abbrev pub refused_by : Event → List (Bytes × Errno)
refused_by e = elim e.call [
  | Call.sendto _ bs _ ↦ elim e.reply [ done _ _ ↦ [] | fail e ↦ (bs, e) ∷ [] ]
  | _ ↦ []
]

module _ (memory : Bytes) (sockfd : ℕ) (server : SockAddr) where
  -- How a run of the loop from the size `n` on ends.
  abbrev Ends : (n accepted : ℕ) → Outcome Probe → List (Bytes × Errno) → Type 0
  Ends n accepted (ok (stopped m)) l = l ≡ []
  Ends n accepted (ok (refused m e)) l = (m ≡ n + accepted) × (l ≡ (take m memory, e) ∷ [])
  Ends n accepted blocked l = l ≡ []
  Ends n accepted (exited _) l = ⊥
  Ends n accepted fault l = ⊥
  Ends n accepted spins l = ⊥

  Ends-more :
      (n accepted : ℕ) (o : Outcome Probe) (l : List (Bytes × Errno))
      → Ends (n + 1) accepted o l
      → Ends n (suc accepted) o l
  Ends-more n accepted (ok (stopped m)) l h = h
  Ends-more n accepted (ok (refused m e)) l (size, h) = (omega arith, h)
  Ends-more n accepted blocked l h = h
  Ends-more n accepted (exited _) l h = h
  Ends-more n accepted fault l h = h
  Ends-more n accepted spins l h = h

  abbrev Probes : ℕ → Result Probe → Type 0
  Probes n r =
      Ends n (length (gather accepted_by r.trace)) r.outcome (gather refused_by r.trace)
      × (gather shown_by r.trace ≡ [])

  round :
      (n : ℕ) (rs : List Reply) (k : ℕ → M Probe)
      → ((n' : ℕ) (rs' : List Reply) → length rs' < length rs → Probes n' (k n' rs'))
      → Probes n ((probe_round memory sockfd server n >>= resume k) rs)
  unfolding probe_round
  round n [] k ih = (refl, refl)
  round n (fail e ∷ rs) k ih = ((omega arith, refl), refl)
  round n (done zero l ∷ rs) k ih = (refl, refl)
  round n (done (suc m) l ∷ rs) k ih = elim (Bool-cases (ltb n 100000)) [
    | inl low ↦
        let (ends, shown) = ih (n + 1) rs (omega arith) in
        rw low (Ends-more n _ (k (n + 1) rs).outcome _ ends, shown)
    | inr high ↦ rw high (refl, refl)
  ]

  loop-Probes :
      (rs : List Reply) → Probes 50000 (forever (probe_round memory sockfd server) 50000 rs)
  loop-Probes = forever_rule (probe_round memory sockfd server) (λ n _ r. Probes n r) round 50000

  -- What is shown, by the first datagram that was refused.
  abbrev pub Shows : (accepted : ℕ) → List (Bytes × Errno) → List Arg → Type 0
  Shows accepted ((bs, Errno.emsgsize) ∷ _) shown =
      (shown ≡ Arg.int (50000 + accepted) ∷ []) × (bs ≡ take (50000 + accepted) memory)
  Shows accepted ((bs, Errno.eintr) ∷ _) shown = shown ≡ []
  Shows accepted ((bs, Errno.enoent) ∷ _) shown = shown ≡ []
  Shows accepted ((bs, Errno.ewouldblock) ∷ _) shown = shown ≡ []
  Shows accepted ((bs, Errno.other _) ∷ _) shown = shown ≡ []
  Shows accepted [] shown = shown ≡ []

  report_case :
      (o : Outcome Probe) (t : Trace) (rest : List Reply)
      → Ends 50000 (length (gather accepted_by t)) o (gather refused_by t)
      → gather shown_by t ≡ []
      → let r = continue o t rest report in
        Shows
          (length (gather accepted_by r.trace))
          (gather refused_by r.trace)
          (gather shown_by r.trace)
  unfolding report
  report_case (ok (stopped m)) t rest ends shown = rw (append-nil t, ends) shown
  report_case (ok (refused m Errno.emsgsize)) t rest (size, ends) shown =
      rw
        (
          gather-append accepted_by t,
          gather-append refused_by t,
          gather-append shown_by t,
          ends,
          shown,
          append-nil (gather accepted_by t),
          size,
        )
        (refl, refl)
  report_case (ok (refused m Errno.eintr)) t rest (size, ends) shown =
      rw (gather-append refused_by t, gather-append shown_by t, ends, shown)
  report_case (ok (refused m Errno.enoent)) t rest (size, ends) shown =
      rw (gather-append refused_by t, gather-append shown_by t, ends, shown)
  report_case (ok (refused m Errno.ewouldblock)) t rest (size, ends) shown =
      rw (gather-append refused_by t, gather-append shown_by t, ends, shown)
  report_case (ok (refused m (Errno.other _))) t rest (size, ends) shown =
      rw (gather-append refused_by t, gather-append shown_by t, ends, shown)
  report_case blocked t rest ends shown = rw ends shown
  report_case (exited _) t rest ends shown = absurd ends
  report_case fault t rest ends shown = absurd ends
  report_case spins t rest ends shown = absurd ends

  -- On every list of answers: if a datagram is refused since it is too large, its own size is
  -- shown, which is 50000 and the number of those accepted before it; otherwise nothing is shown.
  pub str_cli-Shows :
      (rs : List Reply)
      → let r = str_cli memory sockfd server rs in
        Shows
          (length (gather accepted_by r.trace))
          (gather refused_by r.trace)
          (gather shown_by r.trace)
  unfolding str_cli
  str_cli-Shows rs = let (ends, shown) = loop-Probes rs in report_case _ _ _ ends shown
