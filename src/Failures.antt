-- ===== src/Failures.antt =====
-- The short programs of network-programming-2013, and which failed calls they report: exercise1/question-3.c,
-- exercise3/reader.c and question-2.c, exercise5/q5-client.c and q5-server.c,
-- exercise6/q2-tcp-getsockopt.c and q3.c.
use course_code.Base.{ℕ, zero, suc, ◌+◌, refl, Bool, true, false, String, List, [], ◌∷◌}
use course_code.Base.Int.{pos_part}
use course_code.Posix.Call.{Bytes, Call, Event, Reply, done, fail, Kind, Arg}
use course_code.Posix.Run.{pure}
use course_code.Posix.Io.{Got, chunk, eof, failed, got}
use course_code.Posix.Libc.{atoi}
use course_code.Posix.Program.{open_listener, open_connection, any_addr, dotted_addr, write_or_die}
use course_code.Posix.Checked.{
  Checks, Careful, ◌then◌, need-Careful, write_or_die-Careful, sys-Careful, call-Careful,
  pure-Careful, emit-Careful, exit-Careful,
}
use course_code.Exercise1.FileStat as FileStat
use course_code.Exercise3.Filters as Filters
use course_code.Exercise3.Fifo as Fifo
use course_code.Exercise3.Fifo.Failures.{is_read, parent-Careful}
use course_code.Exercise5.Backlog as Backlog
use course_code.Exercise6.SocketOptions as SocketOptions

abbrev pub never : Event → Bool
never e = false

-- A failure of `close` or `sleep`.
abbrev pub at_leisure : Event → Bool
at_leisure e = elim e.call [ Call.close _ ↦ true | Call.sleep _ ↦ true | _ ↦ false ]

stat-Checks :
    (name path : Bytes) (rs : List Reply) → Checks never (FileStat.main name (path ∷ []) rs)
unfolding FileStat.main FileStat.print_stat
stat-Checks name path [] = tt
stat-Checks name path (fail e ∷ rs) = (refl, refl, refl)
stat-Checks name path (done fd l ∷ []) = tt
stat-Checks name path (done fd l ∷ fail e ∷ rs) = (refl, refl, refl)
stat-Checks name path (done fd l ∷ done n buf ∷ rs) = refl

copied-Careful :
    (g : Got)
    → Careful is_read {A = Unit {0}} (elim g [
      | chunk b bs ↦ write_or_die "write error to stdout" 1 (b ∷ bs)
      | eof ↦ pure tt
      | failed ↦ pure tt
    ])
copied-Careful (chunk b bs) = write_or_die-Careful 1 (b ∷ bs) "write error to stdout" (λ e. refl)
copied-Careful eof = pure-Careful tt
copied-Careful failed = pure-Careful tt

reader-Careful : Careful is_read Filters.reader
unfolding Filters.reader
reader-Careful =
    (sys-Careful (Call.read 0 Filters.max_line) (λ e. refl)
      then (λ r. pure-Careful (got Filters.max_line r)))
    then (λ g. copied-Careful g then (λ _. exit-Careful))

open_connection-Careful : (ip : Bytes) (port : ℕ) → Careful at_leisure (open_connection ip port)
unfolding open_connection
open_connection-Careful ip port =
    need-Careful (Call.socket Kind.stream) _ (λ e. refl) then (λ sockfd.
      need-Careful (Call.connect sockfd (dotted_addr ip port)) _ (λ e. refl)
      then (λ _. pure-Careful sockfd))

connect_rounds-Careful :
    (ip : Bytes) (rounds i : ℕ) → Careful at_leisure (Backlog.connect_rounds ip rounds i)
unfolding Backlog.connect_rounds Backlog.connect_to_srv
connect_rounds-Careful ip zero i = pure-Careful tt
connect_rounds-Careful ip (suc rounds) i =
    emit-Careful (Call.printf "connecting %d\n" (Arg.int i ∷ [])) then (λ _.
      open_connection-Careful ip Backlog.serv_port
      then (λ sockfd. call-Careful (Call.close sockfd) (λ e. refl) then (λ _. pure-Careful tt))
      then (λ _. connect_rounds-Careful ip rounds (i + 1)))

connecting-Careful : (ip num : Bytes) → Careful at_leisure (Backlog.client_main (ip ∷ num ∷ []))
unfolding Backlog.client_main
connecting-Careful ip num =
    connect_rounds-Careful ip (pos_part (atoi num)) 0 then (λ _. exit-Careful)

listening-Careful : Careful at_leisure Backlog.server_main
unfolding Backlog.server_main open_listener
listening-Careful =
    (need-Careful (Call.socket Kind.stream) _ (λ e. refl) then (λ listenfd.
      need-Careful (Call.bind listenfd (any_addr Backlog.serv_port)) _ (λ e. refl) then (λ _.
        need-Careful (Call.listen listenfd Backlog.listen_backlog) _ (λ e. refl)
        then (λ _. pure-Careful listenfd))))
    then (λ listenfd.
        call-Careful (Call.sleep 600) (λ e. refl)
        then (λ _. call-Careful (Call.close listenfd) (λ e. refl) then (λ _. exit-Careful)))

shown_case :
    (name line : String) (sockfd value : ℕ) (rs : List Reply)
    → Checks at_leisure (SocketOptions.show_option name line sockfd value rs)
unfolding SocketOptions.show_option
shown_case name line sockfd value [] = tt
shown_case name line sockfd value (done n l ∷ rs) = refl
shown_case name line sockfd value (fail e ∷ rs) = (refl, refl, refl)

show-Careful :
    (name line : String) (sockfd value : ℕ)
    → Careful at_leisure (SocketOptions.show_option name line sockfd value)
show-Careful name line sockfd value = record { checks = shown_case name line sockfd value }

buffer-Careful :
    (sendbuf : ℕ) (ip : Bytes) → Careful at_leisure (SocketOptions.buffer_main sendbuf (ip ∷ []))
unfolding SocketOptions.buffer_main
buffer-Careful sendbuf ip =
    need-Careful (Call.socket Kind.stream) "socket error" (λ e. refl) then (λ sockfd.
      show-Careful "SO_SNDBUF" "send buffer size = %d\n" sockfd sendbuf then (λ _.
        need-Careful (Call.setsockopt sockfd "SO_SNDBUF" 50000) "setsockopt error" (λ e. refl)
        then (λ _.
            emit-Careful (Call.printf "set send buffer size to %d\n" (Arg.int 50000 ∷ []))
            then (λ _. show-Careful "SO_SNDBUF" "send buffer size = %d\n" sockfd 50000 then (λ now.
                need-Careful (Call.connect sockfd (dotted_addr ip SocketOptions.serv_port))
                  "connecting error" (λ e. refl)
                then (λ _. show-Careful "SO_SNDBUF" "send buffer size = %d\n" sockfd now then (λ _.
                    call-Careful (Call.close sockfd) (λ e. refl) then (λ _. exit-Careful))))))))

segment-Careful :
    (mss : ℕ) (ip : Bytes) → Careful at_leisure (SocketOptions.segment_main mss (ip ∷ []))
unfolding SocketOptions.segment_main
segment-Careful mss ip =
    need-Careful (Call.socket Kind.stream) "socket error" (λ e. refl) then (λ sockfd.
      show-Careful "TCP_MAXSEG" "mss = %d\n" sockfd mss then (λ _.
        need-Careful (Call.setsockopt sockfd "TCP_MAXSEG" 256) "getsockopt error" (λ e. refl)
        then (λ _. emit-Careful (Call.printf "set mss to %d\n" (Arg.int 256 ∷ [])) then (λ _.
            need-Careful (Call.connect sockfd (dotted_addr ip SocketOptions.serv_port))
              "connecting error" (λ e. refl)
            then (λ _. show-Careful "TCP_MAXSEG" "mss = %d\n" sockfd 256 then (λ _.
                call-Careful (Call.close sockfd) (λ e. refl) then (λ _. exit-Careful)))))))

-- On every list of answers: question-3.c with a path reports each failed call and exits with status 1;
-- reader.c and the parent of question-2.c so each but those of `read`, which they pass over; and
-- q5-client.c with an address and a number, q5-server.c, q2-tcp-getsockopt.c and q3.c with an address
-- so each but those of `close` and `sleep`. Whichever of them goes on or exits with status 0 has had
-- no failure but those, whichever exits with status 1 had another one and has ended in a message, and
-- otherwise it still waits.
pub programs-Checks :
    (name path ip num : Bytes) (pid sendbuf mss : ℕ) (rs : List Reply)
    → Checks never (FileStat.main name (path ∷ []) rs)
      × Checks is_read (Filters.reader rs)
      × Checks is_read (Fifo.parent pid rs)
      × Checks at_leisure (Backlog.client_main (ip ∷ num ∷ []) rs)
      × Checks at_leisure (Backlog.server_main rs)
      × Checks at_leisure (SocketOptions.buffer_main sendbuf (ip ∷ []) rs)
      × Checks at_leisure (SocketOptions.segment_main mss (ip ∷ []) rs)
programs-Checks name path ip num pid sendbuf mss rs = (
  stat-Checks name path rs,
  reader-Careful.checks rs,
  (parent-Careful pid).checks rs,
  (connecting-Careful ip num).checks rs,
  listening-Careful.checks rs,
  (buffer-Careful sendbuf ip).checks rs,
  (segment-Careful mss ip).checks rs,
)
