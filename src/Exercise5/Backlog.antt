-- ===== src/Exercise5/Backlog.antt =====
-- network-programming-2013/exercise5/q5-server.c and q5-client.c: how many connections a listener queues.
use course_code.Base.{ℕ, zero, suc, ◌+◌, List, [], ◌∷◌}
use course_code.Base.Int.{pos_part}
use course_code.Posix.Call.{Bytes, Call, Arg}
use course_code.Posix.Run.{M, pure, exit, printf, ◌>>=◌, ◌>>◌}
use course_code.Posix.Libc.{atoi}
use course_code.Posix.Io.{call}
use course_code.Posix.Program.{handle_err, open_listener, open_connection}

abbrev pub serv_port : ℕ
serv_port = 50011

abbrev pub listen_backlog : ℕ
listen_backlog = 1

unfoldable pub server_main : M (Unit {0})
unfolding open_listener
server_main = do
  listenfd ← open_listener serv_port listen_backlog
  call (Call.sleep 600)
  call (Call.close listenfd)
  exit 0

unfoldable pub connect_to_srv : (ip : Bytes) → M (Unit {0})
unfolding open_connection
connect_to_srv ip = do sockfd ← open_connection ip serv_port; call (Call.close sockfd); pure tt

-- The loop from `i` on, `rounds` times.
unfoldable pub connect_rounds : (ip : Bytes) → (rounds i : ℕ) → M (Unit {0})
unfolding connect_to_srv
connect_rounds ip zero i = pure tt
connect_rounds ip (suc rounds) i = do
  printf "connecting %d\n" (Arg.int i ∷ [])
  connect_to_srv ip
  connect_rounds ip rounds (i + 1)

unfoldable pub client_main : (args : List Bytes) → M (Unit {0})
unfolding connect_rounds
client_main (ip ∷ num ∷ []) = do connect_rounds ip (pos_part (atoi num)) 0; exit 0
client_main [] = handle_err "usage: a.out <IPaddress> <Num>"
client_main (_ ∷ []) = handle_err "usage: a.out <IPaddress> <Num>"
client_main (_ ∷ _ ∷ _ ∷ _) = handle_err "usage: a.out <IPaddress> <Num>"
