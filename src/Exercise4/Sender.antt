-- ===== src/Exercise4/Sender.antt =====
-- network-programming-2013/exercise4/client.c: a client that sends a given number of bytes and takes the time.
pub mod Amount
pub mod Volume
use course_code.Base.{
  ℕ, zero, suc, ◌+◌, ◌/◌, ◌%◌, not, String, List, [], ◌∷◌, ltb, ◌==◌, if◌then◌else◌, take,
}
use course_code.Base.Int.{ℤ, pos, negsuc, size_of_int, int_of_size, pos_part}
use course_code.Posix.Call.{Bytes, Call, Arg, Kind}
use course_code.Posix.Run.{M, sys, pure, exit, finish, Outcome, printf, ◌>>=◌, ◌>>◌}
use course_code.Posix.Libc.{codes, atoi}
use course_code.Posix.Io.{call, write, stored}
use course_code.Posix.Loop.{times}
use course_code.Posix.Program.{handle_err, need, write_or_die, dotted_addr, elapsed}

abbrev pub serv_port : ℕ
serv_port = 50011

-- `garbage n` is what an array of `n` bytes on the stack holds.
-- An array whose size is not positive is undefined.
unfoldable pub send_data : (garbage : ℕ → Bytes) → (sockfd : ℕ) → (count bytes : ℤ) → M (Unit {0})
unfolding write_or_die
send_data garbage sockfd count (pos zero) = finish Outcome.fault
send_data garbage sockfd count (pos (suc n)) =
    times (pos_part count)
      (write_or_die "write error to server" sockfd (take (suc n) (garbage (suc n))))
send_data garbage sockfd count (negsuc _) = finish Outcome.fault

unfoldable pub elapsed_time : (start end : List ℕ) → Bytes → M (Unit {0})
elapsed_time start end str =
    printf "The elapsed time for %s is %fs\n" (Arg.text str ∷ elapsed start end ∷ [])

-- The number of calls of `write`, rounded up; the sizes are `size_t`, the count is an `int`.
unfoldable pub write_count : (total_bytes each_bytes : ℕ) → ℤ
write_count total_bytes each_bytes =
    if total_bytes % each_bytes == 0
    then int_of_size (total_bytes / each_bytes)
    else int_of_size (total_bytes / each_bytes + 1)

-- `main` behind `socket`. A division by zero is undefined.
unfoldable pub measured :
    (garbage : ℕ → Bytes)
    → (ip : Bytes) → (total_bytes each_bytes : ℕ) → (sockfd : ℕ) → M (Unit {0})
unfolding need elapsed_time send_data write_count
measured garbage ip total_bytes each_bytes sockfd = do
  start1 ← sys Call.gettimeofday
  need "connecting error" (Call.connect sockfd (dotted_addr ip serv_port))
  end1 ← sys Call.gettimeofday
  elapsed_time (stored start1) (stored end1) (codes "establising the connection")
  if each_bytes == 0 then finish Outcome.fault else pure tt
  start2 ← sys Call.gettimeofday
  send_data garbage sockfd (write_count total_bytes each_bytes) (int_of_size each_bytes)
  end2 ← sys Call.gettimeofday
  elapsed_time (stored start2) (stored end2) (codes "sending data")
  call (Call.close sockfd)
  exit 0

unfoldable pub transfer :
    (garbage : ℕ → Bytes) → (ip : Bytes) → (total_bytes each_bytes : ℕ) → M (Unit {0})
unfolding need measured
transfer garbage ip total_bytes each_bytes = do
  sockfd ← need "socket error" (Call.socket Kind.stream)
  measured garbage ip total_bytes each_bytes sockfd

abbrev usage : String
usage = "usage: client <IP address> <total B> <eachline B>"

unfoldable pub main : (garbage : ℕ → Bytes) → (args : List Bytes) → M (Unit {0})
unfolding transfer
main garbage (ip ∷ total ∷ each ∷ []) =
    if ltb (size_of_int (atoi total)) (size_of_int (atoi each))
    then handle_err "usage: total bytes must not be less than single ones"
    else transfer garbage ip (size_of_int (atoi total)) (size_of_int (atoi each))
main garbage [] = handle_err usage
main garbage (_ ∷ []) = handle_err usage
main garbage (_ ∷ _ ∷ []) = handle_err usage
main garbage (_ ∷ _ ∷ _ ∷ _ ∷ _) = handle_err usage
