-- ===== src/Examples/Agreeing.antt =====
-- Two doublers on one input, and the two ends of one connection.
use course_code.Base.{◌+◌, ◌≡◌, refl, List, [], ◌∷◌, ◌++◌, length, arith}
use course_code.Posix.Call.{Bytes, Reply, done}
use course_code.Posix.Run.{ok}
use course_code.Posix.Io.{gather, chunks, sent}
use course_code.Posix.Relay.{IsPrefix, relayed}
use course_code.Posix.Loop.{while_read, forever, times}
use course_code.Posix.Program.{write_or_die, write_unchecked, show_answer}
use course_code.Exercise1.Doubler.{double_lines, fgets, split_line, put}
use course_code.Exercise1.Doubler as Doubler
use course_code.Exercise1.Doubler.Lines.{lines, put_by}
use course_code.Exercise1.DoublerSyscall as DoublerSyscall
use course_code.Exercise1.Agreement.{doublers-agree}
use course_code.Exercise4.EchoClient as EchoClient
use course_code.Exercise4.EchoServer as EchoServer
use course_code.EchoSessions.{by_name, session-echoes}
use course_code.Exercise3.Client as Client
use course_code.Exercise3.Server as Server
use course_code.Exercise3.Session.{session-doubles}
use course_code.Posix.Connection.{Link, over, left_moves, right_moves, joined, Whole}

-- One line, of two bytes.
abbrev input : Bytes
input = 97 ∷ 10 ∷ []

abbrev two_puts : List Reply
two_puts = done 1 [] ∷ done 1 [] ∷ []

abbrev one_line : List Reply
one_line = done 2 input ∷ done 2 [] ∷ done 2 [] ∷ done 0 [] ∷ []

by_line : chunks 0 (DoublerSyscall.double_print 0 one_line).trace ≡ lines (length input + 1) input
unfolding DoublerSyscall.double_print lines fgets split_line while_read forever times
by_line = refl

stdio-returns : (Doubler.double_print input two_puts).outcome ≡ ok tt
unfolding Doubler.double_print double_lines fgets split_line put times
stdio-returns = refl

direct-returns : (DoublerSyscall.double_print 0 one_line).outcome ≡ ok tt
unfolding DoublerSyscall.double_print while_read forever times
direct-returns = refl

doublers-agree_example :
    gather put_by (Doubler.double_print input two_puts).trace
    ≡ sent 1 (DoublerSyscall.double_print 0 one_line).trace
doublers-agree_example =
    doublers-agree input 0 two_puts one_line (omega arith, (omega arith, tt)) by_line stdio-returns
      direct-returns

-- The client reads its line, sends it, shows the answer, and finds its input at an end.
abbrev client_side : List Reply
client_side = done 2 input ∷ done 2 [] ∷ done 2 input ∷ done 2 [] ∷ done 0 [] ∷ []

abbrev server_side : List Reply
server_side = done 2 input ∷ done 2 [] ∷ []

-- The client asks, the server reads and answers, and the client goes on.
in_order :
    Link 3 4 [] [] [] []
      (EchoClient.str_cli 3 [] client_side).trace
      (EchoServer.str_echo 4 server_side).trace
unfolding EchoClient.str_cli EchoServer.str_echo relayed while_read forever write_or_die
    write_unchecked show_answer
in_order = left_moves _ [] refl (
    left_moves _ [] refl (
      right_moves _ [] refl (
        right_moves _ [] refl
          (left_moves _ [] refl (left_moves _ [] refl (left_moves _ [] refl over))))))

client-Whole : Whole 3 (EchoClient.str_cli 3 [] client_side).trace
unfolding EchoClient.str_cli while_read forever write_or_die write_unchecked show_answer
client-Whole = (refl, (refl, (refl, (refl, (refl, tt)))))

server-Whole : Whole 4 (EchoServer.str_echo 4 server_side).trace
unfolding EchoServer.str_echo while_read forever write_unchecked
server-Whole = (refl, (refl, tt))

session-echoes_example :
    IsPrefix
      (joined (chunks 3 (EchoClient.str_cli 3 [] client_side).trace))
      (joined (chunks 0 (EchoClient.str_cli 3 [] client_side).trace))
session-echoes_example =
    session-echoes by_name 3 4 [] [] [] client_side server_side (omega arith) in_order client-Whole
      server-Whole

-- The doubling client shows the two copies one after the other.
abbrev doubling_client : List Reply
doubling_client =
    done 2 input ∷ done 2 [] ∷ done 2 input ∷ done 2 [] ∷ done 2 input ∷ done 2 [] ∷ done 0 [] ∷ []

abbrev doubling_child : List Reply
doubling_child = done 2 input ∷ done 2 [] ∷ done 2 [] ∷ []

doubling_order :
    Link 3 4 [] [] [] []
      (Client.str_cli 3 [] doubling_client).trace
      (Server.str_echo 4 doubling_child).trace
unfolding Client.str_cli Server.str_echo relayed while_read forever write_or_die write_unchecked
    show_answer
doubling_order = left_moves _ [] refl (
    left_moves _ [] refl (
      right_moves _ [] refl (
        right_moves _ [] refl (
          right_moves _ [] refl (
            left_moves _ input refl (
              left_moves _ input refl
                (left_moves _ [] refl (left_moves _ [] refl (left_moves _ [] refl over)))))))))

doubling-Whole :
    Whole 3 (Client.str_cli 3 [] doubling_client).trace
    × Whole 4 (Server.str_echo 4 doubling_child).trace
unfolding Client.str_cli Server.str_echo while_read forever write_or_die write_unchecked show_answer
doubling-Whole =
    ((refl, (refl, (refl, (refl, (refl, (refl, (refl, tt))))))), (refl, (refl, (refl, tt))))

session-doubles_example :
    IsPrefix
      (joined (chunks 3 (Client.str_cli 3 [] doubling_client).trace))
      (relayed (λ buf. buf ++ buf) (chunks 4 (Server.str_echo 4 doubling_child).trace))
    × IsPrefix
        (joined (chunks 4 (Server.str_echo 4 doubling_child).trace))
        (joined (chunks 0 (Client.str_cli 3 [] doubling_client).trace))
session-doubles_example =
    session-doubles 3 4 [] [] [] doubling_client doubling_child (omega arith) doubling_order
      doubling-Whole.0 doubling-Whole.1
