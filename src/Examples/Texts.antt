-- ===== src/Examples/Texts.antt =====
-- Texts and numbers: the port of the dialogue, the status of a child, and the like.
use course_code.Base.{List, All, ◌≡◌, [], ◌∷◌, ◌++◌, ◌+◌, ◌-◌, arith, length}
use course_code.Posix.Call.{Bytes, Reply, Errno, done, fail}
use course_code.Posix.Run.{ok}
use course_code.Posix.Io.{gather}
use course_code.Posix.Libc.{codes, atoi, decimal, htons_int}
use course_code.Break.Session.{request, parse_request}
use course_code.Break.Session.Words.{Printed, parse_request-line}
use course_code.Break.Client.{port_text}
use course_code.Break.Client.Port.{port_text-decimal}
use course_code.Exercise1.Doubler.{cut, double_print}
use course_code.Exercise1.Doubler as Doubler
use course_code.Exercise1.Doubler.Lines.{lines, joined, Lines, put_by, double_print-Lines}
use course_code.Posix.Relay.{Fits, relayed}
use course_code.Exercise3.ExitStatus.{pr_exit}
use course_code.Exercise3.ExitStatus.Decoding.{stop, encode, line, pr_exit-encode}

port_text-decimal_example :
    let recvline = codes "port" ++ (32 ∷ (decimal 50123 ++ (b'\n' ∷ codes "old"))) in
    htons_int (atoi (port_text recvline (length (codes "port") + length (decimal 50123) + 2)))
    ≡ 50123
port_text-decimal_example = port_text-decimal (codes "port") (codes "old") b'\n' 50123 (omega arith)

pr_exit-encode_example : pr_exit (encode (stop 19)) [] ≡ record {
  outcome = ok tt;
  trace = record { call = line (stop 19); reply = done 0 [] } ∷ [];
  rest = [];
}
pr_exit-encode_example = pr_exit-encode (stop 19) [] (omega arith, omega arith)

abbrev path_text : Bytes
path_text = codes "tc/hosts"

abbrev port_digits : Bytes
port_digits = codes "0123"

path_text-Printed : All Printed path_text
path_text-Printed = ground arith

port_digits-Printed : All Printed port_digits
port_digits-Printed = ground arith

-- "F etc/hosts 50123"
parse_request-line_example :
    parse_request
      (b'F' ∷ 32 ∷ b'e' ∷ (path_text ++ (32 ∷ b'5' ∷ (port_digits ++ (b'\n' ∷ 0 ∷ 7 ∷ [])))))
    ≡ request (record {
      left = b'F' ∷ 0 ∷ b'e' ∷ (path_text ++ (0 ∷ b'5' ∷ (port_digits ++ (0 ∷ 0 ∷ 7 ∷ []))));
      path = b'e' ∷ path_text;
      port = b'5' ∷ port_digits;
    })
parse_request-line_example =
    parse_request-line b'e' path_text b'5' port_digits (7 ∷ []) (ground arith) path_text-Printed
      (ground arith) port_digits-Printed

-- Two lines, of which the second has no newline; the last `fputs` fails.
abbrev two_lines : Bytes
two_lines = codes "ab" ++ (b'\n' ∷ codes "c")

abbrev puts : List Reply
puts = done 1 [] ∷ done 1 [] ∷ done 1 [] ∷ fail Errno.eintr ∷ []

double_print-Lines_example :
    let ls = lines (length two_lines + 1) two_lines in
    let r = double_print two_lines puts in
    (joined ls ≡ two_lines)
    × Lines (Doubler.max_line - 1) ls
    × Fits r.outcome (gather put_by r.trace) (relayed (λ l. cut l ++ cut l) ls)
double_print-Lines_example = double_print-Lines two_lines puts
