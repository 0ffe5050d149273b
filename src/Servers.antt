-- ===== src/Servers.antt =====
-- The concurrent servers of network-programming-2013: exercise3/server.c, exercise4/server.c and
-- echoserver.c, exercise5/q3-server.c and q4-server.c, exercise6/q2-tcp-server.c, and that of
-- break-exercise/client.c.
use course_code.Posix.Call.{Signal}
use course_code.Posix.Call.{Call}
use course_code.Posix.Boot.{Handling}
use course_code.Exercise3.Server as Doubling
use course_code.Exercise4.Sink as Sink
use course_code.Exercise4.EchoServer as EchoServer
use course_code.Exercise5.Echo as Echo
use course_code.Exercise5.Shutdown as Shutdown
use course_code.Exercise6.Capacity as Capacity
use course_code.Break.Session.{Session}
use course_code.Break.Client as Client

abbrev pub on_sigchld : Handling
on_sigchld = record { signal = Signal.sigchld; function = "sig_chld"; reported = "waitpid error" }

abbrev pub on_sigint : Handling
on_sigint = record { signal = Signal.sigint; function = "sig_int"; reported = "sigint error" }

abbrev pub on_int : Handling
on_int = record { signal = Signal.sigint; function = "sig_int"; reported = "sigaction error" }
