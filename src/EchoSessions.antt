-- ===== src/EchoSessions.antt =====
-- The two echo services of network-programming-2013, each with a client and a child of its server at the
-- two ends of one connection: exercise4/client-url.c with echoserver.c, exercise5/q3-client.c with
-- q3-server.c.
use course_code.Base.{ℕ, ◌≤◌, List, []}
use course_code.Posix.Call.{Bytes, Reply}
use course_code.Posix.Run.{M}
use course_code.Posix.Io.{asked_by, chunks}
use course_code.Posix.Relay.{IsPrefix, Relays}
use course_code.Posix.Echo.{Serves, Serving-IsPrefix}
use course_code.Posix.Connection.{Link, Link-asked, joined, Whole, IsPrefix-trans, IsPrefix-of_Fits}
use course_code.Exercise4.EchoClient as EchoClient
use course_code.Exercise4.EchoClient.Sending.{str_cli-Relays_once}
use course_code.Exercise4.EchoServer as EchoServer
use course_code.Exercise4.EchoServer.Echoing.{str_echo-Serves_once}
use course_code.Exercise5.Echo as Echo
use course_code.Exercise5.Echo.Sending.{cli_str-Relays}
use course_code.Exercise5.Echo.Echoing.{str_echo-Serves_back}

-- Those of exercise 4 and of exercise 5.
pub data Service : Type 0 where
  by_name with_handlers : Service

abbrev pub client_of : Service → (sockfd : ℕ) → (recvline : Bytes) → M (Unit {0})
client_of by_name = EchoClient.str_cli
client_of with_handlers = Echo.cli_str

abbrev pub child_of : Service → (connfd : ℕ) → M (Unit {0})
child_of by_name = EchoServer.str_echo
child_of with_handlers = Echo.str_echo

client-Relays :
    (s : Service) (sockfd : ℕ) (recvline : Bytes) (rs : List Reply)
    → 2 ≤ sockfd
    → Relays (asked_by sockfd) 0 (λ buf. buf) (client_of s sockfd recvline rs)
client-Relays by_name sockfd recvline rs no_stream =
    str_cli-Relays_once sockfd no_stream recvline rs
client-Relays with_handlers sockfd recvline rs no_stream =
    cli_str-Relays sockfd no_stream recvline rs

child-Serves :
    (s : Service) (connfd : ℕ) (rs : List Reply)
    → Serves (asked_by connfd) connfd (λ buf. buf) (child_of s connfd rs)
child-Serves by_name = str_echo-Serves_once
child-Serves with_handlers = str_echo-Serves_back

-- For both services, on all answers to the client and to the child of the server, in every order of
-- their calls that one connection between `sockfd` and `connfd` allows, where each `write` through it
-- moves all that it is given and `sockfd` is none of the client's standard streams: what comes back to
-- the client is a front part of its own input, byte for byte.
pub session-echoes :
    (s : Service) (sockfd connfd : ℕ) (recvline there_end back_end : Bytes) (rs rs' : List Reply)
    → let client = client_of s sockfd recvline rs in
      let server = child_of s connfd rs' in
      2 ≤ sockfd
      → Link sockfd connfd there_end back_end [] [] client.trace server.trace
      → Whole sockfd client.trace
      → Whole connfd server.trace
      → IsPrefix (joined (chunks sockfd client.trace)) (joined (chunks 0 client.trace))
session-echoes s sockfd connfd recvline there_end back_end rs rs' no_stream link whole whole' =
    let client = client_of s sockfd recvline rs in
    let server = child_of s connfd rs' in
    let sends =
      IsPrefix-of_Fits client.outcome _ _ (client-Relays s sockfd recvline rs no_stream) in
    let echoed = Serving-IsPrefix server.outcome _ _ _ (child-Serves s connfd rs') in
    let (there, back) = Link-asked link whole whole' in
    IsPrefix-trans _ _ _ back (IsPrefix-trans _ _ _ echoed (IsPrefix-trans _ _ _ there sends))
