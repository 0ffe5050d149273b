-- ===== src/Exercise3/Session.antt =====
-- network-programming-2013/exercise3: client.c and a child of server.c at the two ends of one
-- connection.
use course_code.Base.{ℕ, ◌≤◌, List, [], ◌++◌}
use course_code.Posix.Call.{Bytes, Reply}
use course_code.Posix.Io.{chunks}
use course_code.Posix.Relay.{IsPrefix, relayed}
use course_code.Posix.Echo.{Serving-IsPrefix}
use course_code.Posix.Connection.{Link, Link-asked, joined, Whole, IsPrefix-trans, IsPrefix-of_Fits}
use course_code.Exercise3.Client as Client
use course_code.Exercise3.Client.Sending.{str_cli-Relays}
use course_code.Exercise3.Server as Server
use course_code.Exercise3.Server.Doubling.{str_echo-Serves}

-- On all answers to the client and to the child of the server, in every order of their calls that one
-- connection between `sockfd` and `connfd` allows, where each `write` through it moves all that it is
-- given and `sockfd` is none of the client's standard streams: what comes back to the client is a
-- front part of the pieces that the child read, each twice, and these pieces together are a front
-- part of the client's input.
pub session-doubles :
    (sockfd connfd : ℕ) (recvline there_end back_end : Bytes) (rs rs' : List Reply)
    → let client = Client.str_cli sockfd recvline rs in
      let server = Server.str_echo connfd rs' in
      2 ≤ sockfd
      → Link sockfd connfd there_end back_end [] [] client.trace server.trace
      → Whole sockfd client.trace
      → Whole connfd server.trace
      → IsPrefix
          (joined (chunks sockfd client.trace))
          (relayed (λ buf. buf ++ buf) (chunks connfd server.trace))
        × IsPrefix (joined (chunks connfd server.trace)) (joined (chunks 0 client.trace))
session-doubles sockfd connfd recvline there_end back_end rs rs' no_stream link whole whole' =
    let client = Client.str_cli sockfd recvline rs in
    let server = Server.str_echo connfd rs' in
    let sends = IsPrefix-of_Fits client.outcome _ _ (str_cli-Relays sockfd no_stream recvline rs) in
    let doubled = Serving-IsPrefix server.outcome _ _ _ (str_echo-Serves connfd rs') in
    let (there, back) = Link-asked link whole whole' in
    (IsPrefix-trans _ _ _ back doubled, IsPrefix-trans _ _ _ there sends)
