-- ===== src/Exercise4/Udp/Network.antt =====
-- The client and the server with a network between them that may lose, repeat and reorder datagrams.
use course_code.Base.{ℕ, ◌≤◌, inl, inr, List, [], ◌∷◌}
use course_code.Base.Members.{In, In-append_left}
use course_code.Posix.Call.{Bytes, Reply, SockAddr}
use course_code.Posix.Io.{chunks}
use course_code.Posix.Relay.{IsPrefix, relayed}
use course_code.Posix.Echo.{Serving-IsPrefix}
use course_code.Posix.Connection.{IsPrefix-of_Fits}
use course_code.Exercise4.Udp.{str_cli, str_echo}
use course_code.Exercise4.Udp.Datagrams.{
  datagrams, str_cli-Relays_datagrams, str_echo-Serves_datagrams,
}

In-front :
    {A : Type 0} (a : A) (made wanted : List A) → IsPrefix made wanted → In a made → In a wanted
In-front a made wanted (tail, e) h = rw (← e) (In-append_left a made tail h)

In-once : (p : Bytes) (cs : List Bytes) → In p (relayed (λ buf. buf ∷ []) cs) → In p cs
unfolding relayed
In-once p [] h = h
In-once p (c ∷ cs) (inl e) = inl e
In-once p (c ∷ cs) (inr h) = inr (In-once p cs h)

In-twice : (p : Bytes) (cs : List Bytes) → In p (relayed (λ buf. buf ∷ buf ∷ []) cs) → In p cs
unfolding relayed
In-twice p [] h = h
In-twice p (c ∷ cs) (inl e) = inl e
In-twice p (c ∷ cs) (inr (inl e)) = inl e
In-twice p (c ∷ cs) (inr (inr h)) = inr (In-twice p cs h)

-- Every datagram that comes out of the network was sent into it.
abbrev pub Carries : (sent taken : List Bytes) → Type 0
Carries sent taken = (p : Bytes) → In p taken → In p sent

-- On all answers to udp-client.c and udp-server.c, where the network between them delivers, both
-- ways, only datagrams that the other sent, in any order, any number of times or not at all, and
-- `sockfd` is none of the client's standard streams: every datagram that the client takes is one of
-- the pieces of its own input.
pub answers_are_questions :
    (server : SockAddr) (sockfd servfd : ℕ) (recvline : Bytes) (rs rs' : List Reply)
    → let client = str_cli server sockfd recvline rs in
      let service = str_echo servfd rs' in
      2 ≤ sockfd
      → Carries (datagrams sockfd client.trace) (chunks servfd service.trace)
      → Carries (datagrams servfd service.trace) (chunks sockfd client.trace)
      → Carries (chunks 0 client.trace) (chunks sockfd client.trace)
answers_are_questions server sockfd servfd recvline rs rs' no_stream there back p h =
    let client = str_cli server sockfd recvline rs in
    let service = str_echo servfd rs' in
    let asks =
      IsPrefix-of_Fits client.outcome _ _
        (str_cli-Relays_datagrams sockfd no_stream server recvline rs) in
    let answers = Serving-IsPrefix service.outcome _ _ _ (str_echo-Serves_datagrams servfd rs') in
    let served = In-twice p (chunks servfd service.trace) (In-front p _ _ answers (back p h)) in
    In-once p (chunks 0 client.trace) (In-front p _ _ asks (there p served))
