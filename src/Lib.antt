-- ===== src/Lib.antt =====
-- The network programming exercises of network-programming-2013: about forty small UNIX programs in
-- C. Each is a process of its own, and what joins them are pipes, FIFOs, sockets, signals, and in
-- two exercises a file in shared memory. This library models them and proves what they do on every
-- behaviour of the kernel.
--
-- A program is a function of the list of the answers that the kernel gives to its calls, in their
-- order (Posix/Run.antt). Its result is an outcome, the trace of its calls with their answers, and
-- the answers that are left. The outcome says whether it returned, exited with a status, waits for
-- an answer, ran into undefined behaviour, or goes on for ever without a call. A list that ends
-- early is a process that waits, so an endless server is the family of its finite prefixes.
--
-- Posix: the calls and their answers (Call), runs (Run), loops and their rule (Loop), the functions
-- of the C library on data (Libc), reading and writing (Io), and the idioms that the programs share
-- (Program), which stand for the same lines of many files. Relay, Writes, Echo and Finish hold the
-- lemmas on loops that read and hand on, and Protocol and Boot the order of the calls of a
-- concurrent server. Checked is about failures that are noticed, Stuck about programs that do not
-- come through, Sends about what a whole program puts out, Connection about two programs at the
-- ends of one connection or of two FIFOs, Forward about programs that hand on between two
-- descriptors, Silent about those that have no part in some kind of event, such as a child up to
-- its execve, Files about what the descriptors of a process stand for behind its calls, and
-- FileLock holds the lock of three programs.
--
-- Exercise1: DoublerSyscall is exercise1/doubler-syscall.c, Doubler doubler.c, ProcessInfo
-- question-1.c, FileStat question-3.c, Options question-4.c and question-5.c, in Options/Order and
-- Options/Whole with what the two have in common (Copies, Printing and Reading are about one file,
-- GivingUp about failures), and Agreement compares the two doublers.
-- Exercise2: Children is exercise2/question-2.c and question-3.c, PipeDoubler question-6.c,
-- Arguments test.c.
-- Exercise3: Filters is exercise3/reader.c, doubler.c and converter.c, ExitStatus question-1.c and
-- question-1-pipe.c, in ExitStatus/Chain with doubler.c at the other end of its pipe, which
-- ExitStatus/Wiring puts there, Fifo question-2.c, in Fifo/Conversion with converter.c at the other
-- ends of its FIFOs, which Fifo/Wiring puts there, Counter question-4.c, the part under its lock as
-- steps of many processes (StepsLeft counts them, Numbers has what they print, Ending has what they
-- leave behind), and in Counter/Program the whole of one process, Overlap question-5.c, Server
-- server.c, Client client.c, and Session joins both by their connection.
-- Exercise4: Sender is exercise4/client.c, Sink server.c, EchoServer echoserver.c, EchoClient
-- client-url.c, Udp udp-client.c and udp-server.c, in Udp/Network with the network between them,
-- Turns the loop of incr.c with lock.c, whose theorems stand in the modules below it, and in
-- Turns/Setup what stands in front of it. EchoSessions joins a client and a child of the server by
-- their connection, for this echo service and for that of exercise5.
-- Exercise5: Echo is exercise5/q3-client.c and q3-server.c, Shutdown q4-client.c and q4-server.c,
-- Backlog q5-client.c and q5-server.c.
-- Exercise6: Datagram is exercise6/q1-client.c and q1-server.c, Capacity q2-pipe.c, q2-tcp-client.c
-- and q2-tcp-server.c, SocketOptions q2-tcp-getsockopt.c and q3.c.
-- Break: Client and Session are break-exercise/client.c. Servers takes seven of the servers
-- together, and Failures the reports of seven short programs.
--
-- A function of a program keeps its name; `main` of a second program in a file has a name of its
-- own.
--
-- Choices. The result of a call that moves bytes is bounded by what was asked for, whatever the
-- answer says. What an array holds before it is written, what stands behind a literal and other
-- garbage are parameters. A sum of seconds and microseconds as a float is kept as its two integers.
-- The functions of a handler are definitions of their own, and a handler runs between two calls in
-- no run. Loops run on as much fuel as there are answers, and each round takes an answer, so the
-- fuel is enough: the rule forever_rule has no case for its end. The loop of Doubler has the length
-- of its stream and one more as fuel, since each line takes a byte. The processes of Turns and
-- Counter are steps on a shared memory, under any schedule. Those of Counter load and store the
-- counter in two steps; in Turns a test, the store of a character and the increment are one step
-- each, all made while the process has the lock. The counter of Counter is the 32 bits of its int.
--
-- Undefined behaviour is an outcome where a definition tests for it: an access over the end of an
-- array, an array of no size, a sum that no int holds. What an array holds before it is written is
-- a parameter, and so is what is read from behind a literal: neither is taken for a fault. The
-- variable byte of the session has no value until it is set, and to read it before that is
-- undefined. A child that ends by _exit makes this call in front of its end where it has printed
-- before, since what the C library has buffered is then lost.
--
-- Not modelled: exercise2/question-1.c, which does not compile; exercise5/unpv13e and
-- exercise6/unpv22e, copies of the library of a textbook; the shell scripts of linux-fun-2012.
pub mod Base
pub mod Posix
pub mod Exercise1
pub mod Exercise2
pub mod Exercise3
pub mod Exercise4
pub mod Exercise5
pub mod Exercise6
pub mod Break
pub mod Servers
pub mod EchoSessions
pub mod Failures
pub mod Examples
