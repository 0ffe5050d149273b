-- ===== src/Examples/Datagrams.antt =====
-- The services over datagrams at concrete inputs.
use course_code.Base.{inl, inr, List, [], ◌∷◌, arith}
use course_code.Posix.Call.{Bytes, Reply, done, SockAddr, Host}
use course_code.Posix.Io.{chunks}
use course_code.Posix.Loop.{while_read, forever}
use course_code.Posix.Echo.{Serves}
use course_code.Posix.Program.{write_unchecked}
use course_code.Exercise4.Udp.{str_cli, str_echo}
use course_code.Exercise4.Udp.Datagrams.{datagrams_by, datagrams, str_echo-Serves_datagrams}
use course_code.Exercise4.Udp.Network.{Carries, answers_are_questions}

abbrev question : Bytes
question = 97 ∷ 10 ∷ []

-- The server takes the question and sends it twice.
abbrev serving : List Reply
serving = done 2 question ∷ done 2 [] ∷ done 2 [] ∷ []

str_echo-Serves_datagrams_example :
    Serves (datagrams_by 4) 4 (λ buf. buf ∷ buf ∷ []) (str_echo 4 serving)
str_echo-Serves_datagrams_example = str_echo-Serves_datagrams 4 serving

-- The client sends its question and takes one answer; the other one is lost.
abbrev asking : List Reply
asking = done 2 question ∷ done 2 [] ∷ done 2 question ∷ done 2 [] ∷ []

abbrev host : SockAddr
host = record { host = Host.dotted (49 ∷ []); port = 50011 }

question-Carries :
    Carries (datagrams 3 (str_cli host 3 [] asking).trace) (chunks 4 (str_echo 4 serving).trace)
unfolding str_cli str_echo while_read forever write_unchecked
question-Carries p (inl e) = inl e
question-Carries p (inr h) = absurd h

answer-Carries :
    Carries (datagrams 4 (str_echo 4 serving).trace) (chunks 3 (str_cli host 3 [] asking).trace)
unfolding str_cli str_echo while_read forever write_unchecked
answer-Carries p (inl e) = inl e
answer-Carries p (inr h) = absurd h

answers_are_questions_example :
    Carries (chunks 0 (str_cli host 3 [] asking).trace) (chunks 3 (str_cli host 3 [] asking).trace)
answers_are_questions_example =
    answers_are_questions host 3 4 [] asking serving (omega arith) question-Carries answer-Carries
