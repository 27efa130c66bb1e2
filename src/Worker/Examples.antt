-- ===== src/Worker/Examples.antt =====
-- The worker's accounts over a short run: an interrupted poll, an overrun and a datagram.
use nfqttl.Base.{refl, arith, List, [], ◌∷◌, some, Post, length}
use nfqttl.Base.Words.{Bytes}
use nfqttl.Worker.{Socket, Event, poll_error, recv_error, datagram, run, start}
use nfqttl.Worker.Accounts.{IsBalanced, run-IsBalanced}

-- Every send takes the whole message.
abbrev sends : Socket
sends = record { sendto = λ k v. some (length v); errno = λ k. 0 }

abbrev short_packet : Bytes
short_packet =
    36 ∷ 0 ∷ 0 ∷ 0 ∷ 0 ∷ 3 ∷ 1 ∷ 0 ∷ 1 ∷ 0 ∷ 0 ∷ 0 ∷ 0 ∷ 0 ∷ 0 ∷ 0 ∷ 2 ∷ 0 ∷ 25 ∷ 64 ∷ 11 ∷ 0 ∷ 1
    ∷ 0 ∷ 0 ∷ 0 ∷ 0 ∷ 42 ∷ 8 ∷ 0 ∷ 2 ∷ 0 ∷ 4 ∷ 0 ∷ 9 ∷ 0 ∷ []

abbrev events : List Event
events = poll_error 4 ∷ recv_error 105 ∷ datagram short_packet 36 0 ∷ []

run-IsBalanced_example : Post IsBalanced (run sends 6464 64 events (start []))
run-IsBalanced_example =
    run-IsBalanced sends 6464 64 (omega arith) events (start []) (omega arith)
      (record { bytes = tt; answered = refl; split = omega arith; cut = omega arith })
