-- ===== src/Network/Scheduler/Tests.antt =====
-- Examples for the scheduler: three messages, two at a time, each of which waits twice at most.
use myblob.Base.{
  ℕ, ◌+◌, ◌≡◌, refl, Option, none, some, List, [], ◌∷◌, ltb, if◌then◌else◌, length, arith,
}
use myblob.Network.Scheduler.{
  Status, SocketAnswer, Loop, start, send_receive, loop_round, refill, after_submit, check_stop,
  submit, emplace, emplace_local_request, goes_on, begin_task, answered, after_complete, complete,
  advance, remove_at, erase,
}
use myblob.Network.Scheduler.Counts.{occurrences}
use myblob.Network.Scheduler.Sound.{Sound, send_receive-Sound, start-Sound}
use myblob.Network.Scheduler.Left.{send_receive-leaves}
use myblob.Network.Scheduler.Timeout.{Forgotten, send_receive-timeout}

abbrev patient : ℕ → ℕ → Status
patient c m = if ltb c 5 then Status.waiting else Status.finished

abbrev three : List ℕ
three = 7 ∷ 8 ∷ 9 ∷ []

-- A socket whose `submit` returns the number of new requests.
abbrev gives : Option ℕ → SocketAnswer
gives o = record { completed = o; returned = λ n. some n }

abbrev kernel : List SocketAnswer
kernel =
    gives (some 0)
    ∷ gives (some 1)
    ∷ gives none
    ∷ gives (some 0)
    ∷ gives (some 1)
    ∷ gives (some 0)
    ∷ gives (some 0)
    ∷ gives (some 0)
    ∷ gives (some 0)
    ∷ []

finished_order : (send_receive patient 2 kernel (start three)).done ≡ 8 ∷ 9 ∷ 7 ∷ []
unfolding send_receive start loop_round refill after_submit check_stop submit emplace
    emplace_local_request goes_on begin_task answered after_complete complete advance remove_at
    erase
finished_order = refl

abbrev ended : Loop
ended = send_receive patient 2 kernel (start three)

send_receive-Sound_example : Sound patient 2 three ended
send_receive-Sound_example =
    send_receive-Sound patient 2 three kernel (start three) (start-Sound patient 2 three)

send_receive-leaves_example :
    (length ended.queue ≡ 0)
    × (occurrences 9 ended.done + occurrences 9 ended.tasks ≡ occurrences 9 three)
unfolding send_receive start loop_round refill after_submit check_stop submit emplace
    emplace_local_request goes_on begin_task answered after_complete complete advance remove_at
    erase
send_receive-leaves_example = send_receive-leaves patient 2 three kernel 9 refl refl refl

-- The poll has timed out.
abbrev timed_out : SocketAnswer
timed_out = record { completed = none; returned = λ n. some 0 }

send_receive-timeout_example :
    Forgotten patient 3 three (send_receive patient 3 (timed_out ∷ kernel) (start three))
send_receive-timeout_example =
    send_receive-timeout patient 3 three timed_out kernel (omega arith) (omega arith)
      (λ c m l. ground arith) (λ n. refl)

-- A timeout is linked to each request.
abbrev linked : Option ℕ → SocketAnswer
linked o = record { completed = o; returned = λ n. some (n + n) }
