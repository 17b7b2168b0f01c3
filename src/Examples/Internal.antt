-- ===== src/Examples/Internal.antt =====
-- The internal API, the promises and the relay at concrete inputs.
use pvpentech_core.Common.{
  ℕ, ◌+◌, ◌≤◌, ◌≡◌, refl, subst, true, false, [], ◌∷◌, some, arith, All, any, keep, lookup, insert,
  is_some, ltb, if◌then◌else◌,
}
use pvpentech_core.Commands.{Texts, answered}
use pvpentech_core.Connections.{open_state}
use pvpentech_core.Database.Client.{Finds}
use pvpentech_core.Database.Memory.{
  memory, memory-IsClient, memory-IsWorking, keep-Finds, keep_empty,
}
use pvpentech_core.Examples.{context, waiting_event, db}
use pvpentech_core.InternalApi.Idempotency.{
  Redis, IsRunning, Response, cached_value, answered as first_answer, replayed, serve,
  duplicate_request,
}
use pvpentech_core.InternalApi.Idempotency.Laws.{IsKept, serve-serve}
use pvpentech_core.InternalApi.Remote.{Line}
use pvpentech_core.InternalApi.Sessions.{stop}
use pvpentech_core.InternalApi.Sessions.Stop
use pvpentech_core.InternalApi.Sessions.Stop.{stop-Ends}
use pvpentech_core.Pending.{fulfilled}
use pvpentech_core.Pending.Runs.{
  Desk, empty_desk, ask, answer, Reach, start, later, asks, answers, is_settled, Reach-once,
}
use pvpentech_core.Pending.Runs.Counts.{times, is_of}
use pvpentech_core.Relay.{Broker, Relay, is_waiting}
use pvpentech_core.Relay.Drain.{IsPaging}
use pvpentech_core.Relay.Drain.Ticks.{ticks, is_unpublished, ticks-published}
use pvpentech_core.Relay.Laws.{IsLive}
use pvpentech_core.Relay.Work.{remaining, cost, distinct, contains, ids}
use pvpentech_core.Value.{null, num, bool, Json}

-- A Redis that is there.
abbrev local : Redis
local = record {
  read = λ k s. some (lookup k s);
  set = λ k v s. some (insert k v s);
  set_new = λ k v s. some (if is_some (lookup k s) then s else insert k v s);
}

local-IsRunning : IsRunning local
local-IsRunning = record {
  read_lem = λ k s. refl;
  set_lem = λ k v s. refl;
  set_new_lem = λ k v s. refl;
}

abbrev created : Response
created = record { status = 201; body = bool true }

abbrev one_text : Json
one_text = record {
  parse = λ raw. some (cached_value created);
  stringify = λ v. "kept";
  show = λ v. "";
}

created-IsKept : IsKept one_text created
created-IsKept = record { reads = refl; not_empty = λ h. cc; not_marker = λ h. cc }

abbrev handler : ℕ → Response × ℕ
handler n = (created, n + 1)

serve-serve_example :
    let after = serve local one_text handler (some "key") 0 [] in
    (after.0 ≡ first_answer created)
    × (after.1 ≡ 1)
    × (serve local one_text handler (some "key") 5 after.2
        ≡ (if ltb 201 500 then replayed (num 201) (bool true) else duplicate_request, 5, after.2))
unfolding lookup
serve-serve_example =
    serve-serve local local-IsRunning one_text handler handler "key" 0 5 [] (λ h. cc) refl
      created-IsKept

abbrev line : Line
line = record {
  ready = λ ws. open_state;
  connections = ("CP1", 4) ∷ [];
  message_id = "first";
  settlement = answered (some "Accepted");
}

abbrev equal_texts : Texts
equal_texts = record { lower = λ s. s; trim = λ s. s; cut = λ n s. s }

stop-Ends_example :
    Stop.Ends context memory-IsClient equal_texts line 7 db (stop context equal_texts line 7 db)
stop-Ends_example = stop-Ends context memory-IsClient equal_texts line 7 db

abbrev asked : Desk
asked = ask "m" empty_desk

answered_run : Reach (answer "m" (fulfilled null) asked)
answered_run = later (later start (asks "m" empty_desk)) (answers "m" (fulfilled null) asked)

Reach-once_example :
    times (is_of 0) (answer "m" (fulfilled null) asked).timers
      + times (is_settled 0) (answer "m" (fulfilled null) asked).settled
    ≡ (if ltb 0 (answer "m" (fulfilled null) asked).next then 1 else 0)
Reach-once_example = Reach-once (answer "m" (fulfilled null) asked) answered_run 0

-- A broker that takes no event, and answers with whole pages.
abbrev refusing : Broker
refusing = record {
  publish = λ ev. some "ECONNREFUSED";
  dead_letter = λ ev. true;
  page = λ p n rows. some (keep p rows);
  update_error = "";
}

refusing-IsPaging : IsPaging refusing
refusing-IsPaging = record {
  answers = λ t h. cc;
  rows = λ t page h.
      let e : keep is_waiting t ≡ page = ground arith in
      subst (All (λ r. Finds is_waiting r t)) e (keep-Finds is_waiting t);
  empty = λ t h. keep_empty is_waiting t (ground arith);
}

abbrev one_waiting : Relay
one_waiting = record { running = false; outbox = waiting_event ∷ []; stream = []; dead = [] }

one_attempt : remaining one_waiting.outbox ≤ 1
unfolding remaining cost
one_attempt = omega arith

one_id : distinct (ids one_waiting.outbox) ≡ true
unfolding distinct contains
one_id = refl

one-IsLive : All IsLive one_waiting.outbox
one-IsLive = (λ h. omega arith, tt)

ticks-published_example :
    any is_unpublished
      (ticks memory memory-IsClient memory-IsWorking ((refusing, 1000) ∷ []) one_waiting).outbox
    ≡ false
ticks-published_example =
    ticks-published memory memory-IsClient memory-IsWorking ((refusing, 1000) ∷ []) one_waiting
      (refusing-IsPaging, tt) refl one_id one-IsLive one_attempt
