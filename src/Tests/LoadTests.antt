-- ===== src/Tests/LoadTests.antt =====
-- The connections of a controller at concrete runs.
use norma.Base.{◌≡◌, refl, false, none, some, List, [], ◌∷◌, nat_comparable, if◌then◌else◌, leb}
use norma.Base.Results.{ok, err}
use norma.Load.Connections.{
  Replies, unreceived, dial_random, ensure_client, fetch_once, reconnect, receive_from, receive_all,
  get_received_transactions, initial_connections, run_connections,
}
use norma.Load.Connections.Kept.{Protocol, was_closed, used_one_at_a_time, reconnected_stays_open}

-- The first two fetches fail.
abbrev flaky : Replies
flaky = record {
  dial_error = λ n. none;
  fetch = λ retry. if leb 2 retry then ok 70 else err "reset";
}

abbrev dead : Replies
dead = record { dial_error = λ n. none; fetch = λ retry. err "reset" }

abbrev unreachable : Replies
unreachable = record { dial_error = λ n. some "refused"; fetch = λ retry. err "reset" }

received : (get_received_transactions flaky initial_connections).1 ≡ ok 70
unfolding receive_from fetch_once reconnect ensure_client dial_random
received = refl

gives_up : (get_received_transactions dead initial_connections).1 ≡ err (unreceived "reset")
unfolding receive_from fetch_once reconnect ensure_client dial_random
gives_up = refl

six_dialed : (get_received_transactions dead initial_connections).0.next ≡ 6
unfolding receive_from fetch_once reconnect ensure_client dial_random
six_dialed = refl

abbrev calls : List Replies
calls = flaky ∷ unreachable ∷ flaky ∷ []

holds_five : (receive_all calls initial_connections).client ≡ some 5
unfolding receive_all receive_from fetch_once reconnect ensure_client dial_random
holds_five = refl

used_one_at_a_time_example :
    let s = receive_all calls initial_connections in Protocol s.log s.client s.next
used_one_at_a_time_example = used_one_at_a_time calls

reconnected_stays_open_example : was_closed 5 (run_connections calls).log ≡ false
reconnected_stays_open_example = reconnected_stays_open calls 5 holds_five
