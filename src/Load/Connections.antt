-- ===== src/Load/Connections.antt =====
-- The connection of an application's controller in load/controller/controller.go: the retries of
-- GetReceivedTransactions, and what Run closes. A connection is named by how many were dialed before it.
pub mod Kept
use norma.Base.{ℕ, zero, suc, Option, none, some, List, [], ◌∷◌, String}
use norma.Base.Results.{Result, ok, err}

pub data ConnectionEvent : Type 0 where
  dialed : ℕ → ConnectionEvent
  fetched : ℕ → ConnectionEvent
  closed : ℕ → ConnectionEvent

-- AppController's rpcClient, the name of the next connection, and what was done, the latest first.
pub record Connections : Type 0 where
  pub client : Option ℕ
  pub next : ℕ
  pub log : List ConnectionEvent

-- What the network answers to one call: the error of a dial for the connection it would make, and the
-- number of received transactions in a retry.
pub record Replies : Type 0 where
  pub dial_error : ℕ → Option String
  pub fetch : ℕ → Result String ℕ

pub data ReceiveError : Type 0 where
  undialed : String → ReceiveError
  unreceived : String → ReceiveError

abbrev pub noted : ConnectionEvent → Connections → Connections
noted e s = record s { log = e ∷ s.log }

unfoldable pub dial_random : Replies → Connections → Connections × Result String ℕ
dial_random a s = elim (a.dial_error s.next) [
  | some e ↦ (record s { client = none }, err e)
  | none ↦
      (record { client = some s.next; next = suc s.next; log = dialed s.next ∷ s.log }, ok s.next)
]

unfoldable pub ensure_client : Replies → Connections → Connections × Result String ℕ
ensure_client a s = elim s.client [ some c ↦ (s, ok c) | none ↦ dial_random a s ]

abbrev pub fetch_with :
    Replies
    → ℕ
    → Connections × Result String ℕ
    → Connections × Result ReceiveError (Result String ℕ)
fetch_with a retry (s, err e) = (s, err (undialed e))
fetch_with a retry (s, ok c) = (noted (fetched c) s, ok (a.fetch retry))

-- One turn of the loop: an error where no connection could be dialed, or the answer of the fetch.
unfoldable pub fetch_once :
    Replies → ℕ → Connections → Connections × Result ReceiveError (Result String ℕ)
fetch_once a retry s = fetch_with a retry (ensure_client a s)

-- The re-connect after a failed fetch.
unfoldable pub reconnect : Replies → Connections → Connections × Result String ℕ
reconnect a s = dial_random a (elim s.client [ none ↦ s | some c ↦ noted (closed c) s ])

-- The loop of GetReceivedTransactions, with the retries that are left.
unfoldable pub receive_from : Replies → ℕ → ℕ → Connections → Connections × Result ReceiveError ℕ
receive_from a zero retry s =
    let (s1, r) = fetch_once a retry s in
    elim r [ err e ↦ (s1, err e) | ok (ok n) ↦ (s1, ok n) | ok (err e) ↦ (s1, err (unreceived e)) ]
receive_from a (suc left) retry s =
    let (s1, r) = fetch_once a retry s in
    elim r [
      | err e ↦ (s1, err e)
      | ok (ok n) ↦ (s1, ok n)
      | ok (err e) ↦
          let (s2, d) = reconnect a s1 in
          elim d [ err x ↦ (s2, err (undialed x)) | ok d ↦ receive_from a left (suc retry) s2 ]
    ]

abbrev pub max_retries : ℕ
max_retries = 5

-- GetReceivedTransactions
abbrev pub get_received_transactions : Replies → Connections → Connections × Result ReceiveError ℕ
get_received_transactions a s = receive_from a max_retries 0 s

-- The calls of GetReceivedTransactions while the controller runs.
unfoldable pub receive_all : List Replies → Connections → Connections
receive_all [] s = s
receive_all (a ∷ calls) s = receive_all calls (get_received_transactions a s).0

-- NewAppController takes the connection of its context.
abbrev pub initial_connections : Connections
initial_connections = record { client = some 0; next = 1; log = dialed 0 ∷ [] }

-- Run defers the close of the connection that the controller holds when it starts.
abbrev pub run_connections : List Replies → Connections
run_connections calls = noted (closed 0) (receive_all calls initial_connections)
