-- ===== src/Transport/Reconnect.antt =====
-- pkg/transport/websocket/reconnect.go: WebsocketServiceBase, over its connector. What Connect and the
-- ping of an attempt return, and whether the context ends during the wait behind it, are tests on the
-- attempt's number. A call that holds the connection is one step; a message is the frame reported.
pub mod Attempts
use voxray.Base.{ℕ, zero, suc, ◌+◌, Bool, true, false, ◌&&◌, List, [], ◌∷◌, ◌++◌, if◌then◌else◌}
use voxray.Base.Int.{ℤ}
use voxray.Frames.{Content, error}
use voxray.Transport.Backoff.{exponential_backoff}

pub record ServiceBase : Type 0 where
  pub reconnect_on_error : Bool
  pub reconnect_in_progress : Bool
  pub disconnecting : Bool

-- NewWebsocketServiceBase
abbrev pub new_service_base : Bool → ServiceBase
new_service_base reconnect_on_error = record {
  reconnect_on_error = reconnect_on_error;
  reconnect_in_progress = false;
  disconnecting = false;
}

-- What happens around the attempts of one TryReconnect.
pub record World : Type 0 where
  pub connects : ℕ → Bool
  pub answers_ping : ℕ → Bool
  pub is_cancelled : ℕ → Bool

-- What TryReconnect returns, the waits between its attempts, and the frames that it reports.
pub record Outcome : Type 0 where
  pub ok : Bool
  pub waits : List ℤ
  pub reports : List Content

-- Reconnect, then VerifyConnection
unfoldable pub reconnect : World → ℕ → Bool
reconnect w attempt = w.connects attempt && w.answers_ping attempt

unfoldable pub report : Bool → Bool → List Content
report has_report fatal = if has_report then error fatal ∷ [] else []

-- The loop on the attempts, for those that are left.
unfoldable pub try_attempts : Bool → World → ℕ → ℕ → Outcome
try_attempts has_report w zero attempt = record {
  ok = false;
  waits = [];
  reports = report has_report true;
}
try_attempts has_report w (suc left) attempt =
    let wait = exponential_backoff attempt in
    let rest = try_attempts has_report w left (attempt + 1) in
    if reconnect w attempt
    then record { ok = true; waits = []; reports = [] }
    else if w.is_cancelled attempt
    then record { ok = false; waits = wait ∷ []; reports = [] }
    else record rest { waits = wait ∷ rest.waits }

abbrev gave_up : Outcome
gave_up = record { ok = false; waits = []; reports = [] }

-- TryReconnect: it leaves the flag as it found it, so the base is not changed.
unfoldable pub try_reconnect : Bool → World → ℕ → ServiceBase → Outcome
try_reconnect has_report w max_retries b =
    if b.reconnect_in_progress then gave_up else try_attempts has_report w max_retries 1

unfoldable pub maybe_try_reconnect : Bool → World → ServiceBase → Outcome
maybe_try_reconnect has_report w b =
    if b.disconnecting
    then gave_up
    else if b.reconnect_on_error
    then try_reconnect has_report w 3 b
    else record { ok = false; waits = []; reports = report has_report false }

-- What ReceiveMessages returns: nil, a normal closure, or another error.
pub data Received : Type 0 where
  returned_nil closed_normally received_error : Received

-- A round of ReceiveLoop: whether the loop goes on, and what was reported.
unfoldable pub receive_round : Bool → World → Received → ServiceBase → Bool × List Content
receive_round has_report w closed_normally b = (false, [])
receive_round has_report w received_error b =
    let o = maybe_try_reconnect has_report w b in (o.ok, o.reports)
receive_round has_report w returned_nil b =
    let o = maybe_try_reconnect has_report w b in (o.ok, o.reports)

-- The base may have been told to disconnect before a round.
pub record Round : Type 0 where
  pub base : ServiceBase
  pub world : World
  pub received : Received

-- ReceiveLoop on the rounds that happen: whether it still runs, how many rounds it made, and the
-- frames reported.
unfoldable pub receive_loop : Bool → List Round → Bool × ℕ × List Content
receive_loop has_report [] = (true, 0, [])
receive_loop has_report (r ∷ rs) =
    let (goes_on, reports) = receive_round has_report r.world r.received r.base in
    let (runs, rounds, more) = receive_loop has_report rs in
    if goes_on then (runs, rounds + 1, reports ++ more) else (false, 1, reports)

-- SetDisconnecting
unfoldable pub set_disconnecting : Bool → ServiceBase → ServiceBase
set_disconnecting disconnecting b = record b { disconnecting = disconnecting }
