-- ===== src/Tests/Transport.antt =====
-- pkg/utils/backoff.go and pkg/transport/websocket/reconnect.go at concrete attempts.
use voxray.Base.{true, false, [], ◌∷◌, ◌≡◌, refl, length, ◌==◌}
use voxray.Base.Int.{pos, negsuc}
use voxray.Transport.Backoff.{exponential_backoff, exponential, int64}
use voxray.Transport.Reconnect.{
  World, new_service_base, report, try_reconnect, try_attempts, reconnect,
}
use voxray.Transport.Reconnect.Attempts.{Ending, backoffs, try_reconnect-Ending}

-- The 34th wait is negative, and the 55th is 0.
overflow : (exponential_backoff 34 ≡ negsuc 1266874889709551615) × (exponential_backoff 55 ≡ pos 0)
unfolding exponential_backoff exponential int64
overflow = (refl, refl)

-- The second attempt connects.
abbrev flaky : World
flaky = record { connects = λ k. k == 2; answers_ping = λ k. true; is_cancelled = λ k. false }

try_reconnect-Ending_example :
    Ending flaky 1 3 (report true true) (try_reconnect true flaky 3 (new_service_base true))
    × ((try_reconnect true flaky 3 (new_service_base true)).waits
        ≡ backoffs 1 (length (try_reconnect true flaky 3 (new_service_base true)).waits))
try_reconnect-Ending_example = try_reconnect-Ending true flaky 3 (new_service_base true) refl

reconnected : (try_reconnect true flaky 3 (new_service_base true)).waits ≡ pos 2000000000 ∷ []
unfolding try_reconnect try_attempts reconnect exponential_backoff exponential int64
reconnected = refl
