-- ===== src/Model/Request.antt =====
-- internal/model/result.go: one observed request, and whether the observation is complete.
use wsaw.Prelude.{ℕ, ◌==◌, Bool, not, ◌&&◌, ◌||◌, List, [], ◌∷◌, any}
use wsaw.Prelude.Text.{Text, bytes, eqb}
use wsaw.Model.Enums.{Party, ConsentPhase}

pub record Initiator : Type 0 where
  pub url : Text
  pub stack : List Text

-- The fields that the modelled code reads. Times are in nanoseconds.
pub record Request : Type 0 where
  pub url : Text
  pub normalized_url : Text
  pub resource_type : Text
  pub host : Text
  pub domain : Text
  pub party : Party
  pub phase : ConsentPhase
  pub status : ℕ
  pub transfer_size : ℕ
  pub non_network : Bool
  pub initiator : Initiator
  pub failed : Bool
  pub failure_reason : Text
  pub blocked : Bool
  pub body_sha256 : Text
  pub body_identity : Text
  pub body_identity_label : Text
  pub end_offset : ℕ

-- `captureFailures`.
abbrev pub capture_failures : List Text
capture_failures =
    bytes "net::ERR_INSUFFICIENT_RESOURCES"
    ∷ bytes "net::ERR_NAME_NOT_RESOLVED"
    ∷ bytes "net::ERR_NAME_RESOLUTION_FAILED"
    ∷ bytes "net::ERR_NETWORK_CHANGED"
    ∷ bytes "net::ERR_INTERNET_DISCONNECTED"
    ∷ bytes "net::ERR_ADDRESS_UNREACHABLE"
    ∷ bytes "net::ERR_CONNECTION_CLOSED"
    ∷ bytes "net::ERR_CONNECTION_RESET"
    ∷ bytes "net::ERR_CONNECTION_REFUSED"
    ∷ bytes "net::ERR_CONNECTION_TIMED_OUT"
    ∷ bytes "net::ERR_CONNECTION_FAILED"
    ∷ bytes "net::ERR_SOCKET_NOT_CONNECTED"
    ∷ bytes "net::ERR_OUT_OF_MEMORY"
    ∷ bytes "net::ERR_TIMED_OUT"
    ∷ bytes "net::ERR_TOO_MANY_RETRIES"
    ∷ []

pub is_capture_failure : Text → Bool
is_capture_failure reason = any (eqb reason) capture_failures

unfoldable pub capture_failure : Request → Bool
unfolding is_capture_failure
capture_failure r = not r.non_network && (r.failed && is_capture_failure r.failure_reason)

abbrev pub reason_never_completed : Text
reason_never_completed = bytes "never reported completion"

unfoldable pub never_completed : Request → Bool
never_completed r = not r.non_network && (not r.failed && ((r.status == 0) && (r.end_offset == 0)))

unfoldable pub incomplete : Request → Bool
unfolding capture_failure never_completed
incomplete r = capture_failure r || never_completed r
