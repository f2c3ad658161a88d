-- ===== src/Handlers/Payload.antt =====
-- The replay of a request without its reasoning items: reasoningStripRetryEligible and
-- stripReasoningInputItems in internal/handlers/oauth_payload.go. gjson reads the payload's `input`
-- and sjson writes it; a payload is modelled by what they see of it.
pub mod Schema
pub mod Tools
pub mod Prepare
mod Tests
use droid_proxy.Prelude.{
  ℕ, ◌≤◌, ◌≡◌, refl, Bool, true, false, not, ◌&&◌, ◌||◌, Option, none, some, List, [], ◌∷◌, String,
  ltb, leb, ◌==◌, if◌then◌else◌, arith, any, filter,
}
use droid_proxy.Prelude.GoLibrary.{GoLibrary, to_lower}
use droid_proxy.Prelude.Texts.{equal_fold, contains}

-- One item of `input`: its `type`, and its text as it stands.
pub record InputItem : Type 0 where
  pub kind : String
  pub raw : String

-- `input` is `none` if it is no array; `rest` is every other part of the payload.
pub record Payload : Type 0 where
  pub input : Option (List InputItem)
  pub rest : String

module _ (go : GoLibrary) where
  abbrev is_reasoning : InputItem → Bool
  is_reasoning item = equal_fold go.fold item.kind "reasoning"

  -- reasoningStripRetryEligible.
  unfoldable pub reasoning_strip_retry_eligible : ℕ → String → Bool
  reasoning_strip_retry_eligible status body =
      if ltb status 400 || leb 500 status
      then false
      else if status == 401 || status == 403 || status == 407 || status == 429
      then contains (to_lower go.lower body) "encrypted_content"
      else true

  abbrev without_reasoning : Payload → Bool → Option (List InputItem) → Payload × Bool
  without_reasoning payload written none = (payload, false)
  without_reasoning payload written (some items) =
      if any is_reasoning items && written
      then (record payload { input = some (filter (λ i. not (is_reasoning i)) items) }, true)
      else (payload, false)

  -- stripReasoningInputItems; `written` tells whether sjson writes the new array.
  unfoldable pub strip_reasoning_input_items : Bool → Payload → Payload × Bool
  strip_reasoning_input_items written payload = without_reasoning payload written payload.input
