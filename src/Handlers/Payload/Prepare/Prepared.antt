-- ===== src/Handlers/Payload/Prepare/Prepared.antt =====
-- The payload of a request to an OAuth upstream as a whole: prepareOAuthResponsesPayload in
-- internal/handlers/oauth_payload.go.
use droid_proxy.Prelude.{◌≡◌, refl, ap, Bool, true, false, ◌||◌, str_eq}
use droid_proxy.Prelude.GoLibrary.{GoLibrary, to_lower}
use droid_proxy.Config.{ModelConfig}
use droid_proxy.Config.Models.{NetLibrary}
use droid_proxy.Handlers.Cooldown.{Headers}
use droid_proxy.Handlers.Payload.Prepare.{
  JsonBody, apply_upstream_payload_overrides, prepare_oauth_responses_payload,
  xai_uses_cli_chat_proxy,
}
use droid_proxy.Handlers.Payload.Prepare.Steps.{IsJsonBody}
use droid_proxy.Handlers.Payload.Prepare.Codex.{IsForCodex, codex_prepared}
use droid_proxy.Handlers.Payload.Prepare.Xai.{IsForXai, xai_prepared}

or_false : (b : Bool) → (b || false) ≡ b
or_false true = refl
or_false false = refl

-- Take a library that reads back what it writes at names of the letters a to z and underscores, and
-- whose writes of such names succeed. What is sent is stated field by field against the body with
-- its overrides. For a Codex model: the stream flag is the one asked for; nothing is to be stored;
-- the fields that the endpoint rejects (max_output_tokens, prompt_cache_options,
-- previous_response_id, prompt_cache_retention, safety_identifier, stream_options) are gone; the
-- service tier "fast", in any case and with blanks around it, becomes "priority" and any other
-- stays; blank instructions become the default ones and others stay, so that there are some; an
-- input that is a text becomes one message of the user with that text and any other input stays.
-- For an xAI model: the stream flag is the one asked for, or true for a proxy that only streams;
-- the service tier, previous_response_id, prompt_cache_retention, safety_identifier and
-- stream_options are gone; reasoning stays if the model passes it through and is gone otherwise; a
-- blank prompt cache key becomes the session id of the headers, if they have one, and stays
-- otherwise; tools that are an array become the normalized ones, which are accepted, and other
-- tools stay; and if the request has reasoning, include is what includeXAIEncryptedReasoning makes
-- of it, with the marker in it, and stays otherwise. Every field of such a name that is not among
-- those of its provider is kept.
pub prepare_oauth_responses_payload_lem :
    (go : GoLibrary) {Body : Type 0} (lib : JsonBody Body) (laws : IsJsonBody lib)
    (lowers : to_lower go.lower "function" ≡ "function") (net : NetLibrary) (m : ModelConfig)
    (stream : Bool) (h : Headers) (b : Body)
    → (m.oauth_provider ≡ "codex"
        → IsForCodex go lib laws
            (apply_upstream_payload_overrides go lib m b)
            stream
            (prepare_oauth_responses_payload go lib net m stream h b))
      × (m.oauth_provider ≡ "xai"
          → IsForXai go lib laws lowers m h
              (apply_upstream_payload_overrides go lib m b)
              (stream || xai_uses_cli_chat_proxy go net m)
              (prepare_oauth_responses_payload go lib net m stream h b))
unfolding prepare_oauth_responses_payload
prepare_oauth_responses_payload_lem go lib laws lowers net m stream h b =
    let o = apply_upstream_payload_overrides go lib m b in
    (
      (λ e.
          let not_xai : str_eq m.oauth_provider "xai" ≡ false = ap (λ s. str_eq s "xai") e in
          let codex : str_eq m.oauth_provider "codex" ≡ true = ap (λ s. str_eq s "codex") e in
          simp (not_xai, codex, or_false stream) (codex_prepared go lib laws o stream)),
      (λ e.
          let xai : str_eq m.oauth_provider "xai" ≡ true = ap (λ s. str_eq s "xai") e in
          let not_codex : str_eq m.oauth_provider "codex" ≡ false = ap (λ s. str_eq s "codex") e in
          simp (xai, not_codex)
            (xai_prepared go lib laws lowers m h o (stream || xai_uses_cli_chat_proxy go net m))),
    )
