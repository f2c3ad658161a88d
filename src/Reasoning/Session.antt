-- ===== src/Reasoning/Session.antt =====
-- The session of a request: SessionID in internal/reasoning/session.go.
use droid_proxy.Prelude.{Option, none, some, List, [], ◌∷◌, String, if◌then◌else◌, str_eq}
use droid_proxy.Prelude.Texts.{trim_space}
use droid_proxy.Upstream.Headers.{Header}
use droid_proxy.Upstream.Headers as H
use droid_proxy.Reasoning.Json.{Fields, get, text_of, fields_of}
use droid_proxy.Reasoning.Messages.{JsonCodec}

abbrev pub session_headers : List String
session_headers = "X-Session-Id" ∷ "X-Conversation-Id" ∷ "X-Thread-Id" ∷ "X-Amp-Thread-Id" ∷ []

abbrev pub session_keys : List String
session_keys = "conversation_id" ∷ "session_id" ∷ "thread_id" ∷ []

-- The first header of the list that is not blank, trimmed.
unfoldable pub from_headers : List String → Header → String
from_headers [] headers = ""
from_headers (h ∷ hs) headers =
    let rest = from_headers hs headers in
    let v = trim_space (H.get h headers) in if str_eq v "" then rest else v

-- The first field of the list that is a string and not blank, trimmed.
unfoldable pub from_fields : List String → Fields → String
from_fields [] m = ""
from_fields (k ∷ ks) m =
    let rest = from_fields ks m in
    let v = trim_space (text_of (get k m)) in if str_eq v "" then rest else v

abbrev pub from_metadata : Option Fields → String
from_metadata none = ""
from_metadata (some md) = from_fields session_keys md

abbrev pub from_root : Option Fields → String
from_root none = ""
from_root (some root) =
    let v = from_fields session_keys root in
    if str_eq v "" then from_metadata (fields_of (get "metadata" root)) else v

-- SessionID.
unfoldable pub session_id : JsonCodec → Header → String → String
session_id json headers payload =
    let v = from_headers session_headers headers in
    if str_eq v "" then (if str_eq payload "" then "" else from_root (json.decode payload)) else v
