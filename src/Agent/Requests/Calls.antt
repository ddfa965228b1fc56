-- ===== src/Agent/Requests/Calls.antt =====
-- Which requests are answered by a handler, and what a call of a secure tool must bring.
use mathlib.Core.Option.{some-injective}
use signalwire_agents_cpp.Prelude.{
  Option, none, some, Bool, true, false, ◌≡◌, ◌↔◌, refl, sym, ap, ◌∙◌, ◌∷◌, [], ◌++◌, Bytes, codes,
  is_empty, if◌then◌else◌, ◌>>=◌,
}
use signalwire_agents_cpp.Prelude.Int.{ℤ}
use signalwire_agents_cpp.Prelude.Map.{lookup}
use signalwire_agents_cpp.Prelude.Json.{
  Json, null, boolean, number, string, array_of, object_of, map_in,
}
use signalwire_agents_cpp.Security.Crypto.{Crypto}
use signalwire_agents_cpp.Security.Base64.{base64_decode}
use signalwire_agents_cpp.Security.Session.{
  SessionManager, payload_of, is_live, signature, validate_token,
}
use signalwire_agents_cpp.Security.Session.Tokens.{validate_token_sound}
use signalwire_agents_cpp.Swaig.FunctionResult.{FunctionResult}
use signalwire_agents_cpp.Swaig.ToolDefinition.{ToolDefinition}
use signalwire_agents_cpp.Swml.Service.{
  Auth, Answer, authorized, unauthorized, invalid_auth_scheme, malformed_credentials,
  invalid_credentials, validate_auth,
}
use signalwire_agents_cpp.Swml.Service.Accepts.{validate_auth_iff}
use signalwire_agents_cpp.Swml.Service.Tools.{Tools}
use signalwire_agents_cpp.Agent.Requests.{
  Outcome, returned, threw, Handlers, result, text_or_empty, arguments, on_function_call,
  response_of, check_token, run_checked, call_tool, call_named, call_parsed, call_authorized,
  handle_swaig_request,
}

module _ (handlers : Handlers) (k : Crypto) (session : SessionManager) (parse : Bytes → Option Json)
    (auth : Auth) (t : Tools) (now : ℤ) where
  -- A call that is answered: the request is authorised, its body names a tool, the token of a
  -- secure tool is valid, and the handler returns the result.
  pub record IsAnswered (header : Option Bytes) (text : Bytes) (r : FunctionResult) : Type 0 where
    pub body : Json
    pub name : Bytes
    pub tool : ToolDefinition
    pub lets_in : validate_auth k auth header ≡ authorized
    pub has_body : is_empty text ≡ false
    pub parsed : parse text ≡ some body
    pub named : lookup (codes "function") (map_in body) ≡ some (string name)
    pub registered : lookup name t.tools ≡ some tool
    pub checked : tool.secure ≡ true → check_token k session name (map_in body) now ≡ some true
    pub outcome : on_function_call handlers t name (arguments (map_in body)) body ≡ returned r

  response_inv : (o : Outcome) (r : FunctionResult) → response_of o ≡ result r → o ≡ returned r
  response_inv (returned s) r h = cc
  response_inv (threw e) r h = cc

  checked_iff :
      (secure : Bool) (c : Option Bool) (o : Outcome) (r : FunctionResult)
      → ((if secure then run_checked c o else response_of o) ≡ result r)
        ↔ ((secure ≡ true → c ≡ some true) × (o ≡ returned r))
  checked_iff true none o r = ((λ h. absurd cc), λ (c, e). absurd (cc (c refl)))
  checked_iff true (some false) o r = ((λ h. absurd cc), λ (c, e). absurd (cc (c refl)))
  checked_iff true (some true) o r =
      ((λ h. ((λ s. refl), response_inv o r h)), λ (c, e). ap response_of e)
  checked_iff false c o r =
      ((λ h. ((λ s. absurd cc), response_inv o r h)), λ (c, e). ap response_of e)

  tool_inv :
      (name : Bytes) (body : Json) (r : FunctionResult) (o : Option ToolDefinition)
      → call_tool handlers k session parse t name body now o ≡ result r
      → (tool : ToolDefinition) × (o ≡ some tool)
        × (tool.secure ≡ true → check_token k session name (map_in body) now ≡ some true)
        × (on_function_call handlers t name (arguments (map_in body)) body ≡ returned r)
  tool_inv name body r none h = absurd cc
  tool_inv name body r (some tool) h =
      let (checked, outcome) = (checked_iff tool.secure _ _ r).0 h in (tool, refl, checked, outcome)

  named_inv :
      (body : Json) (r : FunctionResult) (o : Option Json)
      → call_named handlers k session parse t body now o ≡ result r
      → (name : Bytes) × (o ≡ some (string name))
        × (call_tool handlers k session parse t name body now (lookup name t.tools) ≡ result r)
  named_inv body r none h = absurd cc
  named_inv body r (some (string name)) h = (name, refl, h)
  named_inv body r (some null) h = absurd cc
  named_inv body r (some (boolean b)) h = absurd cc
  named_inv body r (some (number n)) h = absurd cc
  named_inv body r (some (array_of js)) h = absurd cc
  named_inv body r (some (object_of m)) h = absurd cc

  parsed_inv :
      (r : FunctionResult) (o : Option Json)
      → call_parsed handlers k session parse t now o ≡ result r
      → (body : Json) × (o ≡ some body)
        × (call_named handlers k session parse t body now (lookup (codes "function") (map_in body))
            ≡ result r)
  parsed_inv r none h = absurd cc
  parsed_inv r (some body) h = (body, refl, h)

  authorized_inv :
      (text : Bytes) (r : FunctionResult) (a : Answer)
      → call_authorized handlers k session parse t text now a ≡ result r
      → (a ≡ authorized)
        × (is_empty text ≡ false)
        × (call_parsed handlers k session parse t now (parse text) ≡ result r)
  authorized_inv [] r authorized h = absurd cc
  authorized_inv (c ∷ text) r authorized h = (refl, refl, h)
  authorized_inv text r unauthorized h = absurd cc
  authorized_inv text r invalid_auth_scheme h = absurd cc
  authorized_inv text r malformed_credentials h = absurd cc
  authorized_inv text r invalid_credentials h = absurd cc

  IsAnswered-sound :
      (header : Option Bytes) (text : Bytes) (r : FunctionResult)
      → handle_swaig_request handlers k session parse auth t header text now ≡ result r
      → IsAnswered header text r
  unfolding handle_swaig_request
  IsAnswered-sound header text r h =
      let (lets_in, has_body, h) = authorized_inv text r (validate_auth k auth header) h in
      let (body, parsed, h) = parsed_inv r (parse text) h in
      let (name, named, h) = named_inv body r _ h in
      let (tool, registered, checked, outcome) = tool_inv name body r _ h in
      record {
        body = body;
        name = name;
        tool = tool;
        lets_in = lets_in;
        has_body = has_body;
        parsed = parsed;
        named = named;
        registered = registered;
        checked = checked;
        outcome = outcome;
      }

  IsAnswered-complete :
      (header : Option Bytes) (text : Bytes) (r : FunctionResult)
      → IsAnswered header text r
      → handle_swaig_request handlers k session parse auth t header text now ≡ result r
  unfolding handle_swaig_request
  IsAnswered-complete header text r v =
      rw (v.lets_in, v.has_body, v.parsed, v.named, v.registered)
        ((checked_iff v.tool.secure _ _ r).1 (v.checked, v.outcome))

  -- A function call is answered with a result exactly when the request is authorised, its body is
  -- read and names a tool that is defined, the body brings a valid token if the tool is secure, and
  -- the call of the tool, with the first parsed argument, returns that result.
  pub handle_swaig_request_iff :
      (header : Option Bytes) (text : Bytes) (r : FunctionResult)
      → (handle_swaig_request handlers k session parse auth t header text now ≡ result r)
        ↔ IsAnswered header text r
  handle_swaig_request_iff header text r =
      (IsAnswered-sound header text r, IsAnswered-complete header text r)

  texts_of :
      (name : Bytes) (a b : Option Bytes)
      → (a >>= λ token. b >>= λ call_id. some (validate_token k session token name call_id now))
        ≡ some true
      → (token call_id : Bytes) × (a ≡ some token)
        × (b ≡ some call_id)
        × (validate_token k session token name call_id now ≡ true)
  texts_of name none b h = absurd cc
  texts_of name (some token) none h = absurd cc
  texts_of name (some token) (some call_id) h = (token, call_id, refl, refl, some-injective _ _ h)

  -- When a call is answered and the tool that its body names is secure, the request brought the
  -- user name and the password of the agent, and the member "meta_data_token" of the body is a text
  -- that the session manager signed: a payload with the name of the tool, the call id of the body
  -- (empty if it has none) and a time that has not passed, and the signature under the secret.
  pub secure_call-IsSigned :
      (header : Option Bytes) (text : Bytes) (r : FunctionResult) (body : Json) (name : Bytes)
      (tool : ToolDefinition)
      → parse text ≡ some body
      → lookup (codes "function") (map_in body) ≡ some (string name)
      → lookup name t.tools ≡ some tool
      → tool.secure ≡ true
      → handle_swaig_request handlers k session parse auth t header text now ≡ result r
      → ((basic : Bytes) × (header ≡ some (codes "Basic " ++ basic))
          × (base64_decode basic ≡ auth.user ++ b':' ∷ auth.pass))
        × ((encoded call_id expiry : Bytes) × (text_or_empty
                (lookup (codes "meta_data_token") (map_in body))
              ≡ some (encoded ++ b'.' ∷ signature k session encoded))
            × (text_or_empty (lookup (codes "call_id") (map_in body)) ≡ some call_id)
            × (base64_decode encoded ≡ payload_of name call_id expiry)
            × (is_live expiry now ≡ true))
  unfolding handle_swaig_request
  secure_call-IsSigned header text r body name tool parsed named registered secure h =
      let (lets_in, has_body, h) = authorized_inv text r (validate_auth k auth header) h in
      let h = ap (call_parsed handlers k session parse t now) (sym parsed) ∙ h in
      let h = ap (call_named handlers k session parse t body now) (sym named) ∙ h in
      let h = ap (call_tool handlers k session parse t name body now) (sym registered) ∙ h in
      let checked = ((checked_iff tool.secure _ _ r).0 h).0 secure in
      let (token, call_id, token_text, id_text, valid) = texts_of name _ _ checked in
      let (encoded, expiry, split, payload, live, lf, lc) =
        validate_token_sound k session token name call_id now valid in
      (
        ((validate_auth_iff k auth header).0 lets_in).1,
        (encoded, call_id, expiry, token_text ∙ ap some split, id_text, payload, live),
      )
