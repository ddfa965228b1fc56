-- ===== src/Lib.antt =====
-- The SignalWire agents library for C++ (README.md, include/signalwire, src): agents that are served
-- over HTTP and talk SWML, the RELAY client for calls and messages over a WebSocket, and a REST client.
-- This library models parts of its own logic.
--
-- Prelude: Boolean tests, lists, byte strings (`std::string` is the list of its bytes), `std::map` as an
-- association list in the order of its keys, integers.
--
-- Security, for src/security: tokens that authorise a tool call, and webhook signatures.
--   Security/Crypto: what is called in OpenSSL, as a record of operations with the one law the code
--     relies on, that CRYPTO_memcmp is 0 exactly on equal buffers; `timing_safe_compare` and `safe_eq`.
--   Security/Base64, Hex, Decimal: the coders of session_manager.cpp and webhook_validator.cpp, and
--     `std::to_string` and `std::stoll` on `int64_t`.
--   Security/Session: `SessionManager` of session_manager.cpp. Its clock is an argument of each call.
--   Security/Webhook: webhook_validator.cpp. Url has the parts of `parse_url` and the candidate URLs,
--     Form the decoding and the concatenation of parameters. An exception is a constructor of the result.
--     Middleware is webhook_middleware.cpp, around a handler that is a parameter.
--
-- Contexts, for src/contexts/contexts.cpp: Step and Context with their setters and rendering, Builder
--   with `validate`, whose exceptions are the constructors of `Invalid`, Rendering with the JSON of all.
--
-- Relay, for src/relay: Action, Message and Call are the states that the C++ objects share. A callback
--   is modelled by whether it is set and how often it was called. Call keeps the registry of actions,
--   from control ids to handles (addresses), and a store gives the action at a handle. Component is the
--   routing of events to actions in client.cpp, and Client the registries of calls, dials and messages with
--   the handlers of the events, and reconnection. Client/Requests has the requests in flight, and the messages
--   of the server by what they are. WebSocket has the frames of websocket.cpp and its loop,
--   on the bytes that arrive before the connection ends. JSON values of events are a type
--   parameter with what is read of them.
--
-- Utils/UrlValidator, for src/utils/url_validator.cpp: Bits compares addresses by their bits, Blocked has
--   what the check lets through. UrlEncoding is `url_encode` of include/signalwire/common.hpp. inet_pton, with the sizes of its results, and getaddrinfo are a record.
--
-- Rest/Pagination, for src/rest/http_client.cpp: GET and PaginatedIterator, with the transport and the
--   JSON parser in a record. Buffer and Walk follow one look and the whole iteration.
--
-- Server/AgentServer, for src/server/agent_server.cpp: the routes of agents and of SIP user names,
--   and POST /sip as it is set up.
--
-- Swml, for include/signalwire/swml/document.hpp and src/swml/service.cpp: Document has sections of
--   verbs, Document/Sections its specification. Service has the basic authentication, over the base64
--   of Security and the comparison of Security/Crypto, and Service/Tools the registry of tools, whose
--   order is the subject of Service/Order.
--
-- Swaig, for src/swaig/function_result.cpp, src/datamap/datamap.cpp and
--   include/signalwire/swaig/tool_definition.hpp: FunctionResult with one function per method, those
--   around SWML verbs in FunctionResult/Swml and those of the remote calls in FunctionResult/Rpc, the
--   definition of a tool, and DataMap with the chains of its calls in DataMap/Calls and DataMap/Premature.
--
-- Pom, for src/pom/pom.cpp: the tree of sections, whose JSON is written by `section_to_ordered` in the
--   order of insertion or, as `Section::to_json` gives it, sorted by key; Pom/Reading reads it,
--   Pom/Rendering gives Markdown and XML, Pom/Search finds sections and adds a model below one,
--   Pom/Scalar writes and reads the scalars of the YAML subset.
--
-- Skills, for src/skills: Manager is `SkillManager` with the members of the agent that it changes; a skill
--   is a record of what its virtual functions give, the registry and the environment are parameters. Math
--   is the evaluator of builtin/math.cpp over a record of the operations of `double`; Math/Fuel is about
--   its end, and Math/Value, Operand, Binary and Correct about expressions in full parentheses.
--
-- Agent, for src/agent/agent_base.cpp: the prompt of an agent, as text or as sections of Pom. Config has
--   its state with the setters, Rendering the URLs, the AI verb and the document, whose order is the
--   subject of Rendering/Pipeline. Requests has `handle_swaig_request` and `handle_post_prompt_request`, over
--   the authentication of Swml and the tokens of Security; Requests/Calls says what a call must bring.
--   Requests/Mcp is `handle_mcp_request`, with its answers in Mcp/Answers and Mcp/Open, behind its route `post_mcp`. The handlers of
--   the tools, the callbacks and `json::parse` are parameters.
--
-- JSON values (Prelude/Json) are a type with an object as the list of its members; a floating-point number
-- is passed as the value it becomes. Parsing and printing JSON is the library's, and not modelled.
--
-- Each method that runs under a lock is one step, so interleavings are sequences of events.
--
-- Loops are recursion on the list they traverse; `reconnect` goes through the list of what its attempts
-- meet; the builder of a prompt object model is recursion on the JSON value. The descent of the evaluator
-- takes one unit of fuel for each call, eight for each character and eight more, and each round of its
-- grammar uses up a character within eight calls. Where the source's loop moves an index (base64, the pairs of a form, decimal digits) the
-- recursion is on fuel, the size of the input plus one, which is enough since each round uses up a
-- character or a digit. The loop over frames has the number of bytes plus one, since a frame has two bytes or more. `has_next` looks twice at most, since it fetches
-- one page, which has items or is the last.
--
-- Not modelled: sockets, TLS, threads and blocking waits, the mounting of routes and HTTP serving, the text of JSON, the lines and blocks of
-- the YAML subset, the skills and prefabs built on top, the paths of the REST resources, and
-- third-party headers in deps. Pointers of the action registry are taken to be alive.
pub mod Prelude
pub mod Security
pub mod Contexts
pub mod Relay
pub mod Utils
pub mod Server
pub mod Swml
pub mod Swaig
pub mod Pom
pub mod Skills
pub mod Agent
pub mod Rest
