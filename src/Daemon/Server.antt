-- ===== src/Daemon/Server.antt =====
-- The connection handler of `src/agent/daemon/server.py` with the version test of
-- `src/agent/ipc/protocol.py`. The conversion to `int` and the dispatch of requests are given; the
-- dispatch makes one response frame, which here is its payload.
pub mod Answers
mod Tests
use hyprland_agent.Prelude.{
  ℕ, ◌+◌, Text, codes, Bool, true, false, ◌&&◌, Option, none, some, List, [], ◌∷◌, ◌++◌, ◌==◌,
  is_some, if◌then◌else◌,
}
use hyprland_agent.Schemas.{Number, Params}
use hyprland_agent.Orchestrator.Processes.{is_in}
use hyprland_agent.Daemon.PubSub.{Topic, topic_eq, PubSub, subscribe, unsubscribe}

-- The frames of the protocol; a response is an id and a payload, or an id and the code of an error.
pub data Frame : Type 0 where
  hello : Text → Frame
  request : Text → Text → Params → Frame
  response : Text → Params → Frame
  error : Text → Text → Frame
  subscribe_to unsubscribe_from : List Topic → Frame
  event : Topic → Params → Frame
  ping pong : Frame

-- What `read_frame` gives: a frame, a `FrameParseError` with its message, which the end of the
-- connection also raises, or a `FrameTooLargeError`.
pub data Read : Type 0 where
  frame : Frame → Read
  bad : Text → Read
  too_large : Read

-- One turn of the loop: whether the stop event was set, by a writer that lost the connection, and
-- what is read otherwise.
abbrev pub Turn : Type 0
Turn = Bool × Read

-- `"closed mid-frame" in str(exc)`
abbrev pub is_closed : Text → Bool
is_closed why = is_in (codes "closed mid-frame") why

-- `version.split(".")[0]`
unfoldable pub before_dot : Text → Text
before_dot [] = []
before_dot (c ∷ cs) = let rest = before_dot cs in if c == b'.' then [] else c ∷ rest

-- -1 for what is no number.
unfoldable pub parse_major : (Text → Option Number) → Text → Number
parse_major to_int version = elim (to_int (before_dot version)) [ none ↦ Number.neg 0 | some n ↦ n ]

abbrev pub number_eq : Number → Number → Bool
number_eq (Number.nonneg a) (Number.nonneg b) = a == b
number_eq (Number.neg a) (Number.neg b) = a == b
number_eq _ _ = false

unfoldable pub versions_compatible : (Text → Option Number) → Number → Text → Text → Bool
versions_compatible to_int major a b =
    number_eq (parse_major to_int a) (parse_major to_int b)
    && number_eq (parse_major to_int b) major

-- The subscriptions of the connection, the bus, and the frames put on the way out.
pub record Connection : Type 0 where
  pub subs : List (Topic × ℕ)
  pub bus : PubSub Params
  pub outbound : List Frame

abbrev pub find_sub : Topic → List (Topic × ℕ) → Option ℕ
find_sub topic [] = none
find_sub topic ((t, i) ∷ subs) = if topic_eq t topic then some i else find_sub topic subs

abbrev pub drop_sub : Topic → List (Topic × ℕ) → List (Topic × ℕ)
drop_sub topic [] = []
drop_sub topic ((t, i) ∷ subs) = if topic_eq t topic then subs else (t, i) ∷ drop_sub topic subs

abbrev pub with_sub : Connection → Topic → Option (ℕ × PubSub Params) → Option Connection
with_sub c topic none = none
with_sub c topic (some (i, bus)) = some (record c { subs = c.subs ++ (topic, i) ∷ []; bus = bus })

-- `if topic not in subs`; `none` is the `KeyError` of a topic without a configuration.
unfoldable pub subscribe_topic : Connection → Topic → Option Connection
subscribe_topic c topic =
    if is_some (find_sub topic c.subs) then some c else with_sub c topic (subscribe c.bus topic)

unfoldable pub subscribe_topics : Connection → List Topic → Option Connection
subscribe_topics c [] = some c
subscribe_topics c (topic ∷ topics) = elim (subscribe_topic c topic) [
  | none ↦ none
  | some c' ↦ subscribe_topics c' topics
]

-- `if topic in subs`
abbrev pub without_sub : Connection → Topic → Option ℕ → Connection
without_sub c topic none = c
without_sub c topic (some i) = record c {
  subs = drop_sub topic c.subs;
  bus = unsubscribe c.bus topic i;
}

unfoldable pub unsubscribe_topics : Connection → List Topic → Connection
unsubscribe_topics c [] = c
unsubscribe_topics c (topic ∷ topics) =
    unsubscribe_topics (without_sub c topic (find_sub topic c.subs)) topics

-- An exception leaves the loop.
abbrev pub continue_with : Connection → (Connection → Connection) → Option Connection → Connection
continue_with c next none = c
continue_with c next (some c') = next c'

module _ (dispatch : Text → Text → Params → Params) where
  -- One turn of the read loop on a frame; `none` is an exception.
  unfoldable pub on_frame : Connection → Frame → Option Connection
  on_frame c (Frame.request id method params) =
      some
        (record c { outbound = c.outbound ++ Frame.response id (dispatch id method params) ∷ [] })
  on_frame c (Frame.subscribe_to topics) = subscribe_topics c topics
  on_frame c (Frame.unsubscribe_from topics) = some (unsubscribe_topics c topics)
  on_frame c _ = some c

  -- The main read loop; what is too large is caught nowhere and ends it.
  unfoldable pub read_loop : Connection → List Turn → Connection
  read_loop c [] = c
  read_loop c ((true, read) ∷ turns) = c
  read_loop c ((false, Read.too_large) ∷ turns) = c
  read_loop c ((false, Read.bad why) ∷ turns) =
      let rest = read_loop c turns in if is_closed why then c else rest
  read_loop c ((false, Read.frame f) ∷ turns) =
      continue_with c (λ c'. read_loop c' turns) (on_frame c f)

-- The handshake: the client's first frame, then the loop; the server's own hello comes first.
unfoldable pub serve_connection :
    (Text → Option Number)
    → Text
    → Number
    → (Text → Text → Params → Params)
    → Connection
    → Read
    → List Turn
    → Connection
serve_connection to_int version major dispatch c (Read.frame (Frame.hello theirs)) turns =
    let greeted : Connection = record c { outbound = c.outbound ++ Frame.hello version ∷ [] } in
    if versions_compatible to_int major theirs version
    then read_loop dispatch greeted turns
    else record greeted {
      outbound = greeted.outbound ++ Frame.error [] (codes "version_mismatch") ∷ [];
    }
serve_connection to_int version major dispatch c (Read.frame other) turns = record c {
  outbound =
      (c.outbound ++ Frame.hello version ∷ []) ++ Frame.error [] (codes "protocol_error") ∷ [];
}
serve_connection to_int version major dispatch c _ turns = record c {
  outbound = c.outbound ++ Frame.hello version ∷ [];
}
