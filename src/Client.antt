-- ===== src/Client.antt =====
-- app/ari/client.py: the requests of the client of Asterisk, what their answers mean, and the pauses
-- between the connections of the event stream.
pub mod Backoff
pub mod Errors
use number_masking_service.Prelude.{
  ℕ, ◌*◌, ◌≤◌, min, Option, none, some, List, [], ◌∷◌, ◌++◌, Bool, true, false, not, ◌&&◌, ◌==◌,
  Text, codes, is_empty, leb, if◌then◌else◌,
}
use number_masking_service.Crypto.{decimal}
use number_masking_service.Stasis.{
  Env, Await, Origination, answer, ring, ring_stop, hangup, play, create_bridge, add_to_bridge,
  destroy_bridge, originate, set_variable, subscribe_channel, Reply, done, answer_text, raised,
}

abbrev http_error_threshold : ℕ
http_error_threshold = 400

abbrev http_no_content : ℕ
http_no_content = 204

abbrev pub http_not_found : ℕ
http_not_found = 404

pub data Method : Type 0 where
  get post delete : Method

pub data Field : Type 0 where
  text_field : Text → Field
  number_field : ℕ → Field

-- The arguments of `_request`; a body is sent as JSON.
pub record HttpCall : Type 0 where
  pub method : Method
  pub path : Text
  pub params : List (Text × Text)
  pub body : List (Text × Field)

unfoldable pub plain : Method → Text → HttpCall
plain method path = record { method = method; path = path; params = []; body = [] }

unfoldable pub on_channel : Text → Text → Text
on_channel channel rest = codes "/channels/" ++ (channel ++ rest)

-- `if value: body[key] = value`.
unfoldable pub filled : Text → Text → List (Text × Field)
filled key value = if is_empty value then [] else (key, text_field value) ∷ []

unfoldable pub originate_body : Env → Origination → List (Text × Field)
unfolding filled
originate_body e o =
    (codes "endpoint", text_field o.endpoint)
    ∷ (codes "app", text_field e.settings.ari_app)
    ∷ (codes "appArgs", text_field o.app_args)
    ∷ (codes "callerId", text_field o.caller_id)
    ∷ (codes "timeout", number_field o.timeout)
    ∷ (filled (codes "originator") o.originator ++ filled (codes "channelId") o.channel_id)

unfoldable pub reason : Option ℕ → List (Text × Text)
reason none = []
reason (some cause) = (codes "reason_code", decimal cause) ∷ []

unfoldable pub or_text : Text → Text → Text
or_text t other = if is_empty t then other else t

unfoldable pub hangup_request : Text → Option ℕ → HttpCall
unfolding plain on_channel reason
hangup_request c cause = record (plain delete (on_channel c [])) { params = reason cause }

unfoldable pub play_request : Text → Text → HttpCall
unfolding plain on_channel
play_request c media = record (plain post (on_channel c (codes "/play"))) {
  params = (codes "media", codes "sound:" ++ media) ∷ (codes "lang", codes "ru") ∷ [];
}

unfoldable pub create_bridge_request : Text → Text → HttpCall
unfolding plain or_text
create_bridge_request b name = record (plain post (codes "/bridges")) {
  params =
      (codes "type", codes "mixing") ∷ (codes "bridgeId", b) ∷ (codes "name", or_text name b) ∷ [];
}

unfoldable pub add_to_bridge_request : Text → Text → HttpCall
unfolding plain
add_to_bridge_request b c = record (plain post (codes "/bridges/" ++ (b ++ codes "/addChannel"))) {
  params = (codes "channel", c) ∷ [];
}

unfoldable pub destroy_bridge_request : Text → HttpCall
unfolding plain
destroy_bridge_request b = plain delete (codes "/bridges/" ++ b)

unfoldable pub originate_request : Env → Origination → HttpCall
unfolding plain originate_body
originate_request e o = record (plain post (codes "/channels")) { body = originate_body e o }

unfoldable pub set_variable_request : Text → Text → Text → HttpCall
unfolding plain on_channel
set_variable_request c name value = record (plain post (on_channel c (codes "/variable"))) {
  params = (codes "variable", name) ∷ (codes "value", value) ∷ [];
}

unfoldable pub subscribe_channel_request : Text → Text → HttpCall
unfolding plain
subscribe_channel_request app c =
    record (plain post (codes "/applications/" ++ (app ++ codes "/subscription"))) {
      params = (codes "eventSource", codes "channel:" ++ c) ∷ [];
    }

-- The request that the client makes for what a coroutine awaits, if it makes one.
unfoldable pub http_of : Env → Await → Option HttpCall
unfolding plain on_channel hangup_request play_request create_bridge_request add_to_bridge_request
    destroy_bridge_request originate_request set_variable_request subscribe_channel_request
http_of e (answer c) = some (plain post (on_channel c (codes "/answer")))
http_of e (ring c) = some (plain post (on_channel c (codes "/ring")))
http_of e (ring_stop c) = some (plain delete (on_channel c (codes "/ring")))
http_of e (hangup c cause) = some (hangup_request c cause)
http_of e (play c media) = some (play_request c media)
http_of e (create_bridge b name) = some (create_bridge_request b name)
http_of e (add_to_bridge b c) = some (add_to_bridge_request b c)
http_of e (destroy_bridge b) = some (destroy_bridge_request b)
http_of e (originate o) = some (originate_request e o)
http_of e (set_variable c name value) = some (set_variable_request c name value)
http_of e (subscribe_channel app c) = some (subscribe_channel_request app c)
http_of e _ = none

-- What the JSON library gives: a value, and the text under its "id", if it has one.
pub record Json : Type 1 where
  pub Value : Type 0
  pub id : Value → Option Text

-- An HTTP response; `json` is none where its content is not JSON.
pub record Response (j : Json) : Type 0 where
  pub status_code : ℕ
  pub has_content : Bool
  pub json : Option j.Value

pub data Delivery (j : Json) : Type 0 where
  undelivered : Delivery j
  delivered : Response j → Delivery j

-- What `_request` returns, or the status of the `ARIError` that it raises.
pub data Outcome (j : Json) : Type 0 where
  gave : Option j.Value → Outcome j
  ari_error : ℕ → Outcome j

unfoldable pub id_reply : Option Text → Reply
id_reply none = done
id_reply (some t) = answer_text t

module _ {j : Json} where
  unfoldable pub read_response : Response j → Outcome j
  read_response r =
      if leb http_error_threshold r.status_code
      then ari_error r.status_code
      else if r.status_code == http_no_content
      then gave none
      else if r.has_content
      then gave r.json
      else gave none

  -- `_request`.
  unfoldable pub outcome : Delivery j → Outcome j
  unfolding read_response
  outcome undelivered = ari_error 0
  outcome (delivered r) = read_response r

  -- An error that says that the thing is not there is passed over.
  unfoldable pub unless_missing : Outcome j → Outcome j
  unless_missing (gave v) = gave v
  unless_missing (ari_error n) = if n == http_not_found then gave none else ari_error n

  unfoldable pub plain_reply : Outcome j → Reply
  plain_reply (gave v) = done
  plain_reply (ari_error n) = raised

  unfoldable pub play_reply : Outcome j → Reply
  unfolding id_reply
  play_reply (gave none) = done
  play_reply (gave (some v)) = id_reply (j.id v)
  play_reply (ari_error n) = raised

  -- How a coroutine is resumed that awaits the request.
  unfoldable pub reply_of : Await → Delivery j → Reply
  unfolding outcome unless_missing plain_reply play_reply
  reply_of (play c media) d = play_reply (outcome d)
  reply_of (destroy_bridge b) d = plain_reply (unless_missing (outcome d))
  reply_of _ d = plain_reply (outcome d)

  -- `get_channel`.
  unfoldable pub get_channel : Delivery j → Outcome j
  unfolding unless_missing
  get_channel d = unless_missing (outcome d)

  -- `ping`.
  unfoldable pub ping : Outcome j → Bool
  ping (gave v) = true
  ping (ari_error n) = false

  -- `application_registered`; none where the error is passed on.
  unfoldable pub application_registered : Outcome j → Option Bool
  application_registered (gave v) = some true
  application_registered (ari_error n) = if n == http_not_found then some false else none

  -- One round of `_registration_watchdog`: whether the event stream is dropped to open a fresh one.
  unfoldable pub registration_round : Bool → Delivery j → Bool
  unfolding application_registered
  registration_round connected d =
      connected
      && elim (application_registered (outcome d)) [ none ↦ false | some known ↦ not known ]

-- How a connection of the event stream ends: it was not made, or it broke after it was made, or it was
-- closed.
pub data Connection : Type 0 where
  refused broken closed : Connection

-- The pauses of `events` behind each connection; `delay` is the one to come.
unfoldable pub pauses : ℕ → ℕ → ℕ → List Connection → List ℕ
pauses least most delay [] = []
pauses least most delay (refused ∷ rest) = delay ∷ pauses least most (min (delay * 2) most) rest
pauses least most delay (broken ∷ rest) = least ∷ pauses least most (min (least * 2) most) rest
pauses least most delay (closed ∷ rest) = least ∷ pauses least most least rest
