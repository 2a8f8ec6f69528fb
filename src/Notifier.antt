-- ===== src/Notifier.antt =====
-- internal/infrastructure/notifier: the payloads, the posting of one and the fan-out of an event. JSON,
-- HTTP and the format of a time are the argument `Web`.
use secret_rotator.Prelude.{ℕ, leb, List, [], ◌∷◌, ◌++◌, if◌then◌else◌}
use secret_rotator.Prelude.Int.{ℤ}
use secret_rotator.Prelude.Result.{Result, ok, err}
use secret_rotator.Prelude.Text.{Text, codes, eq_text}
use secret_rotator.Application.Ports.{Call}

pub record Event : Type 0 where
  pub secret_name : Text
  pub status : Text
  pub details : Text
  pub timestamp : ℤ

pub record Embed : Type 0 where
  pub title : Text
  pub description : Text
  pub color : ℕ
  pub timestamp : Text

pub record Block : Type 0 where
  pub kind : Text
  pub text_kind : Text
  pub text : Text

pub record GenericPayload : Type 0 where
  pub secret_name : Text
  pub status : Text
  pub details : Text
  pub timestamp : Text

pub data Payload : Type 0 where
  embeds : List Embed → Payload
  blocks : Text → List Block → Payload
  plain : GenericPayload → Payload

pub data SendError (E : Type 0) : Type 0 where
  marshalling_payload : E → SendError E
  creating_request : E → SendError E
  sending_webhook : E → SendError E
  webhook_status : ℕ → SendError E

pub record Web (W E : Type 0) : Type 0 where
  pub marshal : Payload → Result E Text
  pub new_request : Text → Text → Result E Text
  -- the status of the response
  pub do_request : Text → Call W E ℕ
  pub rfc3339 : ℤ → Text

-- The configured kinds of notifier, each with its URL.
pub data Notifier : Type 0 where
  discord slack generic : Text → Notifier

pub record NotifyConfig : Type 0 where
  pub kind : Text
  pub url : Text

abbrev pub notifier_for : NotifyConfig → Notifier
notifier_for c =
    if eq_text c.kind (codes "discord")
    then discord c.url
    else if eq_text c.kind (codes "slack")
    then slack c.url
    else generic c.url

-- `NewNotifiersFromConfig`.
unfoldable pub new_notifiers : List NotifyConfig → List Notifier
new_notifiers [] = []
new_notifiers (c ∷ cs) = notifier_for c ∷ new_notifiers cs

module _ {W E : Type 0} (web : Web W E) where
  open web use {marshal, new_request, do_request, rfc3339}

  abbrev pub after_response : Result E ℕ × W → Result (SendError E) (Unit {0}) × W
  after_response (err e, w) = (err (sending_webhook e), w)
  after_response (ok status, w) =
      if leb 400 status then (err (webhook_status status), w) else (ok tt, w)

  abbrev pub after_request : Result E Text → Call W (SendError E) (Unit {0})
  after_request (err e) w = (err (creating_request e), w)
  after_request (ok request) w = after_response (do_request request w)

  abbrev pub after_marshal : Text → Result E Text → Call W (SendError E) (Unit {0})
  after_marshal url (err e) w = (err (marshalling_payload e), w)
  after_marshal url (ok body) w = after_request (new_request url body) w

  -- `postJSON`.
  unfoldable pub post_json : Text → Payload → Call W (SendError E) (Unit {0})
  post_json url payload w = after_marshal url (marshal payload) w

  unfoldable pub discord_payload : Event → Payload
  discord_payload e = embeds (
      record {
        title = codes "Secret Rotation: " ++ e.status;
        description = e.secret_name ++ (codes ": " ++ e.details);
        color = (if eq_text e.status (codes "failed") then 15158332 else 3066993);
        timestamp = rfc3339 e.timestamp;
      }
      ∷ [])

  unfoldable pub slack_payload : Event → Payload
  slack_payload e =
      blocks (codes "Secret Rotation " ++ (e.status ++ (codes ": " ++ e.secret_name))) (
        record {
          kind = codes "section";
          text_kind = codes "mrkdwn";
          text =
              codes "*Secret Rotation "
              ++ (e.status
                  ++ (codes "*\n*Secret:* "
                      ++ (e.secret_name ++ (codes "\n*Details:* " ++ e.details))));
        }
        ∷ [])

  unfoldable pub generic_payload : Event → Payload
  generic_payload e = plain (record {
    secret_name = e.secret_name;
    status = e.status;
    details = e.details;
    timestamp = rfc3339 e.timestamp;
  })

  -- The `Send` of each notifier.
  unfoldable pub send_one : Notifier → Event → Call W (SendError E) (Unit {0})
  unfolding post_json discord_payload slack_payload generic_payload
  send_one (discord url) e = post_json url (discord_payload e)
  send_one (slack url) e = post_json url (slack_payload e)
  send_one (generic url) e = post_json url (generic_payload e)

  abbrev pub noted : List (SendError E) → Result (SendError E) (Unit {0}) → List (SendError E)
  noted errs (ok _) = errs
  noted errs (err e) = errs ++ e ∷ []

  -- The loop of `Dispatcher.Send`: every notifier is called, whatever the others return.
  unfoldable pub send_loop : List Notifier → Event → List (SendError E) → W → List (SendError E) × W
  unfolding send_one
  send_loop [] e errs w = (errs, w)
  send_loop (n ∷ ns) e errs w = let (r, w') = send_one n e w in send_loop ns e (noted errs r) w'

  -- `errors.Join`, which is nil if there is no error.
  abbrev pub joined : List (SendError E) × W → Result (List (SendError E)) (Unit {0}) × W
  joined ([], w) = (ok tt, w)
  joined (e ∷ es, w) = (err (e ∷ es), w)

  -- `Dispatcher.Send`.
  unfoldable pub send : List Notifier → Event → Call W (List (SendError E)) (Unit {0})
  unfolding send_loop
  send ns e w = joined (send_loop ns e [] w)
