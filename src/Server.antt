-- ===== src/Server.antt =====
-- tools/lab-server.py: the loopback bridge. This file has the requests, the responses, the check of
-- `Host` and `Origin`, and the laboratory as an interface; `Handler` is in Post and Get, `Laboratory`
-- in Lab.
pub mod Static
pub mod Post
pub mod Get
pub mod Lab
pub mod Entry
use mini_linux.Prelude.{
  ℕ, ◌≡◌, Bool, true, false, ◌&&◌, ◌||◌, List, [], ◌∷◌, ◌++◌, Option, none, some,
}
use mini_linux.Prelude.Text.{Text, codes, text_eq}
use mini_linux.Prelude.Exec.{Exc, value_error, bad_value, Result, ok, err, Exec}
use mini_linux.Guest.Session.{Snapshot, is_ascii}

-- what `json.loads` makes
mutual
  pub data Json : Type 0 where
    null : Json
    boolean : Bool → Json
    number : Text → Json
    string : Text → Json
    array : Items → Json
    object : Fields → Json

  pub data Items : Type 0 where
    nil : Items
    cons : Json → Items → Items

  pub data Fields : Type 0 where
    end : Fields
    field : Text → Json → Fields → Fields

-- A request: its target, the headers that the handler reads, and the bytes behind them.
pub record Request : Type 0 where
  pub path : Text
  pub host : Option Text
  pub origin : Option Text
  pub content_length : Option Text
  pub content_type : Option Text
  pub stream : List ℕ

-- The snapshot with the keys that the handler writes into it.
pub record State : Type 0 where
  pub snapshot : Snapshot
  pub epoch : Text
  pub guest_memory : ℕ

pub data Body : Type 0 where
  error : Text → Body
  exception : Exc → Body
  okay : Body
  state : State → Body
  manual : Text → Body
  file : List ℕ → Body

pub record Response : Type 0 where
  pub status : ℕ
  pub body : Body
  pub mime : Text

abbrev pub json_mime : Text
json_mime = codes "application/json"

-- `self.response(status, body)`
abbrev pub respond : ℕ → Body → Response
respond status body = record { status = status; body = body; mime = json_mime }

abbrev or_empty : Option Text → Text
or_empty none = []
or_empty (some t) = t

-- `port` is the decimal text of `self.server.server_port`.
abbrev pub loopback_names : Text → List Text
loopback_names port = (codes "127.0.0.1:" ++ port) ∷ (codes "localhost:" ++ port) ∷ []

abbrev pub is_one_of : Text → List Text → Bool
is_one_of t [] = false
is_one_of t (s ∷ ss) = text_eq t s || is_one_of t ss

abbrev origins : List Text → List Text
origins [] = []
origins (s ∷ ss) = (codes "http://" ++ s) ∷ origins ss

abbrev pub origin_allowed : Option Text → List Text → Bool
origin_allowed none allowed = true
origin_allowed (some o) allowed = is_one_of o (origins allowed)

unfoldable pub local_request : Text → Request → Bool
local_request port r =
    is_one_of (or_empty r.host) (loopback_names port)
    && origin_allowed r.origin (loopback_names port)

abbrev pub local_only : Response
local_only = respond 403 (error (codes "Local laboratory only"))

-- A ValueError, which `do_POST` answers with 400.
abbrev pub is_value_error {ℓ} : {A : Type ℓ} → Result A → Bool
is_value_error (err value_error) = true
is_value_error (err (bad_value m)) = true
is_value_error _ = false

-- `self.server.lab`, as the handler uses it: methods over a state `S`, which may raise.
pub record Laboratory (S : Type 0) : Type 0 where
  pub send : Text → Exec S (Unit {0})
  pub restart : Exec S (Unit {0})
  pub close : Exec S (Unit {0})
  pub snapshot : Exec S Snapshot
  pub epoch : S → Text
  pub memory : S → ℕ
  -- a text that is ASCII is sent, or refused for another reason than its value
  pub send_ascii :
      (text : Text) (s : S) → is_ascii text ≡ true → is_value_error (send text s).0 ≡ false
