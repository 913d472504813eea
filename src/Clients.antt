-- ===== src/Clients.antt =====
-- What the scripts that test a bridge over HTTP share (tools/test-lab-bridge.py,
-- tools/test-linux-package.py and desktop-http-probe.py under docs/evidence): a request with the status
-- that it expects, and what is read of the answer.
pub mod Passing
pub mod Probe
pub mod Bridge
pub mod Play
use mini_linux.Prelude.{
  ℕ, Bool, true, false, ◌&&◌, ◌||◌, List, [], ◌∷◌, ◌++◌, Option, none, some, ◌==◌, all, any, drop,
}
use mini_linux.Prelude.Text.{Text, codes, contains}
use mini_linux.Prelude.Int.{ℤ, pos, int_eq}
use mini_linux.Prelude.Exec.{Result, Exec}
use mini_linux.Guest.{Process}
use mini_linux.Guest.Session.{Snapshot, prompt}
use mini_linux.Server.{Json, string, object, Fields, end, field, Body, state, State}
use mini_linux.Checks.{Verdict, passed, failed, key_error, from, holds}
use mini_linux.Checks.Steps.{Step, ◌>>=◌, ◌>>◌, ask, judge}

-- A request: its target, its body, whether it names the type JSON, and the headers that it sets.
pub record Query : Type 0 where
  pub target : Text
  pub body : Option Json
  pub is_json : Bool
  pub host : Option Text
  pub origin : Option Text

pub record Reply : Type 0 where
  pub status : ℕ
  pub content : List ℕ

-- `urlopen`, for which an HTTPError is a reply too, over the state `S` of the world; and how many
-- rounds of a loop that waits from here on begin before its deadline.
pub record Web (S : Type 0) : Type 0 where
  pub urlopen : Query → Exec S Reply
  pub rounds : S → ℕ

abbrev pub get : Text → Query
get target = record { target = target; body = none; is_json = false; host = none; origin = none }

abbrev pub post : Text → Json → Query
post target body = record {
  target = target;
  body = some body;
  is_json = true;
  host = none;
  origin = none;
}

-- `{"text": text}`
abbrev pub text_body : Text → Json
text_body text = object (field (codes "text") (string text) end)

-- `{}`
abbrev pub no_fields : Json
no_fields = object end

-- an `assert`, without the values that it shows
abbrev pub asserts : Bool → Verdict (Unit {0})
asserts b = holds b []

-- `json.loads(content)["console"]` and the like: only an answer with a state has these keys
abbrev pub state_of : Body → Verdict State
state_of (state x) = passed x
state_of _ = failed key_error

-- `"mini$ " in state["console"][offset:]`
abbrev pub new_text : ℕ → State → Text
new_text offset x = drop offset x.snapshot.console

abbrev pub is_prompted : ℕ → State → Bool
is_prompted offset x = contains prompt (new_text offset x)

abbrev has_pid : ℤ → Process → Bool
has_pid n p = int_eq p.pid n

-- `{p["pid"] for p in processes} == {1, 2}`
unfoldable pub only_first_pids : List Process → Bool
only_first_pids ps =
    all (λ p. has_pid (pos 1) p || has_pid (pos 2) p) ps
    && (any (has_pid (pos 1)) ps && any (has_pid (pos 2)) ps)

-- `loads` is `json.loads` on an answer of the bridge.
module _ {S : Type 0} (web : Web S) (loads : List ℕ → Result Body) where
  -- the reply of this status
  unfoldable pub request : ℕ → Query → Step S (List ℕ)
  request expected q = do
    reply ← ask (web.urlopen q)
    judge (asserts (reply.status == expected))
    judge (passed reply.content)

  -- a path below /api/
  unfoldable pub request_json : ℕ → Query → Step S Body
  request_json expected q = do content ← request expected q; judge (from (loads content))

  unfoldable pub read_state : Step S State
  read_state = do body ← request_json 200 (get (codes "/api/state")); judge (state_of body)
