-- ===== src/Server/Get.antt =====
-- `Handler.do_GET`.
pub mod Files
pub mod Polling
use mini_linux.Prelude.{
  ℕ, Bool, true, false, not, ◌&&◌, List, [], ◌∷◌, ◌++◌, Option, none, some, if◌then◌else◌,
}
use mini_linux.Prelude.Text.{Text, codes, text_eq, starts_with}
use mini_linux.Prelude.Int.{ℤ, pos, ltb_ℤ, int_of}
use mini_linux.Prelude.Exec.{Exc, Result, ok, err, Exec, ◌>>=◌, ◌>>◌, pure, gets}
use mini_linux.Guest.{Event}
use mini_linux.Guest.Session.{Snapshot}
use mini_linux.Server.{
  Request, Body, error, state, manual, file, State, Response, respond, local_request, local_only,
  Laboratory,
}
use mini_linux.Server.Static.{is_relative_to, static_path}

-- `urlparse(self.path)`: the path, and the first `after` of the query
pub record Url : Type 0 where
  pub path : Text
  pub after : Option Text

-- What the handler reads of its host: the parser of addresses, the manual, WEB.resolve(), the files
-- and the guess of their types.
pub record Site : Type 0 where
  pub urlparse : Text → Url
  pub manual : Option Text
  pub web : List Text
  pub files : List Text → Option (List ℕ)
  pub guess_type : List Text → Option Text

abbrev pub cursor_text : Option Text → Text
cursor_text none = codes "0"
cursor_text (some t) = t

-- `[e for e in state["events"] if e["id"] > after]`
unfoldable pub events_since : ℤ → List Event → List Event
events_since after [] = []
events_since after (e ∷ es) =
    let rest = events_since after es in if ltb_ℤ after (pos e.id) then e ∷ rest else rest

abbrev pub no_page : Response
no_page = respond 404 (error (codes "No such laboratory page"))

abbrev pub with_charset : Text → Text
with_charset mime =
    if starts_with (codes "text/") mime then mime ++ codes "; charset=utf-8" else mime

abbrev pub mime_of : Option Text → Text
mime_of none = with_charset (codes "application/octet-stream")
mime_of (some m) = with_charset m

abbrev pub file_response : Option Text → Option (List ℕ) → Response
file_response mime none = no_page
file_response mime (some bytes) = record { status = 200; body = file bytes; mime = mime_of mime }

unfoldable pub get_file : Site → Text → Response
get_file site path =
    let target = static_path site.web path in
    if not (is_relative_to target site.web)
    then no_page
    else file_response (site.guess_type target) (site.files target)

abbrev pub get_manual : Option Text → Response
get_manual none =
    respond 404
      (error (codes "Manual is missing from this laboratory; unpack the original package again."))
get_manual (some text) = respond 200 (manual text)

module _ {S : Type 0} (lab : Laboratory S) (site : Site) where
  unfoldable pub get_state : Option ℤ → Exec S Response
  get_state none = pure (respond 400 (error (codes "Invalid event cursor")))
  get_state (some after) = do
    snap ← lab.snapshot
    epoch ← gets lab.epoch
    memory ← gets lab.memory
    pure (
        respond 200 (
          state (record {
            snapshot = record snap { events = events_since after snap.events };
            epoch = epoch;
            guest_memory = memory;
          })))

  unfoldable pub do_get : Text → Request → Exec S Response
  do_get port r =
      let url = site.urlparse r.path in
      if not (local_request port r)
      then pure local_only
      else if text_eq url.path (codes "/api/state")
      then get_state (int_of (cursor_text url.after))
      else if text_eq url.path (codes "/api/manual")
      then pure (get_manual site.manual)
      else pure (get_file site url.path)
