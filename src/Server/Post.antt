-- ===== src/Server/Post.antt =====
-- `Handler.do_POST`.
pub mod Input
pub mod Answers
use mini_linux.Prelude.{
  ℕ, Bool, true, false, not, ◌&&◌, ◌||◌, List, [], ◌∷◌, ◌++◌, Option, none, some, ◌==◌, ltb, leb,
  if◌then◌else◌, length, take, any,
}
use mini_linux.Prelude.Text.{Text, codes, text_eq, split}
use mini_linux.Prelude.Int.{ℤ, pos, negsuc, int_of}
use mini_linux.Prelude.Exec.{
  Exc, value_error, index_error, attribute_error, bad_value, runtime_error, os_error, timeout_error,
  timeout_expired, Result, ok, err, Exec, ◌>>=◌, ◌>>◌, pure, raise, lift, to_int,
}
use mini_linux.Server.{
  Json, null, boolean, number, string, array, object, Fields, end, field, Request, Body, error,
  exception, okay, Response, respond, json_mime, local_request, local_only, Laboratory,
}

abbrev pub header_or : Text → Option Text → Text
header_or d none = d
header_or d (some t) = t

-- the size of the body, checked
abbrev pub checked_size : ℤ → Result ℕ
checked_size (pos n) =
    if ltb n 1 || ltb 1024 n then err (bad_value (codes "Request too large or empty")) else ok n
checked_size (negsuc n) = err (bad_value (codes "Request too large or empty"))

-- `header.split(";")[0]`
abbrev first_part : List Text → Text
first_part [] = []
first_part (t ∷ ts) = t

abbrev pub is_json_type : Text → Bool
is_json_type t = text_eq (first_part (split b';' t)) json_mime

-- `body.get("text")`
unfoldable pub get_text : Fields → Option Json
get_text end = none
get_text (field k v fs) = if text_eq k (codes "text") then some v else get_text fs

-- a character that `/api/input` refuses
abbrev pub is_bad_char : ℕ → Bool
is_bad_char c = ltb 126 c || (ltb c 32 && not (c == 13 || c == 10 || c == 8 || c == 9))

abbrev pub bad_input : Exc
bad_input = bad_value (codes "Use at most 256 ASCII terminal characters")

unfoldable pub terminal_text : Option Json → Result Text
terminal_text (some (string text)) =
    if length text == 0 || ltb 256 (length text) || any is_bad_char text
    then err bad_input
    else ok text
terminal_text _ = err bad_input

abbrev pub as_object : Json → Result Fields
as_object (object fs) = ok fs
as_object _ = err (bad_value (codes "Expected a JSON object"))

-- `str(exc)` of the two handlers; other exceptions leave `do_POST`.
abbrev pub answer : {S : Type 0} → Result Response × S → Result Response × S
answer (ok r, s) = (ok r, s)
answer (err value_error, s) = (ok (respond 400 (exception value_error)), s)
answer (err (bad_value m), s) = (ok (respond 400 (error m)), s)
answer (err (runtime_error m), s) = (ok (respond 503 (error m)), s)
answer (err (os_error m), s) = (ok (respond 503 (error m)), s)
answer (err (timeout_error m), s) = (ok (respond 503 (error m)), s)
answer (err index_error, s) = (err index_error, s)
answer (err attribute_error, s) = (err attribute_error, s)
answer (err timeout_expired, s) = (err timeout_expired, s)

-- `loads` is `json.loads`: a value, or what it raises.
module _ {S : Type 0} (lab : Laboratory S) (loads : List ℕ → Result Json) where
  -- the fields of the body, checked
  unfoldable pub read_fields : Request → Exec S Fields
  read_fields r = do
    n ← lift (to_int (header_or (codes "0") r.content_length))
    size ← lift (checked_size n)
    if is_json_type (header_or [] r.content_type)
        then pure tt
        else raise (bad_value (codes "Expected JSON"))
    json ← lift (loads (take size r.stream))
    lift (as_object json)

  unfoldable pub operate : Text → Fields → Exec S Response
  operate path fs =
      if text_eq path (codes "/api/input")
      then (do text ← lift (terminal_text (get_text fs)); lab.send text; pure (respond 200 okay))
      else if text_eq path (codes "/api/restart")
      then (do lab.restart; pure (respond 200 okay))
      else if text_eq path (codes "/api/stop")
      then (do lab.close; pure (respond 200 okay))
      else pure (respond 404 (error (codes "Unknown operation")))

  unfoldable pub do_post : Text → Request → Exec S Response
  do_post port r s =
      if local_request port r
      then answer ((do fs ← read_fields r; operate r.path fs) s)
      else (ok local_only, s)
