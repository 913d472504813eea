-- ===== src/Witnesses/Handler.antt =====
-- The bridge test against the handler of tools/lab-server.py, with a laboratory on a guest.
use mini_linux.Prelude.{
  ℕ, ◌≡◌, refl, sym, ap, ◌∙◌, inl, inr, true, false, List, [], ◌∷◌, ◌++◌, Option, none, some, ◌==◌,
  length, if◌then◌else◌, take,
}
use mini_linux.Prelude.Text.{Text, codes, text_eq, rstrip, split}
use mini_linux.Prelude.Int.{int_of}
use mini_linux.Prelude.Exec.{Result, ok, err}
use mini_linux.Server.{
  Json, string, array, nil, object, end, field, Request, Response, Body, error, okay,
}
use mini_linux.Server.Get.{Site, do_get}
use mini_linux.Server.Post.{do_post}
use mini_linux.Server.Lab.{LabState}
use mini_linux.Checks.{passed}
use mini_linux.Checks.Userland.Shell.{repeat}
use mini_linux.Clients.{Query, Reply, Web, text_body}
use mini_linux.Clients.Bridge.{Bench, Run, refusals, ask_all}
use mini_linux.Clients.Bridge.Logged.{paths}
use mini_linux.Clients.Bridge.Refused.{Serves, IsSent}
use mini_linux.Clients.Bridge.Handler.{Parses, ask_all-refusals}
use mini_linux.Witnesses.Bridge.{qemu, lab_state, laboratory, site}

-- a number for each of the bodies that are read
abbrev body_code : Json → ℕ
body_code (object (field k (string t) end)) = if length t == 2 then 2 else 1
body_code _ = 0

abbrev json_loads : List ℕ → Result Json
json_loads bytes =
    if text_eq bytes (0 ∷ [])
    then ok (array nil)
    else if text_eq bytes (1 ∷ [])
    then ok (text_body (repeat b'x' 257))
    else ok (text_body (0x4f60 ∷ 0x597d ∷ []))

abbrev stream_of : Option Json → List ℕ
stream_of none = []
stream_of (some b) = body_code b ∷ []

abbrev host_of : Option Text → Text
host_of none = codes "127.0.0.1:8080"
host_of (some h) = h

abbrev sent : Query → Request
sent q = record {
  path = q.target;
  host = some (host_of q.host);
  origin = q.origin;
  content_length = some (codes "1");
  content_type = some (codes "application/json");
  stream = stream_of q.body;
}

abbrev render : Body → List ℕ
render (error m) = 1 ∷ m
render _ = []

abbrev loads : List ℕ → Result Body
loads (_ ∷ m) = ok (error m)
loads [] = ok okay

abbrev reply_of : Result Response × LabState → Result Reply × LabState
reply_of (ok r, s) = (ok (record { status = r.status; content = render r.body }), s)
reply_of (err e, s) = (err e, s)

abbrev parsing_site : Site
parsing_site = record site {
  urlparse = λ path.
      if text_eq path (codes "/api/state?after=invalid")
      then record { path = codes "/api/state"; after = some (codes "invalid") }
      else record { path = path; after = none };
}

abbrev handled : Option Json → Query → LabState → Result Response × LabState
handled none q s = do_get (laboratory qemu) parsing_site (codes "8080") (sent q) s
handled (some b) q s = do_post (laboratory qemu) json_loads (codes "8080") (sent q) s

abbrev handler_web : Web LabState
handler_web = record { urlopen = λ q s. reply_of (handled q.body q s); rounds = λ s. 0 }

abbrev handler_bench : Bench LabState
handler_bench = record {
  web = handler_web;
  restart = λ s. (ok tt, s);
  close = λ s. (ok tt, s);
  guest = λ s. 0;
  has_ended = λ g s. false;
  wait_for_text = λ text s. (ok tt, s);
  serve = λ s. (ok tt, s);
  shutdown = λ s. (ok tt, s);
  server_close = λ s. (ok tt, s);
}

named : (o : Option Text) (h : Text) → o ≡ some h → some (host_of o) ≡ some h
named none h e = cc e
named (some k) h e = e

unnamed : (o : Option Text) → o ≡ none → some (host_of o) ≡ some (codes "127.0.0.1:8080")
unnamed none e = refl
unnamed (some k) e = cc e

body_read : (b : Json) → IsSent b → json_loads (take 1 (body_code b ∷ [])) ≡ ok b
body_read b (inl e) = ap (λ c. json_loads (body_code c ∷ [])) e ∙ ap ok (sym e)
body_read b (inr (inl e)) = ap (λ c. json_loads (body_code c ∷ [])) e ∙ ap ok (sym e)
body_read b (inr (inr e)) = ap (λ c. json_loads (body_code c ∷ [])) e ∙ ap ok (sym e)

handler-Serves : Serves handler_web (laboratory qemu) parsing_site (codes "8080") json_loads render
unfolding int_of rstrip split
handler-Serves = record {
  sent = sent;
  path = λ q. refl;
  own_host = λ q e. unnamed q.host e;
  set_host = λ q h e. named q.host h e;
  origin = λ q. refl;
  is_json = λ q e. refl;
  size = λ q. 1;
  length_text = λ q. refl;
  parsed = λ q b e i. ap (λ o. json_loads (take 1 (stream_of o))) e ∙ body_read b i;
  gets = λ q s r t e h. ap (λ o. reply_of (handled o q s)) e ∙ ap reply_of h;
  posts = λ q b s r t e h. ap (λ o. reply_of (handled o q s)) e ∙ ap reply_of h;
}

handler-Parses : Parses parsing_site
handler-Parses = record { cursor = refl; readme = refl; parent = []; web = refl }

abbrev serving : Run LabState
serving = record { world = lab_state; guests = 0 ∷ []; results = []; serving = true }

ask_all-refusals_example :
    ask_all handler_bench loads refusals serving
    ≡ (passed tt, record serving { results = [] ++ paths refusals })
ask_all-refusals_example =
    ask_all-refusals handler_bench (laboratory qemu) parsing_site (codes "8080") json_loads loads
      render serving handler-Serves handler-Parses (λ m. refl)
