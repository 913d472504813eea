-- ===== src/Clients/Bridge/Handler.antt =====
-- The requests that tools/test-lab-bridge.py wants refused are refused by the handler, in every state.
use mini_linux.Prelude.{
  ==_iff, ℕ, ◌≡◌, refl, sym, ap, ◌∙◌, inl, inr, List, [], ◌∷◌, ◌++◌, none, some, append-nil,
  append_assoc, Bool-cases,
}
use mini_linux.Prelude.Text.{Text, rstrip, codes, starts_with}
use mini_linux.Prelude.Int.{int_of}
use mini_linux.Prelude.Exec.{Result, ok}
use mini_linux.Server.{Json, Body, error, respond, local_only, Laboratory, array, nil}
use mini_linux.Server.Get.{Site, get_state, do_get}
use mini_linux.Server.Post.{get_text, terminal_text, do_post}
use mini_linux.Checks.{passed}
use mini_linux.Checks.Steps.{follow, judge, ◌>>◌}
use mini_linux.Checks.Userland.Shell.{repeat}
use mini_linux.Clients.{Query, Web, get, post, text_body, request}
use mini_linux.Clients.Bridge.{Bench, Run, refusals, ask_bridge, well_formed, ask_all}
use mini_linux.Clients.Bridge.Logged.{paths}
use mini_linux.Clients.Bridge.Refused.{
  Serves, IsSent, IsBadBody, own-local, outside_host-foreign, outside_origin-foreign,
  readme_refused, bad_body-refused,
}

-- A query that is answered with this status and a message, and changes nothing.
abbrev pub RefusesWith : {S : Type 0} → Web S → (Body → List ℕ) → S → ℕ × Query → Type 0
RefusesWith web render s (n, q) =
    (m : Text) × (web.urlopen q s ≡ (ok (record { status = n; content = render (error m) }), s))

abbrev pub AllRefused : {S : Type 0} → Web S → (Body → List ℕ) → S → List (ℕ × Query) → Type 0
AllRefused web render s [] = Unit {0}
AllRefused web render s (q ∷ qs) = RefusesWith web render s q × AllRefused web render s qs

-- `urlparse` of the two targets, and the place of the web folder
pub record Parses (site : Site) : Type 0 where
  pub cursor :
      site.urlparse (codes "/api/state?after=invalid")
      ≡ record { path = codes "/api/state"; after = some (codes "invalid") }
  pub readme :
      site.urlparse (codes "/../README.md") ≡ record { path = codes "/../README.md"; after = none }
  pub parent : List Text
  pub web : site.web ≡ parent ++ codes "web" ∷ []

module _ {S : Type 0} (web : Web S) (lab : Laboratory S) (site : Site) (port : Text)
    (json_loads : List ℕ → Result Json) (render : Body → List ℕ)
    (h : Serves web lab site port json_loads render) (parses : Parses site) where
  cursor_refused : (s : S) → RefusesWith web render s (400, get (codes "/api/state?after=invalid"))
  unfolding do_get get_state int_of rstrip
  cursor_refused s =
      let q = get (codes "/api/state?after=invalid") in
      let own = own-local port (h.sent q) (h.own_host q refl) (h.origin q) in
      (
        codes "Invalid event cursor",
        h.gets q s (respond 400 (error (codes "Invalid event cursor"))) s refl
            (rw (own, h.path q, parses.cursor)),
      )

  outside_refused : (s : S) → RefusesWith web render s (404, get (codes "/../README.md"))
  unfolding do_get
  outside_refused s =
      let q = get (codes "/../README.md") in
      let own = own-local port (h.sent q) (h.own_host q refl) (h.origin q) in
      (
        codes "No such laboratory page",
        h.gets q s (respond 404 (error (codes "No such laboratory page"))) s refl
            (rw (own, h.path q, parses.readme, readme_refused site parses.parent parses.web)),
      )

  abbrev outside_host : Query
  outside_host = record (get (codes "/api/state")) { host = some (codes "outside.example") }

  host_refused : (s : S) → RefusesWith web render s (403, outside_host)
  unfolding do_get
  host_refused s =
      let foreign =
        outside_host-foreign port (h.sent outside_host)
          (h.set_host outside_host (codes "outside.example") refl) in
      (codes "Local laboratory only", h.gets outside_host s local_only s refl (rw foreign))

  abbrev outside_origin : Query
  outside_origin = record (post (codes "/api/input") (text_body (codes "help\r"))) {
    origin = some (codes "http://outside.example");
  }

  origin_refused : (s : S) → RefusesWith web render s (403, outside_origin)
  unfolding do_post
  origin_refused s =
      let foreign = outside_origin-foreign port (h.sent outside_origin) (h.origin outside_origin) in
      (
        codes "Local laboratory only",
        h.posts outside_origin (text_body (codes "help\r")) s local_only s refl (rw foreign),
      )

  input_refused :
      (b : Json) (s : S)
      → IsSent b
      → IsBadBody b
      → RefusesWith web render s (400, post (codes "/api/input") b)
  input_refused b s sent bad =
      let q = post (codes "/api/input") b in
      let own = own-local port (h.sent q) (h.own_host q refl) (h.origin q) in
      let (m, e) =
        bad_body-refused lab json_loads port (h.sent q) (h.size q) b s own (h.path q)
          (h.length_text q) (h.is_json q refl) (h.parsed q b refl sent) bad in
      (m, h.posts q b s (respond 400 (error m)) s refl e)

  refusals-AllRefused : (s : S) → AllRefused web render s refusals
  unfolding get_text terminal_text
  refusals-AllRefused s =
      let long : IsBadBody (text_body (repeat b'x' 257)) = inr (_, refl, refl) in
      let wide : IsBadBody (text_body (0x4f60 ∷ 0x597d ∷ [])) = inr (_, refl, refl) in
      (
        cursor_refused s,
        (
          outside_refused s,
          (
            host_refused s,
            (
              origin_refused s,
              (
                input_refused (array nil) s (inl refl) (inl (codes "Expected a JSON object", refl)),
                (
                  input_refused (text_body (repeat b'x' 257)) s (inr (inl refl)) long,
                  (input_refused (text_body (0x4f60 ∷ 0x597d ∷ [])) s (inr (inr refl)) wide, tt),
                ),
              ),
            ),
          ),
        ),
      )

module _ {S : Type 0} (bench : Bench S) (loads : List ℕ → Result Body)
    (render : Body → List ℕ) where
  asked_once :
      (n : ℕ) (q : Query) (r : Run S) (m : Text)
      → bench.web.urlopen q r.world
        ≡ (ok (record { status = n; content = render (error m) }), r.world)
      → ask_bridge bench loads n q r
        ≡ (passed (render (error m)), record r { results = r.results ++ (q.target, n) ∷ [] })
  unfolding ask_bridge request
  asked_once n q r m e = rw (e, (==_iff n n).1 refl)

  well_formed-error :
      (path m : Text)
      → loads (render (error m)) ≡ ok (error m)
      → well_formed bench loads path (render (error m)) ≡ passed tt
  well_formed-error path m json = elim (Bool-cases (starts_with (codes "/api/") path)) [
    | inl yes_ ↦ rw (yes_, json)
    | inr no_ ↦ rw no_
  ]

  asked_all :
      (qs : List (ℕ × Query)) (r : Run S)
      → ((m : Text) → loads (render (error m)) ≡ ok (error m))
      → AllRefused bench.web render r.world qs
      → ask_all bench loads qs r ≡ (passed tt, record r { results = r.results ++ paths qs })
  unfolding ask_all
  asked_all [] r json h =
      ap (λ es. (passed tt, record r { results = es })) (sym (append-nil r.results))
  asked_all ((n, q) ∷ qs) r json ((m, e), h) =
      let r' = record r { results = r.results ++ (q.target, n) ∷ [] } in
      ap
        (follow (λ content.
          ◌>>◌ (judge (well_formed bench loads q.target content)) (ask_all bench loads qs)))
        (asked_once n q r m e)
      ∙ ap (λ v. follow (λ _. ask_all bench loads qs) (v, r'))
          (well_formed-error q.target m (json m))
      ∙ asked_all qs r' json h
      ∙ ap (λ es. (passed tt, record r { results = es }))
          (append_assoc r.results ((q.target, n) ∷ []) (paths qs))

-- The bridge test against the handler: when `urlopen` hands each request to `do_GET` or `do_POST` of a
-- server at this port and gives back the response, the part of the run that sends the requests to be
-- refused passes in every state of the laboratory, also with no guest or a failed one, enters them into
-- the results, and changes nothing of the laboratory.
pub ask_all-refusals :
    {S : Type 0} (bench : Bench S) (lab : Laboratory S) (site : Site) (port : Text)
    (json_loads : List ℕ → Result Json) (loads : List ℕ → Result Body) (render : Body → List ℕ)
    (r : Run S)
    → Serves bench.web lab site port json_loads render
    → Parses site
    → ((m : Text) → loads (render (error m)) ≡ ok (error m))
    → ask_all bench loads refusals r
      ≡ (passed tt, record r { results = r.results ++ paths refusals })
ask_all-refusals bench lab site port json_loads loads render r h parses json =
    asked_all bench loads render refusals r json
      (refusals-AllRefused bench.web lab site port json_loads render h parses r.world)
