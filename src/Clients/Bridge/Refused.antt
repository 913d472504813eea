-- ===== src/Clients/Bridge/Refused.antt =====
-- The requests that tools/test-lab-bridge.py wants refused, at the handler of tools/lab-server.py.
use mini_linux.Prelude.{
  ℕ, ◌≡◌, refl, ap, ◌∙◌, Bool, true, false, ◌&&◌, ◌||◌, ◌⊎◌, inl, inr, List, [], ◌∷◌, ◌++◌, none,
  some, take, ltb, Bool-cases, drop_last, drop_last-append_cons, append-nil,
}
use mini_linux.Prelude.Text.{Text, codes, text_eq, text_eq_iff, split}
use mini_linux.Prelude.Int.{pos}
use mini_linux.Prelude.Exec.{bad_value, Result, ok, err, to_int}
use mini_linux.Server.{
  Json, Fields, Request, Response, Body, error, respond, local_request, Laboratory, array, nil,
}
use mini_linux.Server.Static.{resolve, is_relative_to, static_path}
use mini_linux.Server.Get.{Site, no_page, get_file, do_get}
use mini_linux.Server.Post.{
  header_or, is_json_type, get_text, terminal_text, bad_input, as_object, read_fields, operate,
  do_post,
}
use mini_linux.Checks.Userland.Shell.{repeat}
use mini_linux.Clients.{Query, Web, text_body}

abbrev own_name : Text → Text
own_name port = codes "127.0.0.1:" ++ port

text_refl : (t : Text) → text_eq t t ≡ true
text_refl t = (text_eq_iff t t).1 refl

pub own-local :
    (port : Text) (r : Request)
    → r.host ≡ some (own_name port)
    → r.origin ≡ none
    → local_request port r ≡ true
unfolding local_request
own-local port r h o = rw (h, o, text_refl (own_name port))

pub outside_host-foreign :
    (port : Text) (r : Request)
    → r.host ≡ some (codes "outside.example")
    → local_request port r ≡ false
unfolding local_request
outside_host-foreign port r h = rw h

and_false : (a : Bool) → (a && false) ≡ false
and_false true = refl
and_false false = refl

pub outside_origin-foreign :
    (port : Text) (r : Request)
    → r.origin ≡ some (codes "http://outside.example")
    → local_request port r ≡ false
unfolding local_request
outside_origin-foreign port r o = rw (o, and_false)

sibling-outside :
    (parent : List Text) (a b : Text)
    → text_eq a b ≡ false
    → is_relative_to (parent ++ a ∷ []) (parent ++ b ∷ []) ≡ false
unfolding is_relative_to
sibling-outside [] a b h = rw h
sibling-outside (p ∷ parent) a b h = rw (text_refl p) (sibling-outside parent a b h)

not_served :
    (site : Site) (path : Text)
    → is_relative_to (static_path site.web path) site.web ≡ false
    → get_file site path ≡ no_page
unfolding get_file
not_served site path h = rw h

readme_target :
    (web parent : List Text)
    → web ≡ parent ++ codes "web" ∷ []
    → static_path web (codes "/../README.md") ≡ parent ++ codes "README.md" ∷ []
unfolding static_path resolve split
readme_target web parent w =
    ap (λ p. p ++ codes "README.md" ∷ [])
      (ap drop_last w ∙ drop_last-append_cons parent (codes "web") [] ∙ append-nil parent)

-- The file beside the web folder is not served.
pub readme_refused :
    (site : Site) (parent : List Text)
    → site.web ≡ parent ++ codes "web" ∷ []
    → get_file site (codes "/../README.md") ≡ no_page
readme_refused site parent w = not_served site (codes "/../README.md") (
    ap (λ p. is_relative_to p site.web) (readme_target site.web parent w)
    ∙ ap (is_relative_to (parent ++ codes "README.md" ∷ [])) w
    ∙ sibling-outside parent (codes "README.md") (codes "web") refl)

-- the three bodies that are refused for what they hold
abbrev pub IsSent : Json → Type 0
IsSent b =
    (b ≡ array nil) ⊎ ((b ≡ text_body (repeat b'x' 257)) ⊎ (b ≡ text_body (0x4f60 ∷ 0x597d ∷ [])))

-- What `urlopen` sends for a query, and what comes back of the handler's response: the server is at
-- this port, `dumps` and `json_loads` fit each other, and the header of the length is a decimal number.
pub record Serves {S : Type 0} (web : Web S) (lab : Laboratory S) (site : Site) (port : Text)
    (json_loads : List ℕ → Result Json) (render : Body → List ℕ) : Type 0 where
  pub sent : Query → Request
  pub path : (q : Query) → (sent q).path ≡ q.target
  pub own_host : (q : Query) → q.host ≡ none → (sent q).host ≡ some (own_name port)
  pub set_host : (q : Query) (h : Text) → q.host ≡ some h → (sent q).host ≡ some h
  pub origin : (q : Query) → (sent q).origin ≡ q.origin
  pub is_json :
      (q : Query) → q.is_json ≡ true → is_json_type (header_or [] (sent q).content_type) ≡ true
  pub size : Query → ℕ
  pub length_text :
      (q : Query) → to_int (header_or (codes "0") (sent q).content_length) ≡ ok (pos (size q))
  pub parsed :
      (q : Query) (b : Json)
      → q.body ≡ some b
      → IsSent b
      → json_loads (take (size q) (sent q).stream) ≡ ok b
  pub gets :
      (q : Query) (s : S) (r : Response) (t : S)
      → q.body ≡ none
      → do_get lab site port (sent q) s ≡ (ok r, t)
      → web.urlopen q s ≡ (ok (record { status = r.status; content = render r.body }), t)
  pub posts :
      (q : Query) (b : Json) (s : S) (r : Response) (t : S)
      → q.body ≡ some b
      → do_post lab json_loads port (sent q) s ≡ (ok r, t)
      → web.urlopen q s ≡ (ok (record { status = r.status; content = render r.body }), t)

-- A body that `/api/input` cannot take: no object, or an object with no terminal text.
abbrev pub IsBadBody : Json → Type 0
IsBadBody b =
    ((m : Text) × (as_object b ≡ err (bad_value m)))
    ⊎ ((fs : Fields) × (as_object b ≡ ok fs) × (terminal_text (get_text fs) ≡ err bad_input))

module _ {S : Type 0} (lab : Laboratory S) (json_loads : List ℕ → Result Json) where
  -- the value of a body that was read: the guards on the size come first
  read_fields-cases :
      (r : Request) (n : ℕ) (b : Json) (s : S)
      → to_int (header_or (codes "0") r.content_length) ≡ ok (pos n)
      → is_json_type (header_or [] r.content_type) ≡ true
      → json_loads (take n r.stream) ≡ ok b
      → ((m : Text) × (read_fields lab json_loads r s ≡ (err (bad_value m), s)))
        ⊎ (read_fields lab json_loads r s ≡ (as_object b, s))
  unfolding read_fields
  read_fields-cases r n b s size json parsed = elim (Bool-cases (ltb n 1 || ltb 1024 n)) [
    | inl large ↦ inl (codes "Request too large or empty", rw (size, large))
    | inr fits ↦ inr (rw (size, fits, json, parsed))
  ]

  pub bad_body-refused :
      (port : Text) (r : Request) (n : ℕ) (b : Json) (s : S)
      → local_request port r ≡ true
      → r.path ≡ codes "/api/input"
      → to_int (header_or (codes "0") r.content_length) ≡ ok (pos n)
      → is_json_type (header_or [] r.content_type) ≡ true
      → json_loads (take n r.stream) ≡ ok b
      → IsBadBody b
      → (m : Text) × (do_post lab json_loads port r s ≡ (ok (respond 400 (error m)), s))
  unfolding do_post operate
  bad_body-refused port r n b s own path size json parsed bad =
      elim (read_fields-cases r n b s size json parsed) [
        | inl (m, e) ↦ (m, rw (own, e))
        | inr e ↦ elim bad [
          | inl (m, no_object) ↦ (m, rw (own, e, no_object))
          | inr (fs, an_object, no_text) ↦ (
            codes "Use at most 256 ASCII terminal characters",
            rw (own, e, an_object, path, no_text),
          )
        ]
      ]
