-- ===== src/Server/Post/Answers.antt =====
-- How `do_POST` answers, and when it leaves the laboratory alone.
use mini_linux.Prelude.{
  ℕ, ◌≤◌, ◌≡◌, ◌≢◌, refl, sym, ap, ◌∙◌, Bool, true, false, ◌||◌, List, ◌++◌, arith, ◌==◌,
  if◌then◌else◌, inl, inr, ◌⊎◌, Option, some, length, all,
}
use mini_linux.Prelude.Text.{Text, codes, text_eq_iff}
use mini_linux.Prelude.Exec.{
  value_error, index_error, attribute_error, bad_value, runtime_error, os_error, timeout_error,
  timeout_expired, pure, ◌>>◌, Result, ok, err, Exec, resume,
}
use mini_linux.Server.{
  Json, Fields, Request, Response, local_request, local_only, Laboratory, is_value_error, okay,
  respond,
}
use mini_linux.Server.Post.{terminal_text, get_text, read_fields, operate, do_post, answer}
use mini_linux.Server.Post.Input.{
  terminal_text-eq-ok, terminal_text-eq-err, terminal-is_ascii, is_terminal_char,
}

-- The statuses of the answers to a POST.
abbrev pub is_post_status : ℕ → Bool
is_post_status n = n == 200 || n == 400 || n == 403 || n == 404 || n == 503

-- A name that is neither of the two loopback names.
abbrev pub IsForeign : Text → Text → Type 0
IsForeign port h = (h ≢ codes "127.0.0.1:" ++ port) × (h ≢ codes "localhost:" ++ port)

abbrev pub IsForeignOrigin : Text → Text → Type 0
IsForeignOrigin port o =
    (o ≢ codes "http://" ++ (codes "127.0.0.1:" ++ port))
    × (o ≢ codes "http://" ++ (codes "localhost:" ++ port))

pub foreign_host :
    (port h : Text) (r : Request)
    → r.host ≡ some h
    → IsForeign port h
    → local_request port r ≡ false
unfolding local_request
foreign_host port h r e f =
    let one = codes "127.0.0.1:" ++ port in
    let two = codes "localhost:" ++ port in ground (arith, text_eq_iff h one, text_eq_iff h two)

pub foreign_origin :
    (port o : Text) (r : Request)
    → r.origin ≡ some o
    → IsForeignOrigin port o
    → local_request port r ≡ false
unfolding local_request
foreign_origin port o r e f = ground (
  arith,
  text_eq_iff o (codes "http://" ++ (codes "127.0.0.1:" ++ port)),
  text_eq_iff o (codes "http://" ++ (codes "localhost:" ++ port)),
)

module _ {S : Type 0} (lab : Laboratory S) (loads : List ℕ → Result Json) where
  -- A POST with a Host or an Origin that is not of this laboratory is refused with 403, and nothing
  -- happens.
  pub post-foreign :
      (port h : Text) (r : Request) (s : S)
      → ((r.host ≡ some h) × IsForeign port h) ⊎ ((r.origin ≡ some h) × IsForeignOrigin port h)
      → do_post lab loads port r s ≡ (ok local_only, s)
  unfolding do_post
  post-foreign port h r s (inl (e, f)) = rw (foreign_host port h r e f)
  post-foreign port h r s (inr (e, f)) = rw (foreign_origin port h r e f)

  operate-status :
      (path : Text) (fs : Fields) (s : S) (a : Response)
      → (operate lab loads path fs s).0 ≡ ok a
      → is_post_status a.status ≡ true
  unfolding operate
  operate-status path fs s a h = ground arith

  read_fields_pure : (r : Request) (s : S) → (read_fields lab loads r s).1 ≡ s
  unfolding read_fields
  read_fields_pure r s = ground arith

answer-status :
    {S : Type 0} (m : Result Response × S) (a : Response)
    → ((b : Response) → m.0 ≡ ok b → is_post_status b.status ≡ true)
    → (answer m).0 ≡ ok a
    → is_post_status a.status ≡ true
answer-status (ok b, s) a h e = h a e
answer-status (err value_error, s) a h e = ground arith
answer-status (err (bad_value x), s) a h e = ground arith
answer-status (err (runtime_error x), s) a h e = ground arith
answer-status (err (os_error x), s) a h e = ground arith
answer-status (err (timeout_error x), s) a h e = ground arith
answer-status (err index_error, s) a h e = cc
answer-status (err attribute_error, s) a h e = cc
answer-status (err timeout_expired, s) a h e = cc

abbrev is_ok {ℓ} : {A : Type ℓ} → Result A → Bool
is_ok (ok a) = true
is_ok (err e) = false

-- A refusal of `do_POST`, which comes before any call of the laboratory.
abbrev pub is_refusal : ℕ → Bool
is_refusal n = n == 400 || n == 403 || n == 404

module _ {S : Type 0} (lab : Laboratory S) where
  -- One terminal text was handed to `send`, from state `s`, and `s'` is what it left.
  pub record Sends (s s' : S) (returns : Bool) : Type 0 where
    pub text : Text
    pub nonempty : 1 ≤ length text
    pub short : length text ≤ 256
    pub terminal : all is_terminal_char text ≡ true
    pub left : s' ≡ (lab.send text s).1
    pub result : is_ok (lab.send text s).0 ≡ returns

  -- The ways in which an answer to `/api/input` comes about.
  pub data InputOutcome (s s' : S) (status : ℕ) : Type 0 where
    accepted : status ≡ 200 → Sends s s' true → InputOutcome s s' status
    failed : status ≡ 503 → Sends s s' false → InputOutcome s s' status
    unread : status ≡ 503 → s' ≡ s → InputOutcome s s' status
    refused : is_refusal status ≡ true → s' ≡ s → InputOutcome s s' status

  abbrev Explained : S → Result Response × S → Type 0
  Explained s (ok a, s') = InputOutcome s s' a.status
  Explained s (err e, s') = Unit

  abbrev input_answer : Text → Exec S Response
  input_answer text = do lab.send text; pure (respond 200 okay)

  failed_send :
      (text : Text) (s : S) (m : Result (Unit {0}) × S)
      → lab.send text s ≡ m
      → is_ok m.0 ≡ false
      → 1 ≤ length text
      → length text ≤ 256
      → all is_terminal_char text ≡ true
      → Sends s m.1 false
  failed_send text s m e f l u t = record {
    text = text;
    nonempty = l;
    short = u;
    terminal = t;
    left = ap (λ (n : Result (Unit {0}) × S). n.1) (sym e);
    result = ap (λ (n : Result (Unit {0}) × S). is_ok n.0) e ∙ f;
  }

  sent-Explained :
      (text : Text) (s : S) (m : Result (Unit {0}) × S)
      → lab.send text s ≡ m
      → is_value_error m.0 ≡ false
      → 1 ≤ length text
      → length text ≤ 256
      → all is_terminal_char text ≡ true
      → Explained s (answer (resume (λ _. pure (respond 200 okay)) m))
  sent-Explained text s (ok _, s') e v l u t = accepted refl (record {
    text = text;
    nonempty = l;
    short = u;
    terminal = t;
    left = ap (λ (m : Result (Unit {0}) × S). m.1) (sym e);
    result = ap (λ (m : Result (Unit {0}) × S). is_ok m.0) e;
  })
  sent-Explained text s (err value_error, s') e v l u t = cc
  sent-Explained text s (err (bad_value x), s') e v l u t = cc
  sent-Explained text s (err index_error, s') e v l u t = tt
  sent-Explained text s (err attribute_error, s') e v l u t = tt
  sent-Explained text s (err timeout_expired, s') e v l u t = tt
  sent-Explained text s (err (runtime_error x), s') e v l u t =
      failed refl (failed_send text s (err (runtime_error x), s') e refl l u t)
  sent-Explained text s (err (os_error x), s') e v l u t =
      failed refl (failed_send text s (err (os_error x), s') e refl l u t)
  sent-Explained text s (err (timeout_error x), s') e v l u t =
      failed refl (failed_send text s (err (timeout_error x), s') e refl l u t)

  terminal-Explained :
      (j : Option Json) (s : S) (r : Result Text)
      → terminal_text j ≡ r
      → Explained s (answer (resume input_answer (r, s)))
  terminal-Explained j s (ok text) e =
      let (l, u, t) = terminal_text-eq-ok j text e in
      sent-Explained text s (lab.send text s) refl
        (lab.send_ascii text s (terminal-is_ascii text t)) l u t
  terminal-Explained j s (err x) e = rw (terminal_text-eq-err j x e) (refused refl refl)

module _ {S : Type 0} (lab : Laboratory S) (loads : List ℕ → Result Json) where
  fields-Explained :
      (path : Text) (s : S) (m : Result Fields × S)
      → path ≡ codes "/api/input"
      → m.1 ≡ s
      → Explained lab s (answer (resume (operate lab loads path) m))
  unfolding operate
  fields-Explained path s (ok fs, s') p e =
      rw (p, e) (terminal-Explained lab (get_text fs) s (terminal_text (get_text fs)) refl)
  fields-Explained path s (err value_error, s') p e = refused refl e
  fields-Explained path s (err (bad_value x), s') p e = refused refl e
  fields-Explained path s (err (runtime_error x), s') p e = unread refl e
  fields-Explained path s (err (os_error x), s') p e = unread refl e
  fields-Explained path s (err (timeout_error x), s') p e = unread refl e
  fields-Explained path s (err index_error, s') p e = tt
  fields-Explained path s (err attribute_error, s') p e = tt
  fields-Explained path s (err timeout_expired, s') p e = tt

  guarded-Explained :
      (b : Bool) (s : S) (m : Result Response × S)
      → Explained lab s m
      → Explained lab s (if b then m else (ok local_only, s))
  guarded-Explained true s m x = x
  guarded-Explained false s m x = refused refl refl

  explained :
      (s : S) (m : Result Response × S) (a : Response)
      → Explained lab s m
      → m.0 ≡ ok a
      → InputOutcome lab s m.1 a.status
  explained s (ok b, s') a x e = let same : b ≡ a = cc in rw (← same) x
  explained s (err y, s') a x e = cc

  -- Every answer to a POST on /api/input comes about in one of these ways: 200, and one text of 1 to
  -- 256 terminal characters was handed to `send`, which returned; 503, and one such text was handed to
  -- `send`, which raised; 503, and reading the body raised, and nothing was done; or 400, 403 or 404,
  -- and nothing was done.
  pub input_outcome :
      (port : Text) (r : Request) (s : S) (a : Response)
      → r.path ≡ codes "/api/input"
      → (do_post lab loads port r s).0 ≡ ok a
      → InputOutcome lab s (do_post lab loads port r s).1 a.status
  unfolding do_post
  input_outcome port r s a p h =
      explained s _ a
        (guarded-Explained (local_request port r) s _ (
          fields-Explained r.path s (read_fields lab loads r s) p (read_fields_pure lab loads r s)))
        h

  guarded-status :
      (b : Bool) (s : S) (m : Result Response × S) (a : Response)
      → (m.0 ≡ ok a → is_post_status a.status ≡ true)
      → ◌≡◌ {A = Result Response} (if b then m else (ok local_only, s)).0 (ok a)
      → is_post_status a.status ≡ true
  guarded-status true s m a k h = k h
  guarded-status false s m a k h = ground arith

  resumed-status :
      (path : Text) (m : Result Fields × S) (a : Response)
      → (resume (operate lab loads path) m).0 ≡ ok a
      → is_post_status a.status ≡ true
  resumed-status path (ok fs, s) a h = operate-status lab loads path fs s a h
  resumed-status path (err e, s) a h = cc

  -- Whatever the request and the laboratory do: an answer to a POST has the status 200, 400, 403, 404
  -- or 503.
  pub post-status :
      (port : Text) (r : Request) (s : S) (a : Response)
      → (do_post lab loads port r s).0 ≡ ok a
      → is_post_status a.status ≡ true
  unfolding do_post
  post-status port r s a h =
      guarded-status (local_request port r) s _ a
        (answer-status (resume (operate lab loads r.path) (read_fields lab loads r s)) a
          (resumed-status r.path (read_fields lab loads r s)))
        h
