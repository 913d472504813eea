-- ===== src/Clients/Passing.antt =====
-- Steps over HTTP that pass: what was asserted, and the status of each reply.
use mathlib.Core.Path.{subst}
use mini_linux.Prelude.{ℕ, ◌≡◌, refl, ap, ◌∙◌, Bool, true, false, List, ◌==◌}
use mini_linux.Prelude.Exec.{Result, ok}
use mini_linux.Server.{Body}
use mini_linux.Checks.{Verdict, passed, from}
use mini_linux.Checks.Search.{passed_inj}
use mini_linux.Checks.Steps.{Step, follow, ask, judge}
use mini_linux.Checks.Steps.Passing.{follow_passed, fst_eq, snd_eq, asked}
use mini_linux.Clients.{Query, Reply, Web, Web, asserts, request, request_json}

module _ {S B : Type 0} where
  -- an assertion, and what comes behind it
  pub asserted :
      (b : Bool) (n : Step S B) (s : S) (r : B) (t : S)
      → follow (λ _. n) (judge (asserts b) s) ≡ (passed r, t)
      → (b ≡ true) × (n s ≡ (passed r, t))
  asserted true n s r t h = (refl, h)
  asserted false n s r t h = cc (ap (λ (m : Verdict B × S). m.0) h)

-- A request that was answered with this status, and with this content.
pub record Answered {S : Type 0} (web : Web S) (expected : ℕ) (q : Query) (s t : S)
    (content : List ℕ) : Type 0 where
  pub reply : Reply
  pub replied : web.urlopen q s ≡ (ok reply, t)
  pub status : (reply.status == expected) ≡ true
  pub of_content : reply.content ≡ content

module _ {S : Type 0} (web : Web S) (loads : List ℕ → Result Body) where
  pub request-Answered :
      (expected : ℕ) (q : Query) (s : S) (content : List ℕ) (t : S)
      → request web loads expected q s ≡ (passed content, t)
      → Answered web expected q s t content
  unfolding request
  request-Answered expected q s content t h =
      let (reply, s1, e1, h1) = follow_passed _ (ask (web.urlopen q) s) content t h in
      let (good, h2) = asserted (reply.status == expected) _ s1 content t h1 in
      record {
        reply = reply;
        replied = asked (web.urlopen q s) s reply s1 e1 ∙ ap (λ z. (ok reply, z)) (snd_eq h2);
        status = good;
        of_content = passed_inj (fst_eq h2);
      }

  pub request_json-Answered :
      (expected : ℕ) (q : Query) (s : S) (body : Body) (t : S)
      → request_json web loads expected q s ≡ (passed body, t)
      → (content : List ℕ) × Answered web expected q s t content
        × (from (loads content) ≡ passed body)
  unfolding request_json
  request_json-Answered expected q s body t h =
      let (content, s1, e1, h1) = follow_passed _ (request web loads expected q s) body t h in
      (
        content,
        subst (λ z. Answered web expected q s z content) (snd_eq h1)
            (request-Answered expected q s content s1 e1),
        fst_eq h1,
      )
