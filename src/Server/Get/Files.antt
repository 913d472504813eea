-- ===== src/Server/Get/Files.antt =====
-- What the bridge serves as files.
use mini_linux.Prelude.{
  ℕ, ◌≡◌, ◌≢◌, sym, ap, ◌∙◌, true, ◌⊎◌, inl, inr, List, [], ◌∷◌, ◌++◌, Bool-cases, all, length,
  drop, Option, none, some,
}
use mini_linux.Prelude.Text.{Text, codes, split}
use mini_linux.Prelude.Exec.{ok}
use mini_linux.Server.{Request, file, local_only, Laboratory}
use mini_linux.Server.Static.{relative, is_relative_to, static_path}
use mini_linux.Server.Static.Paths.{
  is_name, all-append_right, resolve-all, is_relative_to-splits, is_relative_to-append,
  resolve_names, resolve_escape,
}
use mini_linux.Server.Get.{Site, no_page, file_response, mime_of, get_file, do_get}
use mini_linux.Server.Post.Answers.{IsForeign, IsForeignOrigin, foreign_host, foreign_origin}

-- `bytes` is a file below the web folder, and no name of its path is "..", "." or empty.
pub record IsBelow (site : Site) (bytes : List ℕ) : Type 0 where
  pub names : List Text
  pub plain : all is_name names ≡ true
  pub found : site.files (site.web ++ names) ≡ some bytes

file_response-found :
    (mime : Option Text) (o : Option (List ℕ)) (bytes : List ℕ)
    → (file_response mime o).body ≡ file bytes
    → o ≡ some bytes
file_response-found mime none bytes h = cc
file_response-found mime (some b) bytes h = cc

inside :
    (site : Site) (target : List Text) (bytes : List ℕ)
    → all is_name target ≡ true
    → is_relative_to target site.web ≡ true
    → site.files target ≡ some bytes
    → IsBelow site bytes
inside site target bytes plain within found =
    let splits = is_relative_to-splits target site.web within in
    record {
      names = drop (length site.web) target;
      plain = all-append_right is_name site.web _ (ap (all is_name) (sym splits) ∙ plain);
      found = ap site.files (sym splits) ∙ found;
    }

-- Every file that is served lies below the web folder, by plain names.
pub get_file-IsBelow :
    (site : Site) (path : Text) (bytes : List ℕ)
    → all is_name site.web ≡ true
    → (get_file site path).body ≡ file bytes
    → IsBelow site bytes
unfolding get_file
get_file-IsBelow site path bytes plain h =
    let target = static_path site.web path in
    elim (Bool-cases (is_relative_to target site.web)) [
      | inl within ↦
          inside site target bytes
            (unfold static_path in resolve-all site.web (split b'/' (relative path)) plain) within
            (file_response-found (site.guess_type target) (site.files target) bytes
              (rw within at h))
      | inr outside ↦ cc (rw outside at h)
    ]

-- A path of plain names gets the file of that path below the web folder, with status 200.
pub get_file_names :
    (site : Site) (path : Text) (names : List Text) (bytes : List ℕ)
    → split b'/' (relative path) ≡ names
    → all is_name names ≡ true
    → site.files (site.web ++ names) ≡ some bytes
    → get_file site path ≡ record {
      status = 200;
      body = file bytes;
      mime = mime_of (site.guess_type (site.web ++ names));
    }
unfolding get_file static_path
get_file_names site path names bytes s plain found =
    rw (s, resolve_names site.web names plain, is_relative_to-append site.web names, found)

-- A path that climbs out of the web folder and goes down another one gets 404, whatever files exist.
pub get_file_escape :
    (site : Site) (path : Text) (parent : List Text) (web name : Text) (names : List Text)
    → site.web ≡ parent ++ web ∷ []
    → split b'/' (relative path) ≡ codes ".." ∷ name ∷ names
    → is_name name ≡ true
    → all is_name names ≡ true
    → name ≢ web
    → get_file site path ≡ no_page
unfolding get_file static_path
get_file_escape site path parent web name names w s h k n =
    rw (s, w, resolve_escape parent web name names h k n)

-- A GET with a Host or an Origin that is not of this laboratory is refused with 403, and nothing
-- happens.
pub get-foreign :
    {S : Type 0} (lab : Laboratory S) (site : Site) (port h : Text) (r : Request) (s : S)
    → ((r.host ≡ some h) × IsForeign port h) ⊎ ((r.origin ≡ some h) × IsForeignOrigin port h)
    → do_get lab site port r s ≡ (ok local_only, s)
unfolding do_get
get-foreign lab site port h r s (inl (e, f)) = rw (foreign_host port h r e f)
get-foreign lab site port h r s (inr (e, f)) = rw (foreign_origin port h r e f)
