-- ===== src/Export/Holding.antt =====
-- What an export that returns has left.
use mathlib.Core.Path.{subst}
use mini_linux.Checks.Steps.Passing.{negated}
use mini_linux.Prelude.{
  ℕ, ◌≡◌, refl, sym, ap, ◌∙◌, Bool, true, false, not, ◌&&◌, List, [], ◌∷◌, ◌++◌, Option, none, some,
  all,
}
use mini_linux.Prelude.Text.{Text, codes, text_eq, text_eq_iff, text_Eq}
use mini_linux.Prelude.Int.{pos, int_eq, int_eq_iff}
use mini_linux.Prelude.Dict
use mini_linux.Prelude.Exec.{Result, ok, resume-eq-ok, lift, guard}
use mini_linux.Package.{Content, bytes, text, Tree, Output, copy_named}
use mini_linux.Package.Copies.{Holds, put-Holds, put-other, HasFiles, copy_named-HasFiles}
use mini_linux.Export.Replacing.{Replaces, replace_from-Replaces}
use mini_linux.Checks.Search.{and_true}
use mini_linux.Export.{
  Demo, Sources, no_recording, page_files, replace_from, replay_page, copy_assets, touched, touch,
  read_recording, export,
}

-- A recording that is one.
pub record IsDemo (sources : Sources) (recording : List ℕ) : Type 0 where
  pub read : sources.recording ≡ ok recording
  pub demo : Demo
  pub loaded : sources.loads recording ≡ ok demo
  pub format : demo.format ≡ pos 1
  pub mode : demo.mode ≡ codes "recorded-replay"

-- The exported tree.
pub record IsExported (sources : Sources) (t : Tree) : Type 0 where
  pub recording : List ℕ
  pub is_demo : IsDemo sources recording
  pub pages : HasFiles sources.web [] page_files t
  pub index : Text
  pub of_index : sources.index ≡ ok index
  pub with_transport : Text
  pub transport :
      Replaces (codes "src=\"live.js\"") (codes "src=\"replay.js\"") index with_transport
  pub page : Text
  pub title :
      Replaces
        (codes "MiniLinux — mechanism laboratory")
        (codes "MiniLinux — recorded replay")
        with_transport
        page
  pub holds_page : Holds t (codes "index.html") (text page)
  pub replay : Holds t (codes "recording.json") (bytes recording)
  pub marker : (c : Content) × Holds t (codes ".nojekyll") c

guarded :
    (b : Bool) (o : Output) (u : Unit {0}) (p : Output)
    → guard b no_recording o ≡ (ok u, p)
    → b ≡ true
guarded true o u p h = refl
guarded false o u p h = cc (ap (λ (m : Result (Unit {0}) × Output). m.0) h)

ok_inj : {A : Type 0} {a b : A} → ◌≡◌ {A = Result A} (ok a) (ok b) → a ≡ b
ok_inj e = cc e

result_of : {A : Type 0} {r q : Result A} {o p : Output} → lift {S = Output} r o ≡ (q, p) → r ≡ q
result_of h = ap (λ (m : Result _ × Output). m.0) h

state_of : {A : Type 0} {r q : Result A} {o p : Output} → lift {S = Output} r o ≡ (q, p) → o ≡ p
state_of h = ap (λ (m : Result _ × Output). m.1) h

read_recording-IsDemo :
    (sources : Sources) (o : Output) (recording : List ℕ) (p : Output)
    → read_recording sources o ≡ (ok recording, p)
    → IsDemo sources recording
unfolding read_recording
read_recording-IsDemo sources o recording p h =
    let (r, o1, e1, h1) = resume-eq-ok _ (lift sources.recording o) h in
    let (demo, o2, e2, h2) = resume-eq-ok _ (lift (sources.loads r) o1) h1 in
    let good = int_eq demo.format (pos 1) && text_eq demo.mode (codes "recorded-replay") in
    let (u, o3, e3, h3) = resume-eq-ok _ (guard good no_recording o2) h2 in
    let (format, mode) = and_true (guarded good o2 u o3 e3) in
    let same : r ≡ recording = ok_inj (result_of h3) in
    record {
      read = result_of e1 ∙ ap ok same;
      demo = demo;
      loaded = ap sources.loads (sym same) ∙ result_of e2;
      format = (int_eq_iff demo.format (pos 1)).0 format;
      mode = (text_eq_iff demo.mode (codes "recorded-replay")).0 mode;
    }

-- A write beside the files of a folder.
put-HasFiles_apart :
    (source : Text → Result (List ℕ)) (names : List Text) (path : Text) (c : Content) (t : Tree)
    → all (λ n. not (text_eq path n)) names ≡ true
    → HasFiles source [] names t
    → HasFiles source [] names (Dict.put path c t)
put-HasFiles_apart source [] path c t apart h = tt
put-HasFiles_apart source (n ∷ ns) path c t apart ((b, p, q), h) =
    let (one, rest) =
      and_true {a = not (text_eq path n)} {b = all (λ m. not (text_eq path m)) ns} apart in
    (
      (b, p, put-other t n path (bytes b) c (negated one) q),
      put-HasFiles_apart source ns path c t rest h,
    )

copy_assets-HasFiles :
    (source : Text → Result (List ℕ)) (files : List (Text × List ℕ)) (o : Output) (u : Unit {0})
    (p : Output)
    → copy_assets files o ≡ (ok u, p)
    → HasFiles source [] page_files o.tree
    → HasFiles source [] page_files p.tree
unfolding copy_assets
copy_assets-HasFiles source [] o u p h files =
    subst (λ (q : Output). HasFiles source [] page_files q.tree)
      (ap (λ (m : Result (Unit {0}) × Output). m.1) h) files
copy_assets-HasFiles source ((name, b) ∷ more) o u p h files =
    copy_assets-HasFiles source more
      (record o { tree = Dict.put (codes "assets/" ++ name) (bytes b) o.tree }) u p h
      (put-HasFiles_apart source page_files (codes "assets/" ++ name) (bytes b) o.tree refl files)

marked :
    (o : Option Content) (t : Tree)
    → Dict.get (codes ".nojekyll") t ≡ o
    → (c : Content) × Holds (touched o t) (codes ".nojekyll") c
marked none t q = (bytes [], put-Holds t (codes ".nojekyll") (bytes []))
marked (some c) t q = (c, q)

touched-Holds :
    (o : Option Content) (t : Tree) (path : Text) (c : Content)
    → text_eq (codes ".nojekyll") path ≡ false
    → Holds t path c
    → Holds (touched o t) path c
touched-Holds none t path c differ h = put-other t path (codes ".nojekyll") c (bytes []) differ h
touched-Holds (some d) t path c differ h = h

touched-HasFiles :
    (source : Text → Result (List ℕ)) (o : Option Content) (t : Tree)
    → HasFiles source [] page_files t
    → HasFiles source [] page_files (touched o t)
touched-HasFiles source none t h =
    put-HasFiles_apart source page_files (codes ".nojekyll") (bytes []) t refl h
touched-HasFiles source (some c) t h = h

-- the last three statements
finished-IsExported :
    (sources : Sources) (recording : List ℕ) (index : Text) (t : Tree)
    → IsDemo sources recording
    → sources.index ≡ ok index
    → HasFiles sources.web [] page_files t
    → (let with_page : Tree = Dict.put (codes "index.html") (text (replay_page index)) t in
        let full : Tree = Dict.put (codes "recording.json") (bytes recording) with_page in
        IsExported sources (touched (Dict.get (codes ".nojekyll") full) full))
unfolding replay_page
finished-IsExported sources recording index t demo of_index files =
    let page = text (replay_page index) in
    let with_page : Tree = Dict.put (codes "index.html") page t in
    let full : Tree = Dict.put (codes "recording.json") (bytes recording) with_page in
    let marker = Dict.get (codes ".nojekyll") full in
    record {
      recording = recording;
      is_demo = demo;
      pages = touched-HasFiles sources.web marker full (
          put-HasFiles_apart sources.web page_files (codes "recording.json") (bytes recording)
            with_page refl
            (put-HasFiles_apart sources.web page_files (codes "index.html") page t refl files));
      index = index;
      of_index = of_index;
      with_transport = replace_from (codes "src=\"live.js\"") (codes "src=\"replay.js\"") 0 index;
      transport = replace_from-Replaces _ _ _ index;
      page = replay_page index;
      title = replace_from-Replaces _ _ _ _;
      holds_page = touched-Holds marker full (codes "index.html") page refl (
          put-other with_page (codes "index.html") (codes "recording.json") page (bytes recording)
            refl (put-Holds t (codes "index.html") page));
      replay =
          touched-Holds marker full (codes "recording.json") (bytes recording) refl
            (put-Holds with_page (codes "recording.json") (bytes recording));
      marker = marked marker full refl;
    }

-- An export that returns was given a recording of format 1 and of the mode recorded-replay. Its folder
-- holds the three files of web/; the page of web/, in which every first and further source live.js of a
-- script, from the left, is replaced by replay.js, and then every title of the laboratory by that of a
-- replay, and nothing else is changed; exactly that recording as recording.json; and .nojekyll. All
-- this whatever the folder held before and whatever the assets are.
pub export-IsExported :
    (sources : Sources) (o p : Output) (u : Unit {0})
    → export sources o ≡ (ok u, p)
    → IsExported sources p.tree
unfolding export touch
export-IsExported sources o p u h =
    let (recording, o1, e1, h1) = resume-eq-ok _ (read_recording sources o) h in
    let (v, o2, e2, h2) = resume-eq-ok _ (copy_named sources.web [] page_files o1) h1 in
    let (w, o3, e3, h3) = resume-eq-ok _ (copy_assets sources.assets o2) h2 in
    let (index, o4, e4, h4) = resume-eq-ok _ (lift sources.index o3) h3 in
    let files : HasFiles sources.web [] page_files o2.tree =
      subst (λ (q : Output). HasFiles sources.web [] page_files q.tree)
        (ap (λ (m : Result (Unit {0}) × Output). m.1) e2)
        (copy_named-HasFiles sources.web [] page_files o1
          (ap (λ (m : Result (Unit {0}) × Output). m.0) e2)) in
    let kept : HasFiles sources.web [] page_files o4.tree =
      subst (λ (q : Output). HasFiles sources.web [] page_files q.tree) (state_of e4)
        (copy_assets-HasFiles sources.web sources.assets o2 w o3 e3 files) in
    subst (λ (q : Output). IsExported sources q.tree)
      (ap (λ (m : Result (Unit {0}) × Output). m.1) h4)
      (finished-IsExported sources recording index o4.tree
        (read_recording-IsDemo sources o recording o1 e1) (result_of e4) kept)
