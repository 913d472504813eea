-- ===== src/Witnesses/Export.antt =====
-- The theorem of Export at concrete inputs.
use mini_linux.Prelude.{◌≡◌, refl, [], ◌∷◌, none}
use mini_linux.Prelude.Text.{Text, codes, text_Eq}
use mini_linux.Prelude.Int.{pos}
use mini_linux.Prelude.Dict
use mini_linux.Prelude.Exec.{ok}
use mini_linux.Package.{Tree, Output, bytes, text, copy_named}
use mini_linux.Export.{
  Sources, replace_from, replay_page, copy_assets, touch, read_recording, export,
}
use mini_linux.Export.Holding.{IsExported, export-IsExported}

abbrev page : Text
page = codes "<title>MiniLinux — mechanism laboratory</title><script src=\"live.js\" defer>"

abbrev demo_sources : Sources
demo_sources = record {
  recording = ok (codes "{}");
  loads = λ b. ok (record { format = pos 1; mode = codes "recorded-replay" });
  web = λ name. ok name;
  index = ok page;
  assets = (codes "tux-bw.svg", codes "<svg/>") ∷ [];
}

replayed :
    replay_page page
    ≡ codes "<title>MiniLinux — recorded replay</title><script src=\"replay.js\" defer>"
unfolding replay_page replace_from
replayed = refl

abbrev exported : Tree
exported =
    (codes "app.js", bytes (codes "app.js"))
    ∷ (codes "replay.js", bytes (codes "replay.js"))
    ∷ (codes "style.css", bytes (codes "style.css"))
    ∷ (codes "assets/tux-bw.svg", bytes (codes "<svg/>"))
    ∷ (codes "index.html", text (replay_page page))
    ∷ (codes "recording.json", bytes (codes "{}"))
    ∷ (codes ".nojekyll", bytes [])
    ∷ []

abbrev empty_folder : Output
empty_folder = record { tree = []; archive = none }

export-IsExported_example : IsExported demo_sources exported
unfolding export read_recording copy_named copy_assets touch Dict.get Dict.put
export-IsExported_example =
    export-IsExported demo_sources empty_folder (record empty_folder { tree = exported }) tt refl
