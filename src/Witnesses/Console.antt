-- ===== src/Witnesses/Console.antt =====
-- The theorems of Guest/Console, Guest/Lines and Guest/Reader at concrete inputs.
use mini_linux.Prelude.{◌≡◌, refl, List, [], ◌∷◌, ◌++◌, concat}
use mini_linux.Prelude.Text.{Text, codes, split, rstrip}
use mini_linux.Guest.Trace.{event, read_parts}
use mini_linux.Prelude.Exec.{ok}
use mini_linux.Guest.{Guest, disconnected, init}
use mini_linux.Guest.Console.{console_texts}
use mini_linux.Guest.Console.Window.{IsWindow, IsTail, printed, console_texts-IsTail}
use mini_linux.Guest.Lines.{cut}
use mini_linux.Guest.Lines.Split.{stream, cut-stream}
use mini_linux.Guest.Reader.{events, trace_text, trace_texts, channel_closed}
use mini_linux.Guest.Reader.Stream.{trace_texts-events}

-- two characters, one of them taken back
abbrev typo : Text
typo = b'l' ∷ b'z' ∷ 8 ∷ b's' ∷ []

abbrev shown : Guest
shown = record init { console = codes "mini$ "; console_base = 3 }

abbrev shown-IsWindow : IsWindow (codes "xyzmini$ ") shown
shown-IsWindow = record { hidden = codes "xyz"; splits = refl; base = refl }

abbrev init-IsTail : IsTail 0 [] init
init-IsTail = record { console = refl; base = refl }

abbrev chunks : List Text
chunks = codes "help\r\n" ∷ codes "ok" ∷ []

console_texts-IsTail_example : IsTail 0 ([] ++ printed (concat chunks)) (console_texts chunks init)
console_texts-IsTail_example = console_texts-IsTail 0 [] chunks init refl init-IsTail

cut-stream_example :
    cut (stream (codes "one" ∷ codes "two" ∷ []) (codes "rest"))
    ≡ (codes "one" ∷ codes "two" ∷ [], codes "rest")
cut-stream_example = cut-stream (codes "one" ∷ codes "two" ∷ []) (codes "rest") refl refl

abbrev broken : Text
broken = codes "ML\tspa"

abbrev joined : Text
joined = codes "wn\t5\nML"

-- not a record of the trace, in two chunks
abbrev noise : List Text
noise = codes "he" ∷ codes "llo\nwor" ∷ []

trace_texts-events_example :
    (events (cut ([] ++ concat noise)).0 init ≡ (ok tt, init))
    × (codes "wor" ≡ (cut ([] ++ concat noise)).1)
unfolding trace_texts trace_text events cut event read_parts split rstrip
trace_texts-events_example = trace_texts-events [] noise init refl refl

abbrev lost : Guest
lost = record init { status = disconnected; error = channel_closed }
