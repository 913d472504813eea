-- ===== src/Guest/Console/Window.antt =====
-- The console of `Guest` is a window on the whole transcript, and `console_base` is where it begins.
use mini_linux.Prelude.{
  ℕ, ◌+◌, ◌-◌, ◌≤◌, ◌≡◌, refl, sym, ap, ◌∙◌, Bool, true, false, ◌&&◌, List, [], ◌∷◌, ◌++◌, arith,
  ◌==◌, ltb, if◌then◌else◌, &&-eq-true, append-nil, append_assoc, length, last_n, length-append,
  length-drop, length-last_n-le, last_n_short, last_n-last_n-append, drop_last-append_cons,
  length-drop_last, take, drop, take-append-drop, length-take_le, concat,
}
use mini_linux.Prelude.Text.{Text, contains}
use mini_linux.Guest.{Guest, faulted, init}
use mini_linux.Guest.Console.{
  console_limit, backspace, carriage_return, type_char, type_text, panic_mark, note_panic,
  console_text, console_texts,
}

-- Where the cursor stands after one character, from `n` characters.
abbrev level : ℕ → ℕ → ℕ
level n c = if c == backspace then n - 1 else if c == carriage_return then n else n + 1

-- No backspace of the text meets an empty window of `n` characters.
abbrev pub stays_above : ℕ → Text → Bool
stays_above n [] = true
stays_above n (c ∷ cs) = (if c == backspace then ltb 0 n else true) && stays_above (level n c) cs

length-type_char :
    (console : Text) (c : ℕ) → length (type_char console c) ≡ level (length console) c
unfolding type_char
length-type_char console c =
    ground (arith, length-drop_last console, length-append console (c ∷ []))

type_char-append :
    (hidden console : Text) (c : ℕ)
    → (if c == backspace then ltb 0 (length console) else true) ≡ true
    → type_char (hidden ++ console) c ≡ hidden ++ type_char console c
unfolding type_char
type_char-append hidden [] c h = ground (arith, append_assoc hidden [] (c ∷ []))
type_char-append hidden (x ∷ xs) c h =
    ground (arith, drop_last-append_cons hidden x xs, append_assoc hidden (x ∷ xs) (c ∷ []))

type_text-append :
    (hidden console text : Text)
    → stays_above (length console) text ≡ true
    → type_text (hidden ++ console) text ≡ hidden ++ type_text console text
unfolding type_text
type_text-append hidden console [] h = refl
type_text-append hidden console (c ∷ cs) h =
    let (first, later) = &&-eq-true _ (stays_above (level (length console) c) cs) h in
    rw (type_char-append hidden console c first) (
      type_text-append hidden (type_char console c) cs
        (ap (λ n. stays_above n cs) (length-type_char console c) ∙ later))

-- `full` is all that the terminal shows, and the guest has its last part.
pub record IsWindow (full : Text) (g : Guest) : Type 0 where
  pub hidden : Text
  pub splits : full ≡ hidden ++ g.console
  pub base : length hidden ≡ g.console_base

note_panic-console :
    (g : Guest)
    → ((note_panic g).console ≡ g.console) × ((note_panic g).console_base ≡ g.console_base)
unfolding note_panic
note_panic-console g = ground arith

-- A chunk of terminal text keeps the console a window on the unlimited transcript that begins at
-- `console_base`, if no backspace of the chunk reaches back behind the window.
pub console_text-IsWindow :
    (full text : Text) (g : Guest)
    → IsWindow full g
    → stays_above (length g.console) text ≡ true
    → IsWindow (type_text full text) (console_text text g)
unfolding console_text
console_text-IsWindow full text g w above =
    let typed = type_text g.console text in
    let k = length typed - console_limit in
    let kept =
      note_panic-console
        (record g { console = last_n console_limit typed; console_base = g.console_base + k }) in
    record {
      hidden = w.hidden ++ take k typed;
      splits =
          ap (λ f. type_text f text) w.splits
          ∙ type_text-append w.hidden g.console text above
          ∙ ap (λ t. w.hidden ++ t) (sym (take-append-drop k typed))
          ∙ sym (append_assoc w.hidden (take k typed) (drop k typed))
          ∙ ap (λ t. (w.hidden ++ take k typed) ++ t) (sym kept.0);
      base =
          omega
            (arith, length-append w.hidden (take k typed), length-take_le k typed, w.base, kept.1);
    }

-- What the terminal shows of a text with no backspace.
abbrev pub printed : Text → Text
printed [] = []
printed (c ∷ cs) = if c == carriage_return then printed cs else c ∷ printed cs

abbrev pub has_no_backspace : Text → Bool
has_no_backspace [] = true
has_no_backspace (c ∷ cs) = (if c == backspace then false else true) && has_no_backspace cs

type_text-printed :
    (console text : Text)
    → has_no_backspace text ≡ true
    → type_text console text ≡ console ++ printed text
unfolding type_text
type_text-printed console [] h = sym (append-nil console)
type_text-printed console (c ∷ cs) h = ground (
  arith,
  type_text-printed console cs,
  type_text-printed (console ++ c ∷ []) cs,
  append_assoc console (c ∷ []) (printed cs),
)

printed-append : (s t : Text) → printed (s ++ t) ≡ printed s ++ printed t
printed-append [] t = refl
printed-append (c ∷ s) t = ground (arith, printed-append s t)

-- The window is the end of what was printed, and the base counts from `start` what fell out of it.
pub record IsTail (start : ℕ) (full : Text) (g : Guest) : Type 0 where
  pub console : g.console ≡ last_n console_limit full
  pub base : g.console_base ≡ start + (length full - console_limit)

console_text-IsTail :
    (start : ℕ) (full text : Text) (g : Guest)
    → has_no_backspace text ≡ true
    → IsTail start full g
    → IsTail start (full ++ printed text) (console_text text g)
unfolding console_text
console_text-IsTail start full text g plain t =
    let typed = type_text g.console text in
    let shown : typed ≡ last_n console_limit full ++ printed text =
      type_text-printed g.console text plain ∙ ap (λ s. s ++ printed text) t.console in
    let kept = note_panic-console (record g {
      console = last_n console_limit typed;
      console_base = g.console_base + (length typed - console_limit);
    }) in
    record {
      console =
          kept.0
          ∙ ap (last_n console_limit) shown
          ∙ last_n-last_n-append console_limit full (printed text);
      base = omega (
        arith,
        kept.1,
        t.base,
        ap length shown,
        length-append (last_n console_limit full) (printed text),
        length-append full (printed text),
        length-drop (length full - console_limit) full,
      );
    }

abbrev pub all_plain : List Text → Bool
all_plain [] = true
all_plain (t ∷ ts) = has_no_backspace t && all_plain ts

-- Terminal text with no backspace: whatever the chunks, the console is the last 64000 characters of
-- all that was printed, and `console_base` has grown by the number of characters before them.
pub console_texts-IsTail :
    (start : ℕ) (full : Text) (ts : List Text) (g : Guest)
    → all_plain ts ≡ true
    → IsTail start full g
    → IsTail start (full ++ printed (concat ts)) (console_texts ts g)
unfolding console_texts concat
console_texts-IsTail start full [] g plain t = rw append-nil t
console_texts-IsTail start full (s ∷ ts) g plain t =
    let (first, later) = &&-eq-true (has_no_backspace s) (all_plain ts) plain in
    rw (printed-append s (concat ts)) (
      rw (← append_assoc) (
        console_texts-IsTail start (full ++ printed s) ts (console_text s g) later
          (console_text-IsTail start full s g first t)))

-- The length never passes the limit.
pub console_text-le :
    (text : Text) (g : Guest) → length (console_text text g).console ≤ console_limit
unfolding console_text note_panic
console_text-le text g = ground (arith, length-last_n-le console_limit (type_text g.console text))

-- A panic in the window has been noted.
pub record IsAlert (g : Guest) : Type 0 where
  pub noted : contains panic_mark g.console ≡ true → g.status ≡ faulted

pub console_text-IsAlert : (text : Text) (g : Guest) → IsAlert (console_text text g)
unfolding console_text note_panic
console_text-IsAlert text g = record { noted = ground arith }

console_texts-IsAlert : (ts : List Text) (g : Guest) → IsAlert g → IsAlert (console_texts ts g)
unfolding console_texts
console_texts-IsAlert [] g a = a
console_texts-IsAlert (t ∷ ts) g a =
    console_texts-IsAlert ts (console_text t g) (console_text-IsAlert t g)

init-IsAlert : IsAlert init
unfolding contains
init-IsAlert = record { noted = λ h. cc }

-- A fresh guest: a panic message that was printed among at most 64000 characters, with no backspace,
-- makes the status faulted, wherever the chunks cut the message.
pub panic-faulted :
    (ts : List Text)
    → all_plain ts ≡ true
    → length (printed (concat ts)) ≤ console_limit
    → contains panic_mark (printed (concat ts)) ≡ true
    → (console_texts ts init).status ≡ faulted
panic-faulted ts plain short seen =
    let t = console_texts-IsTail 0 [] ts init plain (record { console = refl; base = refl }) in
    (console_texts-IsAlert ts init init-IsAlert).noted (
      ap (contains panic_mark) (t.console ∙ last_n_short console_limit (printed (concat ts)) short)
      ∙ seen)
