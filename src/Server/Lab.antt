-- ===== src/Server/Lab.antt =====
-- `Laboratory`: one guest at a time, on the methods of `Guest`. `start` is `Guest.start` on a fresh
-- guest, as an action that returns or raises; `tokens` is what `secrets.token_hex(8)` will give.
pub mod Restart
use mini_linux.Prelude.{
  ℕ, ◌≡◌, refl, sym, ap, ◌∙◌, Bool, true, false, not, ◌||◌, List, [], ◌∷◌, ◌++◌, arith, Option,
  none, some, if◌then◌else◌, Bool-cases, inl, inr,
}
use mini_linux.Prelude.Text.{Text}
use mini_linux.Prelude.Exec.{
  Exc, attribute_error, os_error, Result, ok, err, Exec, ◌>>=◌, ◌>>◌, resume, pure, raise, modify,
}
use mini_linux.Guest.{Guest, init}
use mini_linux.Guest.Session
use mini_linux.Guest.Session.{Socket, Child, Snapshot, is_ascii, is_running, send_bytes, sent_byte}
use mini_linux.Guest.Lifecycle.{CloseEnv, Host}
use mini_linux.Guest.Lifecycle
use mini_linux.Server.{Laboratory, is_value_error}

pub record LabState : Type 0 where
  pub guest : Option Host
  pub sent : List ℕ
  pub epoch : Text
  pub tokens : List Text
  pub memory : ℕ

-- `Guest(PROJECT, self.tool_root, self.memory)`
abbrev pub fresh_host : Host
fresh_host = record { steps = []; guest = init }

abbrev next_token : List Text → Text
next_token [] = []
next_token (t ∷ ts) = t

abbrev later_tokens : List Text → List Text
later_tokens [] = []
later_tokens (t ∷ ts) = ts

-- `self.epoch = …; self.guest = Guest(…)`
abbrev pub renew : LabState → LabState
renew l = record l {
  guest = some fresh_host;
  sent = [];
  epoch = next_token l.tokens;
  tokens = later_tokens l.tokens;
}

abbrev put_host : LabState → Result (Unit {0}) × Host → Result (Unit {0}) × LabState
put_host l (r, h) = (r, record l { guest = some h })

-- a method of `self.guest`
abbrev pub on_guest : Exec Host (Unit {0}) → Option Host → Exec LabState Unit
on_guest method none l = (err attribute_error, l)
on_guest method (some h) l = put_host l (method h)

abbrev if_guest : Exec Host (Unit {0}) → Option Host → Exec LabState Unit
if_guest method none l = (ok tt, l)
if_guest method (some h) l = put_host l (method h)

module _ (env : CloseEnv) (start : Exec Host (Unit {0})) where
  -- `Laboratory.close`
  unfoldable pub close_lab : Exec LabState Unit
  close_lab l = if_guest (Lifecycle.close env) l.guest l

  -- `Laboratory.restart`
  unfoldable pub restart_lab : Exec LabState Unit
  restart_lab = do close_lab; modify renew; λ l. on_guest start l.guest l

abbrev sent_to : LabState → Result (Unit {0}) × List ℕ → Result (Unit {0}) × LabState
sent_to l (r, sent) = (r, record l { sent = sent })

unfoldable pub send_guest : Socket → Option Host → Text → Exec LabState Unit
send_guest socket none text l = (err attribute_error, l)
send_guest socket (some h) text l = sent_to l (Session.send socket h.guest text l.sent)

abbrev taken : LabState → Host → Result Snapshot × Guest → Result Snapshot × LabState
taken l h (r, g) = (r, record l { guest = some (record h { guest = g }) })

unfoldable pub snapshot_guest : Child → Option Host → Exec LabState Snapshot
snapshot_guest child none l = (err attribute_error, l)
snapshot_guest child (some h) l = taken l h (Session.snapshot child h.guest)

sent_to_value :
    (l : LabState) (m : Result (Unit {0}) × List ℕ)
    → is_value_error m.0 ≡ false
    → is_value_error (sent_to l m).0 ≡ false
sent_to_value l (r, sent) h = h

send_bytes_value :
    (socket : Socket) (bs sent : List ℕ) → is_value_error (send_bytes socket bs sent).0 ≡ false
unfolding send_bytes
send_bytes_value socket [] sent = refl
send_bytes_value socket (b ∷ bs) sent = ground (arith, send_bytes_value socket bs (sent ++ b ∷ []))

send_value :
    (socket : Socket) (g : Guest) (text : Text) (sent : List ℕ)
    → is_ascii text ≡ true
    → is_value_error (Session.send socket g text sent).0 ≡ false
unfolding Session.send
send_value socket g text sent h = ground (arith, send_bytes_value socket text sent)

pub send_guest_value :
    (socket : Socket) (o : Option Host) (text : Text) (l : LabState)
    → is_ascii text ≡ true
    → is_value_error (send_guest socket o text l).0 ≡ false
unfolding send_guest
send_guest_value socket none text l h = refl
send_guest_value socket (some k) text l h =
    sent_to_value l (Session.send socket k.guest text l.sent)
      (send_value socket k.guest text l.sent h)

-- The laboratory that the handler uses.
abbrev pub guest_laboratory : CloseEnv → Exec Host (Unit {0}) → Socket → Child → Laboratory LabState
guest_laboratory env start socket child = record {
  send = λ text l. send_guest socket l.guest text l;
  restart = restart_lab env start;
  close = close_lab env start;
  snapshot = λ l. snapshot_guest child l.guest l;
  epoch = λ l. l.epoch;
  memory = λ l. l.memory;
  send_ascii = λ text l h. send_guest_value socket l.guest text l h;
}
