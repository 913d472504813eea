-- ===== src/Guest.antt =====
-- tools/lab_guest.py: what the host knows of the one QEMU guest. `Guest` has the fields that the
-- methods read and write; the sockets, threads and log files are in the modules of the methods that
-- use them.
pub mod Console
pub mod Lines
pub mod Trace
pub mod Reader
pub mod Session
pub mod Lifecycle
pub mod Threads
use mini_linux.Prelude.{ℕ, List, [], ◌∷◌, Option, none, some, Bool, true, false}
use mini_linux.Prelude.Text.{Text, codes}
use mini_linux.Prelude.Int.{ℤ, pos}
use mini_linux.Prelude.Dict.{Dict}

-- PROGRAMS
abbrev pub programs : List Text
programs =
    codes "init"
    ∷ codes "shell"
    ∷ codes "hello"
    ∷ codes "reader"
    ∷ codes "counter-a"
    ∷ codes "counter-b"
    ∷ codes "fault"
    ∷ []

-- STATES
abbrev pub states : List Text
states = codes "unused" ∷ codes "ready" ∷ codes "waiting" ∷ codes "exited" ∷ []

pub data Status : Type 0 where
  starting running faulted disconnected stopped : Status

-- one kept record of the trace
pub record Event : Type 0 where
  pub id : ℕ
  pub kind : Text
  pub tick : ℤ
  pub fields : List Text

pub record Process : Type 0 where
  pub pid : ℤ
  pub parent : ℤ
  pub program : Text
  pub state : Text
  pub root : Text
  pub slices : ℤ
  pub current : Bool

pub record Mapping : Type 0 where
  pub va : Text
  pub pa : Text
  pub flags : ℤ
  pub name : Text

pub record Datum : Type 0 where
  pub va : Text
  pub pa : Text
  pub marker : Text

pub record Guest : Type 0 where
  pub closed : Bool
  pub console : Text
  pub console_base : ℕ
  pub events : List Event
  pub processes : Dict ℤ Process
  pub maps : Dict ℤ (Dict Text Mapping)
  pub page_data : Dict ℤ Datum
  pub frames : ℤ
  pub free : ℤ
  pub ticks : ℤ
  pub sequence : ℕ
  pub status : Status
  pub error : Text

-- `Guest.__init__`
abbrev pub init : Guest
init = record {
  closed = false;
  console = [];
  console_base = 0;
  events = [];
  processes = [];
  maps = [];
  page_data = [];
  frames = pos 0;
  free = pos 0;
  ticks = pos 0;
  sequence = 0;
  status = starting;
  error = [];
}
