-- ===== src/Server/Lab/Restart.antt =====
-- `Laboratory.restart`, and a POST on /api/restart.
use mini_linux.Prelude.{ℕ, ◌≡◌, true, false, List, [], ◌∷◌, ◌++◌, Option, none, some}
use mini_linux.Prelude.Text.{Text, codes}
use mini_linux.Prelude.Exec.{timeout_expired, Result, ok, err, Exec}
use mini_linux.Guest.Lifecycle.{CloseEnv, Host}
use mini_linux.Guest.Lifecycle.Closing.{
  ends_child, socket_steps, child_steps, close_lem, close_outlived,
}
use mini_linux.Guest.Session.{Child, Socket}
use mini_linux.Server.{Json, Fields, Request, local_request}
use mini_linux.Server.Post.{read_fields, operate, do_post}
use mini_linux.Server.Lab.{LabState, fresh_host, close_lab, restart_lab, guest_laboratory}

-- Whatever guest there was, if it can be ended: a restart has the outcome of starting a fresh guest,
-- with a new epoch and nothing sent, and nothing of the old guest is left in the laboratory.
pub restart_fresh :
    (env : CloseEnv) (start : Exec Host (Unit {0})) (l : LabState) (t : Text) (ts : List Text)
    → ends_child env.child env.stops env.dies ≡ true
    → l.tokens ≡ t ∷ ts
    → restart_lab env start l ≡ (
      (start fresh_host).0,
      record {
        guest = some (start fresh_host).1;
        sent = [];
        epoch = t;
        tokens = ts;
        memory = l.memory;
      },
    )
unfolding restart_lab close_lab
restart_fresh env start l t ts d e = restart_from l.guest
  where
    restart_from :
        (o : Option Host)
        → restart_lab env start (record l { guest = o }) ≡ (
          (start fresh_host).0,
          record {
            guest = some (start fresh_host).1;
            sent = [];
            epoch = t;
            tokens = ts;
            memory = l.memory;
          },
        )
    restart_from none = rw e
    restart_from (some h) = rw (close_lem env h d, e)

-- A guest whose QEMU outlives `kill` stays the laboratory's guest: a restart raises TimeoutExpired
-- before there is a new epoch or guest, and a local POST that asks for it gets no answer, since
-- `do_POST` does not catch that exception.
pub restart_outlived :
    (env : CloseEnv) (start : Exec Host (Unit {0})) (socket : Socket) (child : Child)
    (loads : List ℕ → Result Json) (port : Text) (r : Request) (fs : Fields) (l : LabState)
    (h : Host)
    → ends_child env.child env.stops env.dies ≡ false
    → l.guest ≡ some h
    → local_request port r ≡ true
    → r.path ≡ codes "/api/restart"
    → read_fields (guest_laboratory env start socket child) loads r l ≡ (ok fs, l)
    → do_post (guest_laboratory env start socket child) loads port r l ≡ (
      err timeout_expired,
      record l {
        guest = some (record {
          steps = h.steps ++ (socket_steps 0 env.sockets ++ child_steps env.child env.stops);
          guest = record h.guest { closed = true };
        });
      },
    )
unfolding do_post operate restart_lab close_lab
restart_outlived env start socket child loads port r fs l h d g near path read =
    rw (near, read, path, g, close_outlived env h d)
