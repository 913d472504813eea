-- ===== src/Server/Get/Polling.antt =====
-- A browser that polls /api/state with the sequence number of its last answer.
use mini_linux.Prelude.{ℕ, ◌≡◌, refl, ap, ◌∙◌, true, List, [], ◌∷◌, ◌++◌, arith, last_n, some}
use mini_linux.Prelude.Text.{Text, codes}
use mini_linux.Prelude.Int.{pos, int_of}
use mini_linux.Prelude.Exec.{ok}
use mini_linux.Guest.{Guest, Event}
use mini_linux.Guest.Reader.{events}
use mini_linux.Guest.Session.{Snapshot}
use mini_linux.Guest.Trace.{event_limit}
use mini_linux.Guest.Trace.Log.{IsLog, Rises, events_after, events_after-events}
use mini_linux.Server.{Request, state, State, Response, respond, local_request, Laboratory}
use mini_linux.Server.Get.{Site, events_since, get_state, do_get}

pub events_since-pos : (n : ℕ) (es : List Event) → events_since (pos n) es ≡ events_after n es
unfolding events_since events_after
events_since-pos n [] = refl
events_since-pos n (e ∷ es) = ground (arith, events_since-pos n es)

-- The answer is a state with exactly these events.
pub record Answers (a : Response) (es : List Event) : Type 0 where
  pub answer : State
  pub status : a.status ≡ 200
  pub body : a.body ≡ state answer
  pub events : answer.snapshot.events ≡ es

module _ {S : Type 0} (lab : Laboratory S) (site : Site) where
  -- The guest `g` had a well-formed log when the browser last asked, and has read `lines` since. A
  -- local request for the records after the sequence number of `g` is answered with the records that
  -- the lines added, each once and in order, or with the last 2000 of them.
  pub poll-events :
      (port : Text) (r : Request) (t : Text) (g : Guest) (lines : List Text) (snap : Snapshot)
      (s s' : S)
      → IsLog g
      → local_request port r ≡ true
      → site.urlparse r.path ≡ record { path = codes "/api/state"; after = some t }
      → int_of t ≡ some (pos g.sequence)
      → lab.snapshot s ≡ (ok snap, s')
      → snap.events ≡ (events lines g).1.events
      → (a : Response) × (added : List Event) × (do_get lab site port r s ≡ (ok a, s'))
        × Rises g.sequence (events lines g).1.sequence added
        × ((events lines g).1.events ≡ last_n event_limit (g.events ++ added))
        × Answers a (last_n event_limit added)
  unfolding do_get get_state
  poll-events port r t g lines snap s s' log near url cursor taken seen =
      let (added, rises, kept, new) = events_after-events lines g log in
      let answer : State = record {
        snapshot = record snap { events = events_since (pos g.sequence) snap.events };
        epoch = lab.epoch s';
        guest_memory = lab.memory s';
      } in
      (
        respond 200 (state answer),
        added,
        rw (near, url, cursor, taken),
        rises,
        kept,
        record {
          answer = answer;
          status = refl;
          body = refl;
          events =
              ap (events_since (pos g.sequence)) seen
              ∙ events_since-pos g.sequence (events lines g).1.events
              ∙ new;
        },
      )
