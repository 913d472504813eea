-- ===== src/Guest/Session/Waiting.antt =====
-- `wait_for` ends in time, and what its results mean; what `send` puts on the wire.
use mini_linux.Prelude.{
  not, all, ◌&&◌, ◌||◌, ℕ, ◌+◌, ◌*◌, ◌≤◌, ◌<◌, ◌≡◌, ◌≢◌, refl, sym, ap, ◌∙◌, Bool, true, false,
  List, [], ◌∷◌, ◌++◌, arith, Bool-cases, inl, inr, length, ltb, Option-cases, append-nil,
  append_assoc,
}
use mini_linux.Prelude.Text.{Text}
use mini_linux.Prelude.Exec.{value_error, Result, ok, err}
use mini_linux.Guest.{Guest}
use mini_linux.Guest.Session.{
  Poll, returned, waiting, wait_for, has_failed, Socket, send_bytes, send, is_ascii, is_running,
  not_running,
}

-- The rounds are at least 25 ms apart, from `start` on.
abbrev pub Spaced : ℕ → List Poll → Type 0
Spaced start [] = Unit
Spaced start (p ∷ ps) = (start ≤ p.now) × Spaced (p.now + 25) ps

-- With rounds that are at least 25 ms apart, as the sleep makes them, `wait_for` has returned or
-- raised by the first round at which the deadline can be past, whatever the predicate.
pub wait_for-ends :
    (predicate : Guest → Bool) (start deadline : ℕ) (p : Poll) (ps : List Poll)
    → Spaced start (p ∷ ps)
    → deadline ≤ start + 25 * length ps
    → wait_for predicate deadline (p ∷ ps) ≢ waiting
unfolding wait_for
wait_for-ends predicate start deadline p [] s d = ground arith
wait_for-ends predicate start deadline p (q ∷ qs) s d =
    ground (arith, wait_for-ends predicate (p.now + 25) deadline q qs s.1)

-- The first round at which the predicate holds, in time, with no failed round before it.
pub record ReturnsAt (predicate : Guest → Bool) (deadline : ℕ) (polls : List Poll) (g : Guest)
    : Type 0 where
  pub earlier : List Poll
  pub at : Poll
  pub later : List Poll
  pub splits : polls ≡ earlier ++ at ∷ later
  pub in_time : at.now < deadline
  pub holds : predicate at.guest ≡ true
  pub seen : at.guest ≡ g
  pub missed : all (λ p. not (predicate p.guest) && not (has_failed p.guest.status)) earlier ≡ true

ReturnsAt-cons :
    (predicate : Guest → Bool) (deadline : ℕ) (p : Poll) (ps : List Poll) (g : Guest)
    → predicate p.guest ≡ false
    → has_failed p.guest.status ≡ false
    → ReturnsAt predicate deadline ps g
    → ReturnsAt predicate deadline (p ∷ ps) g
ReturnsAt-cons predicate deadline p ps g n f r = record {
  earlier = p ∷ r.earlier;
  at = r.at;
  later = r.later;
  splits = ap (◌∷◌ p) r.splits;
  in_time = r.in_time;
  holds = r.holds;
  seen = r.seen;
  missed = ground (arith, r.missed);
}

-- When `wait_for` returns, the predicate held at a round before the deadline, and at no earlier round
-- did it hold or was the guest faulted or disconnected.
pub wait_for-returned :
    (predicate : Guest → Bool) (deadline : ℕ) (polls : List Poll) (g : Guest)
    → wait_for predicate deadline polls ≡ returned g
    → ReturnsAt predicate deadline polls g
unfolding wait_for
wait_for-returned predicate deadline [] g e = cc
wait_for-returned predicate deadline (p ∷ ps) g e = elim (Bool-cases (ltb p.now deadline)) [
  | inr late ↦ cc (rw late at e)
  | inl early ↦ elim (Bool-cases (predicate p.guest)) [
    | inl now ↦ record {
      earlier = [];
      at = p;
      later = ps;
      splits = refl;
      in_time = ground arith;
      holds = now;
      seen = cc (rw (early, now) at e);
      missed = refl;
    }
    | inr not_yet ↦ elim (Bool-cases (has_failed p.guest.status)) [
      | inl bad ↦ cc (rw (early, not_yet, bad) at e)
      | inr fine ↦
          ReturnsAt-cons predicate deadline p ps g not_yet fine
            (wait_for-returned predicate deadline ps g (rw (early, not_yet, fine) at e))
    ]
  ]
]

-- What a call of `send` has put on the wire: a part of the text from its front, all of it if the call
-- returned.
pub record SendsPrefix (text sent : List ℕ) (m : Result (Unit {0}) × List ℕ) : Type 0 where
  pub done : List ℕ
  pub rest : List ℕ
  pub splits : text ≡ done ++ rest
  pub wire : m.1 ≡ sent ++ done
  pub whole : m.0 ≡ ok tt → rest ≡ []

SendsPrefix-cons :
    (b : ℕ) (bs sent : List ℕ) (m : Result (Unit {0}) × List ℕ)
    → SendsPrefix bs (sent ++ b ∷ []) m
    → SendsPrefix (b ∷ bs) sent m
SendsPrefix-cons b bs sent m s = record {
  done = b ∷ s.done;
  rest = s.rest;
  splits = ap (◌∷◌ b) s.splits;
  wire = s.wire ∙ append_assoc sent (b ∷ []) s.done;
  whole = s.whole;
}

send_bytes-SendsPrefix :
    (socket : Socket) (bs sent : List ℕ) → SendsPrefix bs sent (send_bytes socket bs sent)
unfolding send_bytes
send_bytes-SendsPrefix socket [] sent = record {
  done = [];
  rest = [];
  splits = refl;
  wire = sym (append-nil sent);
  whole = λ _. refl;
}
send_bytes-SendsPrefix socket (b ∷ bs) sent = elim (Option-cases (socket sent b)) [
  | inl good ↦
      rw good (SendsPrefix-cons b bs sent _ (send_bytes-SendsPrefix socket bs (sent ++ b ∷ [])))
  | inr (e, bad) ↦ rw bad (record {
    done = [];
    rest = b ∷ bs;
    splits = refl;
    wire = sym (append-nil sent);
    whole = λ h. cc;
  })
]

-- `send` refuses a guest that is closed or not running, then a text that is not ASCII, before any
-- byte is sent; else it sends the text from the front, and all of it if it returns.
pub send_branches :
    (socket : Socket) (g : Guest) (text : Text) (sent : List ℕ)
    → ((g.closed || not (is_running g.status)) ≡ true
        → send socket g text sent ≡ (err not_running, sent))
      × ((g.closed || not (is_running g.status)) ≡ false
          → is_ascii text ≡ false
          → send socket g text sent ≡ (err value_error, sent))
      × ((g.closed || not (is_running g.status)) ≡ false
          → is_ascii text ≡ true
          → SendsPrefix text sent (send socket g text sent))
unfolding send
send_branches socket g text sent =
    (λ h. rw h, λ h k. rw (h, k), λ h k. rw (h, k) (send_bytes-SendsPrefix socket text sent))
