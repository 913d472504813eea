-- ===== src/Checks/Faults/Witnessed.antt =====
-- What the records have shown when the examination of a mixed fault passes.
use mathlib.Core.Path.{subst}
use mini_linux.Prelude.{◌≡◌, sym, ap, ◌∙◌, true, inl, List, [], ◌∷◌, Option, none, some}
use mini_linux.Prelude.Text.{codes, text_eq_iff}
use mini_linux.Prelude.Int.{ℤ, pos, int_eq_iff, int_Eq}
use mini_linux.Prelude.Dict
use mini_linux.Prelude.Dict.{Dict}
use mini_linux.Guest.{Event}
use mini_linux.Guest.Trace.Log.{events_after}
use mini_linux.Checks.{
  exists, passed, lookup, found, is_from, select, text_at, int_at, table, of_kind,
}
use mini_linux.Checks.Search.{
  Among, Recorded, passed_inj, passed_through, passed_next, holds_true, and_then-true, select-Among,
  exists-Among, of_kind-Recorded, is_from-true, and_true,
}
use mini_linux.Checks.Faults.{
  Pair, children, is_user_page_fault, is_single, first_fault, fault_of, check_exits, is_write,
  check_write, faulted_pair,
}

-- The page fault of user code: vector 14, at privilege level 3.
pub record IsUserFault (pid : ℤ) (es : List Event) (e : Event) : Type 0 where
  pub among : Among e es
  pub is_fault : e.kind ≡ codes "fault"
  pub of_pid : int_at 0 e ≡ passed pid
  pub vector : text_at 1 e ≡ passed (codes "14")
  pub level : text_at 5 e ≡ passed (codes "3")

-- The child 6 of the two spawned faulted and ended with 142; the child 4 wrote after the fault and
-- ended with 0.
pub record IsWitnessed (es : List Event) (p : Pair) : Type 0 where
  pub fault : Event
  pub faulted : IsUserFault p.fault_pid es fault
  pub fault_spawned : Recorded (codes "spawn") 2 (pos 6) 0 p.fault_pid es
  pub survivor_spawned : Recorded (codes "spawn") 2 (pos 4) 0 p.survivor_pid es
  pub fault_ended : Recorded (codes "exit") 0 p.fault_pid 1 (pos 142) es
  pub survivor_ended : Recorded (codes "exit") 0 p.survivor_pid 1 (pos 0) es
  pub wrote_on : Recorded (codes "syscall") 0 p.survivor_pid 1 (pos 1) (events_after fault.id es)

lookup-some : (o : Option ℤ) (v : ℤ) → lookup o ≡ passed v → o ≡ some v
lookup-some none v h = cc h
lookup-some (some w) v h = ap some (passed_inj h)

found_some : (o : Option ℤ) (v : ℤ) → found o v ≡ true → o ≡ some v
found_some none v h = cc h
found_some (some w) v h = ap some (((int_eq_iff w v).0) h)

children-Recorded :
    (es : List Event) (p : Pair)
    → children es ≡ passed p
    → Recorded (codes "spawn") 2 (pos 6) 0 p.fault_pid es
      × Recorded (codes "spawn") 2 (pos 4) 0 p.survivor_pid es
unfolding children
children-Recorded es p h =
    let (spawns, hs, h1) = passed_through (of_kind (codes "spawn") es) _ p h in
    let (_, h2) = passed_next _ _ p h1 in
    let (t, ht, h3) = passed_through (table 2 0 spawns) _ p h2 in
    let (f, hf, h4) = passed_through (lookup (Dict.get (pos 6) t)) _ p h3 in
    let (s, hv, h5) = passed_through (lookup (Dict.get (pos 4) t)) _ p h4 in
    let six =
      lookup-some (Dict.get (pos 6) t) f hf ∙ ap (λ (q : Pair). some q.fault_pid) (passed_inj h5) in
    let four =
      lookup-some (Dict.get (pos 4) t) s hv
      ∙ ap (λ (q : Pair). some q.survivor_pid) (passed_inj h5) in
    (
      of_kind-Recorded (codes "spawn") 2 0 (pos 6) p.fault_pid t es spawns hs ht six,
      of_kind-Recorded (codes "spawn") 2 0 (pos 4) p.survivor_pid t es spawns hs ht four,
    )

single_first :
    (fs : List Event) (e : Event)
    → is_single fs ≡ passed true
    → first_fault fs ≡ passed e
    → Among e fs × (is_user_page_fault e ≡ passed true)
unfolding is_single
single_first [] e h g = cc g
single_first (d ∷ []) e h g =
    (inl (sym (passed_inj g)), ap is_user_page_fault (sym (passed_inj g)) ∙ h)
single_first (d ∷ f ∷ fs) e h g = cc (passed_inj h)

user_page_fault_fields :
    (e : Event)
    → is_user_page_fault e ≡ passed true
    → (text_at 1 e ≡ passed (codes "14")) × (text_at 5 e ≡ passed (codes "3"))
unfolding is_user_page_fault
user_page_fault_fields e h =
    let (v, hv, h1) = passed_through (text_at 1 e) _ true h in
    let (is_14, h2) = and_then-true _ _ h1 in
    let (l, hl, h3) = passed_through (text_at 5 e) _ true h2 in
    (
      hv ∙ ap passed (((text_eq_iff v (codes "14")).0) is_14),
      hl ∙ ap passed (((text_eq_iff l (codes "3")).0) (passed_inj h3)),
    )

fault_of-IsUserFault :
    (pid : ℤ) (es : List Event) (e : Event) → fault_of pid es ≡ passed e → IsUserFault pid es e
unfolding fault_of
fault_of-IsUserFault pid es e h =
    let (faults, hf, h1) = passed_through (select (is_from (codes "fault") pid) es) _ e h in
    let (single, hs, h2) = passed_through (is_single faults) _ e h1 in
    let ((u, true_), h3) = passed_next _ _ e h2 in
    let (m, q) = single_first faults e (hs ∙ ap passed (holds_true single _ u true_)) h3 in
    let (n, k) = select-Among (is_from (codes "fault") pid) es faults e hf m in
    let (kind, of_pid) = is_from-true (codes "fault") pid e k in
    let (vector, level) = user_page_fault_fields e q in
    record { among = n; is_fault = kind; of_pid = of_pid; vector = vector; level = level }

check_exits-Recorded :
    (p : Pair) (es : List Event) (u : Unit {0})
    → check_exits p es ≡ passed u
    → Recorded (codes "exit") 0 p.fault_pid 1 (pos 142) es
      × Recorded (codes "exit") 0 p.survivor_pid 1 (pos 0) es
unfolding check_exits
check_exits-Recorded p es u h =
    let (exited, he, h1) = passed_through (of_kind (codes "exit") es) _ u h in
    let (t, ht, h2) = passed_through (table 0 1 exited) _ u h1 in
    let (a, b) = and_true (holds_true _ _ u h2) in
    (
      of_kind-Recorded (codes "exit") 0 1 p.fault_pid (pos 142) t es exited he ht
          (found_some _ _ a),
      of_kind-Recorded (codes "exit") 0 1 p.survivor_pid (pos 0) t es exited he ht
          (found_some _ _ b),
    )

check_write-Recorded :
    (pid : ℤ) (es : List Event) (u : Unit {0})
    → check_write pid es ≡ passed u
    → Recorded (codes "syscall") 0 pid 1 (pos 1) es
unfolding check_write
check_write-Recorded pid es u h =
    let (wrote, hw, h1) = passed_through (exists (is_write pid) es) _ u h in
    let (e, m, q) = exists-Among (is_write pid) es (hw ∙ ap passed (holds_true wrote _ u h1)) in
    let (b, hb, q1) = passed_through (is_from (codes "syscall") pid e) _ true q in
    let (yes_, q2) = and_then-true _ _ q1 in
    let (c, hc, q3) = passed_through (int_at 1 e) _ true q2 in
    let (kind, of_pid) = is_from-true (codes "syscall") pid e (hb ∙ ap passed yes_) in
    (e, m, kind, of_pid, hc ∙ ap passed (((int_eq_iff c (pos 1)).0) (passed_inj q3)))

-- A mixed fault is passed only on this evidence in the records: a spawn of program 6 and one of
-- program 4, a page fault of the first from privilege level 3, the exits of both with the statuses
-- 142 and 0, and a write of the second with a higher id than the fault.
pub faulted_pair-IsWitnessed :
    (es : List Event) (p : Pair) → faulted_pair es ≡ passed p → IsWitnessed es p
unfolding faulted_pair
faulted_pair-IsWitnessed es p h =
    let (q, hq, h1) = passed_through (children es) _ p h in
    let (fault, hf, h2) = passed_through (fault_of q.fault_pid es) _ p h1 in
    let ((u, he), h3) = passed_next (check_exits q es) _ p h2 in
    let ((v, hw), h4) =
      passed_next (check_write q.survivor_pid (events_after fault.id es)) _ p h3 in
    let (a, b) = children-Recorded es q hq in
    let (c, d) = check_exits-Recorded q es u he in
    subst (IsWitnessed es) (passed_inj h4) record {
      fault = fault;
      faulted = fault_of-IsUserFault q.fault_pid es fault hf;
      fault_spawned = a;
      survivor_spawned = b;
      fault_ended = c;
      survivor_ended = d;
      wrote_on = check_write-Recorded q.survivor_pid (events_after fault.id es) v hw;
    }
