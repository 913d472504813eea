-- ===== src/Linux/Steps.antt =====
-- The scripts of tools/linux.py as calls in an order: which calls a run makes, and where it stops.
use mini_linux.Prelude.{
  ◌≡◌, refl, sym, ap, ◌∙◌, Bool, true, false, List, [], ◌∷◌, ◌++◌, append-nil, append_assoc, Option,
  none, some, if◌then◌else◌,
}
use mini_linux.Prelude.Exec.{Exc, Result, ok, err, Exec, resume, ◌>>◌, pure, raise}

abbrev after_call : Option Exc → Result (Unit {0})
after_call none = ok tt
after_call (some e) = err e

module _ {A : Type 0} where
  -- A call is noted, and returns or raises.
  abbrev pub call : (A → Option Exc) → A → Exec (List A) Unit
  call fails a made = (after_call (fails a), made ++ a ∷ [])

  abbrev pub require : Bool → Exc → Exec (List A) Unit
  require b e = if b then pure tt else raise e

module _ {A B : Type 0} where
  -- `for b in bs`
  unfoldable pub each : List B → (B → Exec (List A) Unit) → Exec (List A) Unit
  each [] f = pure tt
  each (b ∷ bs) f = do f b; each bs f

  -- the calls of such a loop
  abbrev pub flat : List B → (B → List A) → List A
  flat [] f = []
  flat (b ∷ bs) f = f b ++ flat bs f

module _ {A : Type 0} where
  -- A run from `s` has made the calls of `steps` from the front, and all of them if it returned.
  pub record Made (steps s : List A) (m : Result (Unit {0}) × List A) : Type 0 where
    pub done : List A
    pub rest : List A
    pub splits : steps ≡ done ++ rest
    pub trace : m.1 ≡ s ++ done
    pub whole : m.0 ≡ ok tt → rest ≡ []

  abbrev pub Follows : List A → Exec (List A) Unit → Type 0
  Follows steps p = (s : List A) → Made steps s (p s)

module _ {A : Type 0} where
  pub call-Follows : (fails : A → Option Exc) (a : A) → Follows (a ∷ []) (call fails a)
  call-Follows fails a s = record {
    done = a ∷ [];
    rest = [];
    splits = refl;
    trace = refl;
    whole = λ _. refl;
  }

  pub require-Follows : (b : Bool) (e : Exc) → Follows {A = A} [] (require b e)
  require-Follows true e s = record {
    done = [];
    rest = [];
    splits = refl;
    trace = sym (append-nil s);
    whole = λ _. refl;
  }
  require-Follows false e s = record {
    done = [];
    rest = [];
    splits = refl;
    trace = sym (append-nil s);
    whole = λ _. refl;
  }

  Made-resume :
      (ss ts s : List A) (q : Exec (List A) Unit) (m : Result (Unit {0}) × List A)
      → Made ss s m
      → Follows ts q
      → Made (ss ++ ts) s (resume (λ _. q) m)
  Made-resume ss ts s q (ok _, s') x f =
      let y = f s' in
      record {
        done = x.done ++ y.done;
        rest = y.rest;
        splits =
            ap (λ r. r ++ ts) (x.splits ∙ ap (λ r. x.done ++ r) (x.whole refl) ∙ append-nil x.done)
            ∙ ap (λ r. x.done ++ r) y.splits
            ∙ sym (append_assoc x.done y.done y.rest);
        trace = y.trace ∙ ap (λ r. r ++ y.done) x.trace ∙ append_assoc s x.done y.done;
        whole = y.whole;
      }
  Made-resume ss ts s q (err e, s') x f = record {
    done = x.done;
    rest = x.rest ++ ts;
    splits = ap (λ r. r ++ ts) x.splits ∙ append_assoc x.done x.rest ts;
    trace = x.trace;
    whole = λ h. cc;
  }

  pub then-Follows :
      (ss ts : List A) (p q : Exec (List A) Unit)
      → Follows ss p
      → Follows ts q
      → Follows (ss ++ ts) (do p; q)
  then-Follows ss ts p q f g s = Made-resume ss ts s q (p s) (f s) g

  pub pure-Follows : Follows {A = A} [] (pure tt)
  pure-Follows s = record {
    done = [];
    rest = [];
    splits = refl;
    trace = sym (append-nil s);
    whole = λ _. refl;
  }

module _ {A B : Type 0} where
  pub each-Follows :
      (bs : List B) (steps : B → List A) (f : B → Exec (List A) Unit)
      → ((b : B) → Follows (steps b) (f b))
      → Follows (flat bs steps) (each bs f)
  unfolding each
  each-Follows [] steps f h = pure-Follows
  each-Follows (b ∷ bs) steps f h =
      then-Follows (steps b) (flat bs steps) (f b) (each bs f) (h b) (each-Follows bs steps f h)
