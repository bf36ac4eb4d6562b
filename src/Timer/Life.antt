-- ===== src/Timer/Life.antt =====
-- How often a timer calls back, and what is left of it.
use qth_frame.Base.{
  ℕ, zero, suc, ◌≡◌, refl, sym, ap, ◌∙◌, true, Option, none, some, List, [], ◌∷◌, ◌++◌, ◌==◌, arith,
}
use mathlib.Core.List.{append-nil, append_assoc}
use qth_frame.Timer.{
  Runs, left, Timer, Timers, put, set_timer, kill_timer, post, fire_object, fire, fires,
}

put_self : {A : Type 0} (f : ℕ → A) (k : ℕ) (v : A) → put f k v k ≡ v
put_self f k v = let e : (k == k) ≡ true = ground arith in rw e refl

-- `n` calls of the same callback.
abbrev pub calls : ℕ → ℕ → List ℕ
calls zero c = []
calls (suc n) c = c ∷ calls n c

fire-there :
    (p : ℕ) (o : Timer) (s : Timers)
    → s.store p ≡ some o
    → fire p s ≡ some (fire_object p o o.runs s)
unfolding fire
fire-there p o s e = rw (fire, e) refl

fires-suc : (n p : ℕ) (s t : Timers) → fire p s ≡ some t → fires (suc n) p s ≡ fires n p t
unfolding fires
fires-suc n p s t e = rw (fires, e) refl

-- The object is gone after its last wait, the callback was posted `n` times, and the table is as it was.
pub record IsSpent (n p : ℕ) (o : Timer) (s t : Timers) : Type 0 where
  pub gone : t.store p ≡ none
  pub called : t.posted ≡ s.posted ++ calls n o.callback
  pub table_kept : t.table ≡ s.table

pub record Ends (n p : ℕ) (o : Timer) (s : Timers) (r : Option Timers) : Type 0 where
  pub end : Timers
  pub reached : r ≡ some end
  pub spent : IsSpent n p o s end

pub fires-Ends :
    (n p : ℕ) (o : Timer) (s : Timers)
    → s.store p ≡ some o
    → o.runs ≡ left n
    → Ends n p o s (fires (suc n) p s)
unfolding fires fire_object
fires-Ends zero p o s e f = record {
  end = record s { store = put s.store p none };
  reached = fires-suc zero p s _ (fire-there p o s e ∙ ap (λ r. some (fire_object p o r s)) f);
  spent = record {
    gone = put_self s.store p none;
    called = sym (append-nil s.posted);
    table_kept = refl;
  };
}
fires-Ends (suc n) p o s e f =
    let o' : Timer = record o { runs = left n } in
    let t : Timers = record (post o.callback s) { store = put s.store p (some o') } in
    let h : Ends n p o' t (fires (suc n) p t) =
      fires-Ends n p o' t (put_self s.store p (some o')) refl in
    record {
      end = h.end;
      reached =
          fires-suc (suc n) p s t (fire-there p o s e ∙ ap (λ r. some (fire_object p o r s)) f)
          ∙ h.reached;
      spent = record {
        gone = h.spent.gone;
        called = h.spent.called ∙ append_assoc s.posted (o.callback ∷ []) (calls n o.callback);
        table_kept = h.spent.table_kept;
      };
    }

abbrev new_timer : ℕ → ℕ → ℕ → Runs → Timer
new_timer k elapse callback runs = record {
  id_event = k;
  elapse = elapse;
  runs = runs;
  callback = callback;
}

abbrev with_timer : ℕ → ℕ → Timer → Timers → Timers
with_timer p k o s = record s { table = put s.table k (some p); store = put s.store p (some o) }

set_timer-new :
    (p k elapse callback : ℕ) (runs : Runs) (s : Timers)
    → s.table k ≡ none
    → set_timer (some p) k elapse callback runs s
      ≡ some (true, with_timer p k (new_timer k elapse callback runs) s)
unfolding set_timer
set_timer-new p k elapse callback runs s e = rw (set_timer, e) refl

set_timer-gone :
    (place : Option ℕ) (p k elapse callback : ℕ) (runs : Runs) (s : Timers)
    → s.table k ≡ some p
    → s.store p ≡ none
    → set_timer place k elapse callback runs s ≡ none
unfolding set_timer
set_timer-gone place p k elapse callback runs s e f = rw (set_timer, e, f) refl

-- A timer with a new number is set to run `n` times, its waits end, and the number is set again.
pub record IsStale (p k elapse callback n : ℕ) (s : Timers) : Type 0 where
  pub first : Timers
  pub last : Timers
  pub set : set_timer (some p) k elapse callback (left n) s ≡ some (true, first)
  pub ended : fires (suc n) p first ≡ some last
  pub called : last.posted ≡ s.posted ++ calls n callback
  pub again :
      (place : Option ℕ) (elapse' callback' : ℕ) (runs : Runs)
      → set_timer place k elapse' callback' runs last ≡ none

-- If a number that has no timer gets one that is to run `n` times, and `n` and one more waits end:
-- the callback was posted `n` times, and a further `SetTimer` for the number touches the object
-- that has been given back.
pub set_timer-IsStale :
    (p k elapse callback n : ℕ) (s : Timers) → s.table k ≡ none → IsStale p k elapse callback n s
set_timer-IsStale p k elapse callback n s e =
    let o : Timer = new_timer k elapse callback (left n) in
    let t : Timers = with_timer p k o s in
    let h : Ends n p o t (fires (suc n) p t) =
      fires-Ends n p o t (put_self s.store p (some o)) refl in
    record {
      first = t;
      last = h.end;
      set = set_timer-new p k elapse callback (left n) s e;
      ended = h.reached;
      called = h.spent.called;
      again = λ place elapse' callback' runs.
          set_timer-gone place p k elapse' callback' runs h.end
            (ap (λ (f : ℕ → Option ℕ). f k) h.spent.table_kept ∙ put_self s.table k (some p))
            h.spent.gone;
    }

abbrev without_timer : ℕ → ℕ → Timer → Timers → Timers
without_timer p k o s = record s {
  table = put s.table k none;
  store = put s.store p (some (record o { runs = left 0 }));
}

kill_timer-there :
    (k p : ℕ) (o : Timer) (s : Timers)
    → s.table k ≡ some p
    → s.store p ≡ some o
    → kill_timer k s ≡ some (without_timer p k o s)
unfolding kill_timer
kill_timer-there k p o s e f = rw (kill_timer, e, f) refl

-- A timer is killed, and then its wait ends.
pub record IsKilled (k p : ℕ) (s : Timers) : Type 0 where
  pub killed : Timers
  pub last : Timers
  pub kills : kill_timer k s ≡ some killed
  pub ended : fire p killed ≡ some last
  pub silent : last.posted ≡ s.posted
  pub off_table : last.table k ≡ none
  pub gone : last.store p ≡ none

-- If a timer that is in the table is killed and then its wait ends, no callback is posted, the
-- number has no timer, and the object has been given back.
pub kill_timer-IsKilled :
    (k p : ℕ) (o : Timer) (s : Timers) → s.table k ≡ some p → s.store p ≡ some o → IsKilled k p s
unfolding fire_object
kill_timer-IsKilled k p o s e f =
    let t : Timers = without_timer p k o s in
    record {
      killed = t;
      last = record t { store = put t.store p none };
      kills = kill_timer-there k p o s e f;
      ended = fire-there p (record o { runs = left 0 }) t (put_self s.store p _);
      silent = refl;
      off_table = put_self s.table k none;
      gone = put_self t.store p none;
    }
