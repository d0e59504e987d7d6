-- ===== src/Deploy/Follows.antt =====
-- Computations whose events follow the specification, and that fail exactly if a call failed.
use nvoi.Base.{Bytes, Bool, true, false, List, [], ◌∷◌, ◌++◌, ◌||◌, any, ◌≡◌, refl, ◌∙◌, arith}
use nvoi.Deploy.Action.{
  Result, ok, error, is_error, Call, Event, Run, Action, did, failed, planned, answered, log,
  log_pending, close_kube, close_infra, pure, then_run, ◌>>=◌, emit, modify, gets, record_call,
  call, add_last, deferred, wrap, in_context,
}
use nvoi.Deploy.Phases.{Phase, Next, Trace, here, next, Trace-append}

abbrev pub is_failed : Event → Bool
is_failed (did c) = false
is_failed (failed c) = true
is_failed (planned es) = false
is_failed (answered b) = false
is_failed (log l t) = false
is_failed (log_pending n) = false
is_failed close_kube = false
is_failed close_infra = false

-- The phase at the end: one for each result, or the one of a failure.
abbrev pub ends : {A : Type 0} → (A → Phase) → Phase → Result A → Phase
ends q e (ok a) = q a
ends q e (error x) = e

any-append : (p : Event → Bool) (es fs : List Event) → any p (es ++ fs) ≡ (any p es || any p fs)
any-append p [] fs = refl
any-append p (e ∷ es) fs = ground (arith, any-append p es fs)

abbrev pub After : {S A : Type 0} → (asks : Bool) → Phase → (A → Phase) → Phase → Run S A → Type 0
After asks p q e r = Trace asks p r.1.1 (ends q e r.0) × (any is_failed r.1.1 ≡ is_error r.0)

-- From the phase `p` to the one that `q` gives for the result, or to `e` on an error.
pub record Follows {S A : Type 0} (asks : Bool) (p : Phase) (q : A → Phase) (e : Phase)
    (m : Action S A) : Type 0 where
  pub after : (s : S) → After asks p q e (m s)

module _ {S : Type 0} {asks : Bool} where
  After-then_run :
      {A B : Type 0} (p : Phase) (q : A → Phase) (r : B → Phase) (e : Phase) (x : Run S A)
      (f : A → Action S B)
      → After asks p q e x
      → ((a : A) → Follows asks (q a) r e (f a))
      → After asks p r e (then_run x f)
  unfolding then_run
  After-then_run p q r e (ok a, (s, es)) f (h, k) g = (
    Trace-append h ((g a).after s).0,
    any-append is_failed es (f a s).1.1 ∙ ground (arith, k, ((g a).after s).1),
  )
  After-then_run p q r e (error x, (s, es)) f h g = h

  pub Follows-bind :
      {A B : Type 0} {p : Phase} (q : A → Phase) {r : B → Phase} {e : Phase} {m : Action S A}
      {f : A → Action S B}
      → Follows asks p q e m
      → ((a : A) → Follows asks (q a) r e (f a))
      → Follows asks p r e (m >>= f)
  Follows-bind {p = p} q {r = r} {e = e} {m = m} {f = f} h k = record {
    after = λ s. After-then_run p q r e (m s) f (h.after s) k;
  }

  pub Follows-pure :
      {A : Type 0} {q : A → Phase} {e : Phase} (a : A) → Follows asks (q a) q e (pure {S = S} a)
  Follows-pure a = record { after = λ s. (here, refl) }

  pub Follows-modify : {p : Phase} {e : Phase} (f : S → S) → Follows asks p (λ _. p) e (modify f)
  Follows-modify f = record { after = λ s. (here, refl) }

  pub Follows-gets :
      {A : Type 0} {p : Phase} {e : Phase} (f : S → A) → Follows asks p (λ _. p) e (gets f)
  Follows-gets f = record { after = λ s. (here, refl) }

  pub Follows-emit :
      {p q e : Phase} (x : Event)
      → Next asks p x q
      → is_failed x ≡ false
      → Follows asks p (λ _. q) e (emit {S = S} x)
  Follows-emit x n h = record { after = λ s. (next n here, ground (arith, h)) }

  After-record_call :
      {A : Type 0} {p q e : Phase} (c : Call) (r : Result A × S)
      → Next asks p (did c) q
      → Next asks p (failed c) e
      → After asks p (λ _. q) e (record_call c r)
  After-record_call c (ok a, s) n f = (next n here, refl)
  After-record_call c (error x, s) n f = (next f here, refl)

  pub Follows-call :
      {A : Type 0} {p q e : Phase} (c : Call) (op : S → Result A × S)
      → Next asks p (did c) q
      → Next asks p (failed c) e
      → Follows asks p (λ _. q) e (call c op)
  unfolding call
  Follows-call c op n f = record { after = λ s. After-record_call c (op s) n f }

  After-add_last :
      {A : Type 0} (p : Phase) (q : A → Phase) (e t : Phase) (x : Event) (r : Run S A)
      → After asks p q e r
      → ((a : A) → Next asks (q a) x t)
      → Next asks e x t
      → is_failed x ≡ false
      → After asks p (λ _. t) t (add_last x r)
  After-add_last p q e t x (ok a, (s, es)) (h, k) n f fine =
      (Trace-append h (next (n a) here), any-append is_failed es (x ∷ []) ∙ ground (arith, k, fine))
  After-add_last p q e t x (error y, (s, es)) (h, k) n f fine =
      (Trace-append h (next f here), any-append is_failed es (x ∷ []) ∙ ground (arith, k, fine))

  pub Follows-deferred :
      {A : Type 0} {p : Phase} {q : A → Phase} {e : Phase} (t : Phase) (x : Event) (m : Action S A)
      → Follows asks p q e m
      → ((a : A) → Next asks (q a) x t)
      → Next asks e x t
      → is_failed x ≡ false
      → Follows asks p (λ _. t) t (deferred x m)
  unfolding deferred
  Follows-deferred {p = p} {q = q} {e = e} t x m h n f fine = record {
    after = λ s. After-add_last p q e t x (m s) (h.after s) n f fine;
  }

  After-wrap :
      {A : Type 0} (p : Phase) (q : A → Phase) (e : Phase) (c : Bytes) (r : Run S A)
      → After asks p q e r
      → After asks p q e (wrap c r.0, r.1)
  After-wrap p q e c (ok a, s) h = h
  After-wrap p q e c (error x, s) h = h

  pub Follows-in_context :
      {A : Type 0} {p : Phase} {q : A → Phase} {e : Phase} (c : Bytes) {m : Action S A}
      → Follows asks p q e m
      → Follows asks p q e (in_context c m)
  Follows-in_context {p = p} {q = q} {e = e} c {m = m} h = record {
    after = λ s. After-wrap p q e c (m s) (h.after s);
  }
