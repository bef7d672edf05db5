-- ===== src/Watcher/Ending.antt =====
-- Actions of the worker of src/harness/nas_watcher.py that come to an end, and the clock while they run.
use harness_golden_path.Prelude.{
  ℕ, ◌+◌, ◌≤◌, ◌≡◌, ◌≢◌, Option, none, some, Bool-cases, inl, inr, ltb, arith, ◌==◌,
}
use harness_golden_path.Watcher.Client.{
  Worker, Result, returned, raised, out_of_fuel, Failure, continue, ◌>>=◌, pure, Reply, answered,
  unreachable, read_reply, require, probe_result, Document,
}

-- An action that began at a time has come to an end. The clock has not gone back, and if the action has
-- returned, it shows at least another time.
pub data EndsAt {A W : Type 0} (clock : W → ℕ) (since until : ℕ) : Result A → W → Type 0 where
  by_return :
      {a : A} {w : W} → since ≤ clock w → until ≤ clock w → EndsAt clock since until (returned a) w
  by_raise : {e : Failure} {w : W} → since ≤ clock w → EndsAt clock since until (raised e) w

pub EndsAt-ne :
    {A W : Type 0} {clock : W → ℕ} {since until : ℕ} {r : Result A} {w : W}
    → EndsAt clock since until r w
    → r ≢ out_of_fuel
EndsAt-ne (by_return h k) e = cc
EndsAt-ne (by_raise h) e = cc

pub EndsAt-passed :
    {A W : Type 0} {clock : W → ℕ} {since until : ℕ} {r : Result A} {w : W} (a : A)
    → EndsAt clock since until r w
    → r ≡ returned a
    → until ≤ clock w
EndsAt-passed a (by_return h k) e = k
EndsAt-passed a (by_raise h) e = absurd cc

pub EndsAt-earlier :
    {A W : Type 0} {clock : W → ℕ} {since until later beyond : ℕ} {r : Result A} {w : W}
    → since ≤ later
    → until ≤ beyond
    → EndsAt clock later beyond r w
    → EndsAt clock since until r w
EndsAt-earlier h k (by_return p q) = by_return (omega arith) (omega arith)
EndsAt-earlier h k (by_raise p) = by_raise (omega arith)

pub EndsAt-continue :
    {A B W : Type 0} {clock : W → ℕ} {since first until : ℕ} (f : A → Worker W B) (r : Result A)
    (w : W)
    → EndsAt clock since first r w
    → ((a : A) → first ≤ clock w → EndsAt clock (clock w) until (f a w).0 (f a w).1)
    → EndsAt clock since until (continue f w r).0 (continue f w r).1
EndsAt-continue f (returned a) w (by_return h h2) k = EndsAt-earlier h (omega arith) (k a h2)
EndsAt-continue f (raised e) w (by_raise h) k = by_raise h
EndsAt-continue f out_of_fuel w h k = elim h [ ]

pub read_reply-EndsAt :
    {W : Type 0} {clock : W → ℕ} (reply : Reply) (time : ℕ) (w : W)
    → time ≤ clock w
    → EndsAt clock time time (read_reply reply) w
unfolding read_reply
read_reply-EndsAt unreachable time w h = by_raise h
read_reply-EndsAt (answered r) time w h = elim (Bool-cases (ltb r.status_code 400)) [
  | inl good ↦ rw good (by_return h h)
  | inr bad ↦ elim (Bool-cases (r.status_code == 401)) [
    | inl same ↦ rw (bad, same) (by_raise h)
    | inr other ↦ elim (Bool-cases (r.status_code == 409)) [
      | inl same ↦ rw (bad, other, same) (by_raise h)
      | inr fails ↦ rw (bad, other, fails) (by_raise h)
    ]
  ]
]

pub probe_result-EndsAt :
    {W : Type 0} {clock : W → ℕ} (found : Option Document) (time : ℕ) (w : W)
    → time ≤ clock w
    → EndsAt clock time time (probe_result found) w
probe_result-EndsAt none time w h = by_raise h
probe_result-EndsAt (some document) time w h = by_return h h

require-EndsAt :
    {A W : Type 0} {clock : W → ℕ} (a : Option A) (e : Failure) (w : W)
    → EndsAt clock (clock w) (clock w) (require a e w).0 w
require-EndsAt none e w = by_raise (omega arith)
require-EndsAt (some a) e w = by_return (omega arith) (omega arith)

-- The same of an action, whenever it begins.
pub record Ends {A W : Type 0} (clock : W → ℕ) (delay : ℕ) (m : Worker W A) : Type 0 where
  pub ends : (w : W) → EndsAt clock (clock w) (clock w + delay) (m w).0 (m w).1

module _ {W : Type 0} {clock : W → ℕ} where
  pub Ends-bind :
      {A B : Type 0} {delay : ℕ} {m : Worker W A} {f : A → Worker W B}
      → Ends clock 0 m
      → ((a : A) → Ends clock delay (f a))
      → Ends clock delay (m >>= f)
  Ends-bind {m = m} {f = f} h k = record {
    ends = λ w.
        EndsAt-continue f (m w).0 (m w).1 (h.ends w)
          λ a h. EndsAt-earlier (omega arith) (omega arith) ((k a).ends (m w).1);
  }

  pub Ends-require : {A : Type 0} (a : Option A) (e : Failure) → Ends clock 0 (require a e)
  Ends-require a e = record {
    ends = λ w. EndsAt-earlier (omega arith) (omega arith) (require-EndsAt a e w);
  }

pub Ends-pure : {A W : Type 0} {clock : W → ℕ} (a : A) → Ends clock 0 (pure {W = W} a)
Ends-pure a = record { ends = λ w. by_return (omega arith) (omega arith) }
