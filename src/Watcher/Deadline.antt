-- ===== src/Watcher/Deadline.antt =====
-- The loop of `NasWatcher.run` of src/harness/nas_watcher.py comes to its end.
use Prim.Native.String.{◌++◌ as ◌++ₛ◌}
use harness_golden_path.Prelude.{
  ℕ, ℤ, pos, negsuc, zero, suc, ◌+◌, ◌*◌, ◌≤◌, ◌≡◌, ◌≢◌, String, Bool, true, false, Bool-cases, inl,
  inr, ltb, arith,
}
use harness_golden_path.Store.Tables.{Task}
use harness_golden_path.App.Http.{Endpoint, Body}
use harness_golden_path.Watcher.Client.{
  Result, returned, raised, out_of_fuel, ◌>>=◌, World, task_of, checks_of, Call, request,
  public_json, collect, Report, WorkflowRun, latest_run, index_error, key_error,
}
use harness_golden_path.Watcher.Run.{
  NasWatcher, claim_or_resume, cycle, watch, submit_receipt, run, on_conflict, report_of, resume,
  is_resumable, is_conflict, keep_if, sleep, tell, clock,
}
use harness_golden_path.Watcher.Ending.{
  EndsAt, by_return, by_raise, EndsAt-ne, EndsAt-passed, EndsAt-earlier, EndsAt-continue,
  read_reply-EndsAt, probe_result-EndsAt, Ends, Ends-bind, Ends-require, Ends-pure,
}

pos_injective : {m n : ℕ} → pos m ≡ pos n → m ≡ n
pos_injective h = cc

-- What the world owes the worker: its clock never goes back, and a sleep lasts as long as asked.
pub record IsClocked {W : Type 0} (world : World W) : Type 0 where
  pub network : (call : Call) (w : W) → world.clock w ≤ world.clock (world.urlopen call w).1
  pub fetch : (url : String) (w : W) → world.clock w ≤ world.clock (world.document url w).1
  pub output : (report : Report) (w : W) → world.clock w ≤ world.clock (world.emit report w)
  pub sleeps :
      (seconds : ℕ) (w : W)
      → world.clock w + seconds * 1000000 ≤ world.clock (world.sleeper seconds w)

nearer :
    (start now limit fuel step : ℕ)
    → limit ≤ start + suc fuel * step
    → start + step ≤ now
    → limit ≤ now + fuel * step
nearer start now limit fuel step h k = omega arith

module _ {W : Type 0} (world : World W) (clocked : IsClocked world) where
  Ends-request :
      (token : String) (endpoint : Endpoint) (text : String)
      → Ends world.clock 0 (request world token endpoint text)
  unfolding request
  Ends-request token endpoint text =
      let call : Call = record {
        endpoint = endpoint;
        path_text = text;
        authorization = "Bearer " ++ₛ token;
      } in
      record {
        ends = λ w. EndsAt-earlier (omega arith) (omega arith) (
            read_reply-EndsAt (world.urlopen call w).0 (world.clock w) (world.urlopen call w).1
              (clocked.network call w));
      }

  Ends-public_json : (url : String) → Ends world.clock 0 (public_json world url)
  unfolding public_json
  Ends-public_json url = record {
    ends = λ w. EndsAt-earlier (omega arith) (omega arith) (
        probe_result-EndsAt (world.document url w).0 (world.clock w) (world.document url w).1
          (clocked.fetch url w));
  }

  Ends-collect : (repository : String) → Ends world.clock 0 (collect world repository)
  unfolding collect
  Ends-collect repository = Ends-bind (Ends-public_json _) λ commit.
      Ends-bind (Ends-public_json _) λ runs.
        Ends-bind {A = WorkflowRun} (Ends-require (latest_run runs.workflow_runs) index_error)
          λ latest.
            Ends-bind {A = String} (Ends-require commit.sha key_error)
              λ sha. Ends-pure (checks_of repository sha latest)

  module _ (watcher : NasWatcher) (n : ℕ) where
    Ends-sleep :
        (interval : ℤ)
        → interval ≡ pos n
        → Ends world.clock (n * 1000000) (sleep world watcher interval)
    Ends-sleep (pos m) e = record {
      ends = λ w.
          let slept = clocked.sleeps n w in
          by_return (rw (pos_injective e) (omega arith)) (rw (pos_injective e) slept);
    }
    Ends-sleep (negsuc m) e = record { ends = λ w. by_raise (omega arith) }

    Ends-tell : (report : Report) → Ends world.clock 0 (tell world watcher report)
    Ends-tell report = record {
      ends = λ w. let h = clocked.output report w in by_return (omega arith) (omega arith);
    }

    Ends-clock : Ends world.clock 0 (clock world watcher)
    Ends-clock = record { ends = λ w. by_return (omega arith) (omega arith) }

    Ends-cycle :
        watcher.interval_seconds ≡ pos n → Ends world.clock (n * 1000000) (cycle world watcher)
    unfolding cycle
    Ends-cycle h = Ends-bind (Ends-request _ _ _) λ body. Ends-bind Ends-clock λ timestamp.
        Ends-bind (Ends-collect watcher.repository) λ checks.
          Ends-bind (Ends-tell (report_of watcher timestamp checks))
            λ _. Ends-sleep watcher.interval_seconds h

    watch-EndsAt :
        (fuel cycles : ℕ) (w : W)
        → watcher.interval_seconds ≡ pos n
        → watcher.end_at.microseconds ≤ world.clock w + fuel * (n * 1000000)
        → EndsAt world.clock
            (world.clock w)
            watcher.end_at.microseconds
            (watch world watcher (suc fuel) cycles w).0
            (watch world watcher (suc fuel) cycles w).1
    unfolding watch
    watch-EndsAt zero cycles w h enough =
        let over : ltb (world.clock w) watcher.end_at.microseconds ≡ false = ground arith in
        rw over (by_return (omega arith) (ground arith))
    watch-EndsAt (suc fuel) cycles w h enough =
        elim (Bool-cases (ltb (world.clock w) watcher.end_at.microseconds)) [
          | inr over ↦ rw over (by_return (omega arith) (ground arith))
          | inl before ↦ rw before (
              EndsAt-continue (λ _. watch world watcher (suc fuel) (cycles + 1))
                (cycle world watcher w).0 (cycle world watcher w).1 ((Ends-cycle h).ends w)
                λ _ passed.
                  watch-EndsAt fuel (cycles + 1) _ h
                    (nearer (world.clock w) _ _ fuel _ enough passed))
        ]

  module _ (watcher : NasWatcher) where
    Ends-keep_if :
        (test : Bool) (body : Body) → Ends world.clock 0 (keep_if world watcher test body)
    Ends-keep_if true body = Ends-pure body
    Ends-keep_if false body = record { ends = λ w. by_raise (omega arith) }

    Ends-resume : Ends world.clock 0 (resume world watcher)
    Ends-resume =
        Ends-bind (Ends-request _ _ _)
          λ body. Ends-keep_if (is_resumable watcher.worker_id (task_of body)) body

    on_conflict-EndsAt :
        (r : Result Body) (time : ℕ) (w : W)
        → EndsAt world.clock time time r w
        → EndsAt world.clock time time
            (on_conflict world watcher (r, w)).0
            (on_conflict world watcher (r, w)).1
    on_conflict-EndsAt (returned body) time w h = h
    on_conflict-EndsAt out_of_fuel time w h = h
    on_conflict-EndsAt (raised e) time w (by_raise h) = elim (Bool-cases (is_conflict e)) [
      | inl conflict ↦ rw conflict (EndsAt-earlier h (omega arith) (Ends-resume.ends w))
      | inr other ↦ rw other (by_raise h)
    ]

    Ends-claim_or_resume : Ends world.clock 0 (claim_or_resume world watcher)
    unfolding claim_or_resume
    Ends-claim_or_resume = record {
      ends = λ w. EndsAt-earlier (omega arith) (omega arith) (
          on_conflict-EndsAt _ (world.clock w) _
            (EndsAt-earlier (omega arith) (omega arith) ((Ends-request _ _ _).ends w)));
    }

    Ends-submit_receipt :
        (body : Body) (cycles : ℕ) → Ends world.clock 0 (submit_receipt world watcher body cycles)
    unfolding submit_receipt
    Ends-submit_receipt body cycles =
        Ends-bind {A = Task} (Ends-require (task_of body) key_error) λ task. Ends-request _ _ _

    run-EndsAt :
        (n fuel : ℕ) (w : W)
        → watcher.interval_seconds ≡ pos n
        → watcher.end_at.microseconds ≤ world.clock w + fuel * (n * 1000000)
        → EndsAt world.clock
            (world.clock w)
            watcher.end_at.microseconds
            (run world watcher (suc fuel) w).0
            (run world watcher (suc fuel) w).1
    unfolding run
    run-EndsAt n fuel w h enough =
        let claimed = (claim_or_resume world watcher w).1 in
        let watched = (watch world watcher (suc fuel) 0 claimed).1 in
        EndsAt-continue
          (λ task. watch world watcher (suc fuel) 0 >>= submit_receipt world watcher task) _ claimed
          (Ends-claim_or_resume.ends w)
          λ body late.
            EndsAt-continue (submit_receipt world watcher body) _ watched
              (watch-EndsAt watcher n fuel 0 claimed h (omega arith))
              λ cycles over.
                EndsAt-earlier (omega arith) (omega arith)
                  ((Ends-submit_receipt body cycles).ends watched)

-- In a world whose clock never goes back and whose sleeps last, with an interval of n seconds, fuel for
-- the cycles that fit before the end date is enough: the run of the watcher comes to an end, and when it
-- returns the API's answer to its receipt, the end date is over.
pub run_comes_to_end :
    {W : Type 0} (world : World W) (watcher : NasWatcher) (n fuel : ℕ) (w : W)
    → IsClocked world
    → watcher.interval_seconds ≡ pos n
    → watcher.end_at.microseconds ≤ world.clock w + fuel * (n * 1000000)
    → ((run world watcher (suc fuel) w).0 ≢ out_of_fuel)
      × ((body : Body)
          → (run world watcher (suc fuel) w).0 ≡ returned body
          → watcher.end_at.microseconds ≤ world.clock (run world watcher (suc fuel) w).1)
run_comes_to_end world watcher n fuel w clocked h enough =
    let ended = run-EndsAt world clocked watcher n fuel w h enough in
    (EndsAt-ne ended, λ body e. EndsAt-passed body ended e)
