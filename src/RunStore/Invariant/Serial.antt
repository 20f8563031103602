-- ===== src/RunStore/Invariant/Serial.antt =====
-- What the invariant gives: one running run to a thread, and one run to a client's request.
use agent_runtime_platform.Base.{
  ℕ, true, false, some, List, ◌≡◌, ◌≢◌, inl, inr, arith, Bool-cases, ◌==◌, ==_iff,
}
use agent_runtime_platform.Models.{RunRecord, is_running}
use agent_runtime_platform.RunStore.{Clock, empty, find_run, clash}
use agent_runtime_platform.RunStore.Step.{Call, run_calls}
use agent_runtime_platform.RunStore.Invariant.Keep.{run_calls-Inv}

clash-running :
    (r s : RunRecord)
    → clash r s ≡ false
    → is_running r.status ≡ true
    → is_running s.status ≡ true
    → r.tenant_id ≡ s.tenant_id
    → r.thread_id ≢ s.thread_id
unfolding clash
clash-running r s h p q t e = ground arith

clash-request :
    (r s : RunRecord) (request : ℕ)
    → clash r s ≡ false
    → r.tenant_id ≡ s.tenant_id
    → r.client_request_id ≡ some request
    → s.client_request_id ≢ some request
unfolding clash
clash-request r s request h t p q = ground arith

-- After any calls of any number of managers and clients, two running runs of one thread of one
-- tenant are the same run.
pub run_calls-one_running :
    (cs : List (Clock × Call)) (i j : ℕ) (r s : RunRecord)
    → find_run i (run_calls empty cs).runs ≡ some r
    → find_run j (run_calls empty cs).runs ≡ some s
    → is_running r.status ≡ true
    → is_running s.status ≡ true
    → r.tenant_id ≡ s.tenant_id
    → r.thread_id ≡ s.thread_id
    → i ≡ j
run_calls-one_running cs i j r s f g p q t e = elim (Bool-cases (i == j)) [
  | inl y ↦ (==_iff i j).0 y
  | inr n ↦ absurd (
      clash-running r s ((run_calls-Inv cs).apart i j r s f g (λ x. cc (n, (==_iff i j).1 x))) p q t
        e)
]

-- After any calls, two runs of one tenant that carry one client request id are the same run.
pub run_calls-one_request :
    (cs : List (Clock × Call)) (i j request : ℕ) (r s : RunRecord)
    → find_run i (run_calls empty cs).runs ≡ some r
    → find_run j (run_calls empty cs).runs ≡ some s
    → r.tenant_id ≡ s.tenant_id
    → r.client_request_id ≡ some request
    → s.client_request_id ≡ some request
    → i ≡ j
run_calls-one_request cs i j request r s f g t p q = elim (Bool-cases (i == j)) [
  | inl y ↦ (==_iff i j).0 y
  | inr n ↦ absurd (
      clash-request r s request
        ((run_calls-Inv cs).apart i j r s f g (λ x. cc (n, (==_iff i j).1 x))) t p q)
]
