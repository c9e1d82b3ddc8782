-- ===== src/Approval/Service/Gate.antt =====
-- The gate in front of disruptive actions.
use aegis_soc.Common.{
  ℕ, String, ◌≡◌, ◌≢◌, refl, inl, inr, Bool, true, false, some, arith, str_eq_iff, ◌⊎◌, ◌∙◌, ap,
}
use aegis_soc.Common.Dict.{Dict, lookup, insert, lookup-insert}
use aegis_soc.Auth.Web.{Response, body, http_error}
use aegis_soc.Auth.Roles.{TokenPayload, role_satisfies}
use aegis_soc.Approval.Records.{Status, Approval, World}
use aegis_soc.Approval.AuditClient.{AuditSink}
use aegis_soc.Approval.Repository.{decided}
use aegis_soc.Approval.Service.{decide, needs_senior}

-- The only write of the endpoint is a decision that its guards let through.
decide-writes :
    (begins : Bool) (u : TokenPayload) (now : ℕ) (k decision rationale : String) (audit : AuditSink)
    (w : World) (a : Approval)
    → lookup k w.approvals ≡ some a
    → let d = (decide begins (body u) now k decision rationale audit w).1.approvals in
      (d ≡ w.approvals)
      ⊎ ((needs_senior decision a u ≡ false)
          × (a.status ≡ Status.pending)
          × (d ≡ insert a.approval_id (decided now u.username decision rationale a) w.approvals))
unfolding decide
decide-writes begins u now k decision rationale audit w a found = ground (arith, found)

written-row :
    (k : String) (a row b : Approval) (d : Dict Approval)
    → lookup k d ≡ some a
    → lookup k (insert a.approval_id row d) ≡ some b
    → a.status ≢ b.status
    → row ≡ b
written-row k a row b d found after moved = ground (arith, lookup-insert a.approval_id k row d)

gate_open :
    (u : TokenPayload) (now : ℕ) (decision rationale : String) (a : Approval)
    → a.disruptive ≡ true
    → needs_senior decision a u ≡ false
    → (decided now u.username decision rationale a).status ≡ Status.approved
    → (role_satisfies u.role "senior_analyst" ≡ true) × (decision ≡ "approved")
unfolding decided
gate_open u now decision rationale a dis open_ app = ground (arith, str_eq_iff decision "approved")

-- Whatever the endpoint answers, if it has approved a disruptive approval that was there before,
-- then the caller was let in with a role of at least senior_analyst, the approval was pending, and
-- the request said "approved".
pub decide_gate :
    (begins : Bool) (user : Response TokenPayload) (now : ℕ) (k decision rationale : String)
    (audit : AuditSink) (w : World) (a b : Approval)
    → lookup k w.approvals ≡ some a
    → a.disruptive ≡ true
    → a.status ≢ Status.approved
    → lookup k (decide begins user now k decision rationale audit w).1.approvals ≡ some b
    → b.status ≡ Status.approved
    → (u : TokenPayload) × (user ≡ body u)
      × (role_satisfies u.role "senior_analyst" ≡ true)
      × (a.status ≡ Status.pending)
      × (decision ≡ "approved")
unfolding decide
decide_gate begins (http_error s d) now k decision rationale audit w a b found dis was after app =
    absurd (ground arith)
decide_gate begins (body u) now k decision rationale audit w a b found dis was after app =
    elim (decide-writes begins u now k decision rationale audit w a found) [
      | inl kept ↦ absurd (was (ground (arith, kept)))
      | inr (passed, pending, written) ↦
          let row = decided now u.username decision rationale a in
          let same : row ≡ b =
            written-row k a row b w.approvals found (rw written at after) (λ e. was (e ∙ app)) in
          let (role, said) =
            gate_open u now decision rationale a dis passed (ap (λ x. x.status) same ∙ app) in
          (u, refl, role, pending, said)
    ]
