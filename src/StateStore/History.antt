-- ===== src/StateStore/History.antt =====
-- The audit list as a history: the newest entries first, and never more than the limit.
use ccs2_plus.Prelude.{
  ℕ, ◌+◌, ◌≤◌, ◌≡◌, sym, ◌∙◌, ap, List, [], ◌∷◌, arith, Bool-cases, inl, inr, take-cons, length,
  take, ltb, length-take, take_all, take-take,
}
use ccs2_plus.StateStore.{StateStore, AuditEvent}
use ccs2_plus.StateStore.Audit.{append_audit, push_audit, identified, audit_limit}

push_audit-take :
    (entry : AuditEvent) (audit : List AuditEvent)
    → push_audit entry audit ≡ take audit_limit (entry ∷ audit)
push_audit-take entry audit = elim (Bool-cases (ltb audit_limit (length (entry ∷ audit)))) [
  | inl long ↦ rw long
  | inr short ↦ rw short (sym (take_all audit_limit (entry ∷ audit) (ground arith)))
]

-- The entries as they are stored, the newest first, in front of what was there. An entry with no id
-- takes the next number for one.
abbrev pub history : List AuditEvent → ℕ → List AuditEvent → List AuditEvent
history [] next older = older
history (entry ∷ entries) next older =
    history entries (next + 1) (identified (next + 1) entry ∷ older)

take-history :
    (entries : List AuditEvent) (next n : ℕ) (older : List AuditEvent)
    → take n (history entries next (take n older)) ≡ take n (history entries next older)
take-history [] next n older = take-take n n older (omega arith)
take-history (entry ∷ entries) next n older =
    let x : AuditEvent = identified (next + 1) entry in
    sym (take-history entries (next + 1) n (x ∷ take n older))
    ∙ ap (λ (l : List AuditEvent). take n (history entries (next + 1) l)) (take-cons n x older)
    ∙ take-history entries (next + 1) n (x ∷ older)

module _ {A : Type 0} where
  -- The state after a list of entries, each appended in its turn.
  unfoldable pub append_all : List AuditEvent → StateStore A → StateStore A
  append_all [] s = s
  append_all (entry ∷ entries) s = append_all entries (append_audit entry s).1

  -- From a list of at most 200, after any number of entries the audit list is the cut of their whole history at 200: the newest
  -- entries, the newest first, with the numbers of those that had no id; nothing else is lost.
  pub append_all-history :
      (entries : List AuditEvent) (s : StateStore A)
      → length s.audit ≤ audit_limit
      → (append_all entries s).audit ≡ take audit_limit (history entries s.next_audit s.audit)
  unfolding append_all append_audit
  append_all-history [] s h = sym (take_all audit_limit s.audit h)
  append_all-history (entry ∷ entries) s h =
      let x : AuditEvent = identified (s.next_audit + 1) entry in
      append_all-history entries (append_audit entry s).1
        (rw (push_audit-take x s.audit) (omega (arith, length-take audit_limit (x ∷ s.audit))))
      ∙ ap (λ (l : List AuditEvent). take audit_limit (history entries (s.next_audit + 1) l))
          (push_audit-take x s.audit)
      ∙ take-history entries (s.next_audit + 1) audit_limit (x ∷ s.audit)
