-- ===== src/Policy/Decision.antt =====
-- The decision of Evaluate (internal/core/domain/policy/evaluate.go), order-free.
use orbitjob.Prelude.{
  ◌≡◌, Bool, true, false, not, ◌&&◌, ◌||◌, List, [], ◌∷◌, ◌++◌, none, some, arith, any, any-append,
  if◌then◌else◌,
}
use orbitjob.Policy.{
  Statement, Document, Request, is_deny, matches, scan_statements, scan_documents, evaluate,
}

abbrev pub statements : List Document → List Statement
statements [] = []
statements (d ∷ ds) = d.statement ++ statements ds

-- Some statement that matches denies, or some statement that matches does not.
abbrev pub denied : List Statement → Request → Bool
denied sts req = any (λ st. matches st req && is_deny st.effect) sts

abbrev pub granted : List Statement → Request → Bool
granted sts req = any (λ st. matches st req && not (is_deny st.effect)) sts

scan_statements_lem :
    (sts : List Statement) (req : Request) (allowed : Bool)
    → scan_statements sts req allowed
      ≡ (if denied sts req then none else some (allowed || granted sts req))
unfolding scan_statements
scan_statements_lem [] req allowed = ground arith
scan_statements_lem (st ∷ sts) req allowed =
    ground (arith, scan_statements_lem sts req allowed, scan_statements_lem sts req true)

scan_documents_lem :
    (ds : List Document) (req : Request) (allowed : Bool)
    → scan_documents ds req allowed
      ≡ (if denied (statements ds) req then none else some (allowed || granted (statements ds) req))
unfolding scan_documents
scan_documents_lem [] req allowed = ground arith
scan_documents_lem (d ∷ ds) req allowed = ground (
  arith,
  scan_statements_lem d.statement req allowed,
  scan_documents_lem ds req allowed,
  scan_documents_lem ds req true,
  any-append (λ st. matches st req && is_deny st.effect) d.statement (statements ds),
  any-append (λ st. matches st req && not (is_deny st.effect)) d.statement (statements ds),
)

-- A request is allowed exactly when, over the statements of all documents, none that matches it
-- denies and one that matches it does not deny; a denial in one document overrides every other, and
-- a request that nothing matches is denied.
pub evaluate_lem :
    (ds : List Document) (req : Request)
    → evaluate ds req ≡ (not (denied (statements ds) req) && granted (statements ds) req)
unfolding evaluate
evaluate_lem ds req = ground (arith, scan_documents_lem ds req false)
