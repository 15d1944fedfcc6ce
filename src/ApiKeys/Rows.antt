-- ===== src/ApiKeys/Rows.antt =====
-- Rows by their ids, and what reading a policy of a key comes to.
use orbitjob.Prelude.{
  ◌≡◌, refl, String, Bool, true, false, not, ◌&&◌, List, [], ◌∷◌, Option, some, arith, inl, inr,
  All, Among, any-append, Bool-cases, contains, eq_iff, ◌==◌, Bytes, map, if◌then◌else◌, sym, subst,
}
use orbitjob.Prelude.Result.{Result, ok, err, refuse, >>=-eq-ok}
use orbitjob.Policy.{
  Statement, Document, Request, is_deny, matches, PolicyError, unknown_effect, no_statements,
  no_actions, no_resources,
}
use orbitjob.Policy.Known.{
  check_document, check_shapes, all_parse, is_nil, is_known_effect, resolve_self, resolve_pattern,
}
use orbitjob.Policy.Decision.{statements, granted}
use orbitjob.Policy.Delegation.{known_effects}
use orbitjob.ApiKeys.{
  PolicyRow, Tables, Admin, KeyError, get_policy, reach, wrap, unparsable, visible, find_policy,
  resolved_document, document_of, load_policy,
}
use orbitjob.ApiKeys.Create.{resolve_policies}
use orbitjob.ApiKeys.Effective.{bound_rows}

-- The primary key of the table.
abbrev pub Unique : List PolicyRow → Type 0
Unique [] = Unit
Unique (p ∷ ps) = All (λ q. (q.id == p.id) ≡ false) ps × Unique ps

pub All-Among : {A : Type 0} (P : A → Type 0) (xs : List A) (x : A) → All P xs → Among x xs → P x
All-Among P [] x p i = absurd i
All-Among P (y ∷ ys) x (p, ps) (inl e) = rw e p
All-Among P (y ∷ ys) x (p, ps) (inr i) = All-Among P ys x ps i

find_policy_first :
    (tenant : Bytes) (p : PolicyRow) (ps : List PolicyRow)
    → visible tenant p ≡ true
    → find_policy tenant p.id (p ∷ ps) ≡ some p
unfolding find_policy
find_policy_first tenant p ps v = ground (arith, eq_iff p.id p.id)

pub find_policy-Among :
    (tenant : Bytes) (ps : List PolicyRow) (p : PolicyRow)
    → Unique ps
    → Among p ps
    → visible tenant p ≡ true
    → find_policy tenant p.id ps ≡ some p
unfolding find_policy
find_policy-Among tenant [] p u i v = absurd i
find_policy-Among tenant (q ∷ ps) p (fresh, u) (inl e) v =
    subst (λ (x : PolicyRow). find_policy tenant x.id (q ∷ ps) ≡ some x) (sym e)
      (find_policy_first tenant q ps (rw (← e) v))
find_policy-Among tenant (q ∷ ps) p (fresh, u) (inr i) v =
    let other : (p.id == q.id) ≡ false = All-Among (λ x. (x.id == q.id) ≡ false) ps p fresh i in
    ground (arith, other, eq_iff p.id q.id, eq_iff q.id p.id, find_policy-Among tenant ps p u i v)

pub Among-find_policy :
    (tenant : Bytes) (id : String) (ps : List PolicyRow) (p : PolicyRow)
    → find_policy tenant id ps ≡ some p
    → Among p ps
unfolding find_policy
Among-find_policy tenant id [] p e = absurd (ground (arith, e))
Among-find_policy tenant id (q ∷ ps) p e = elim (Bool-cases (q.id == id && visible tenant q)) [
  | inl y ↦ inl (ground (arith, e, y))
  | inr n ↦ inr (Among-find_policy tenant id ps p (ground (arith, e, n)))
]

pub Among-bound_rows :
    (tenant : Bytes) (ids : List String) (ps : List PolicyRow) (p : PolicyRow)
    → Among p (bound_rows tenant ids ps)
    → Among p ps × (contains ids p.id ≡ true) × (visible tenant p ≡ true)
unfolding bound_rows
Among-bound_rows tenant ids [] p i = absurd i
Among-bound_rows tenant ids (q ∷ ps) p i =
    split (contains ids q.id && visible tenant q) refl i (Among-bound_rows tenant ids ps p)
  where
    split :
        (b : Bool)
        → (contains ids q.id && visible tenant q) ≡ b
        → Among p (if b then q ∷ bound_rows tenant ids ps else bound_rows tenant ids ps)
        → (Among p (bound_rows tenant ids ps)
            → Among p ps × (contains ids p.id ≡ true) × (visible tenant p ≡ true))
        → Among p (q ∷ ps) × (contains ids p.id ≡ true) × (visible tenant p ≡ true)
    split false e i k = let (j, c, v) = k i in (inr j, c, v)
    split true e (inl m) k = (inl m, rw m (ground arith), rw m (ground arith))
    split true e (inr i) k = let (j, c, v) = k i in (inr j, c, v)

-- Effects after the resolution are those before, so that a document that is read has known effects.
known_effects-shapes :
    (sts : List Statement) {u : Unit {0}} → check_shapes sts ≡ ok u → known_effects sts ≡ true
unfolding check_shapes
known_effects-shapes [] h = refl
known_effects-shapes (st ∷ sts) h =
    let (e, known, h) = >>=-eq-ok (refuse (not (is_known_effect st.effect)) unknown_effect) _ h in
    let (e, acts, h) = >>=-eq-ok (refuse (is_nil st.action) no_actions) _ h in
    let (e, has, h) = >>=-eq-ok (refuse (is_nil st.resource) no_resources) _ h in
    let (e, all_ok, h) = >>=-eq-ok (all_parse st.resource) _ h in
    ground (arith, known, known_effects-shapes sts h)

known_effects-map :
    (tenant : Bytes) (sts : List Statement)
    → known_effects sts ≡ true
    → known_effects (
        map
          (λ (st : Statement). record st { resource = map (resolve_pattern tenant) st.resource })
          sts)
      ≡ true
known_effects-map tenant [] h = refl
known_effects-map tenant (st ∷ sts) h = ground (arith, known_effects-map tenant sts)

pub wrap-eq-ok :
    {A : Type 0} (f : PolicyError → KeyError) (m : Result PolicyError A) (x : A)
    → wrap f m ≡ ok x
    → m ≡ ok x
wrap-eq-ok f (ok y) x h = ground (arith, h)
wrap-eq-ok f (err e) x h = absurd (ground arith)

-- A document that passes the checks comes back as it is.
pub check_document_ok :
    (doc d : Document)
    → check_document doc ≡ ok d
    → (doc ≡ d) × (known_effects doc.statement ≡ true)
unfolding check_document
check_document_ok doc d h =
    let (u, filled, h) = >>=-eq-ok (refuse (is_nil doc.statement) no_statements) _ h in
    let (v, shapes, same_doc) = >>=-eq-ok (check_shapes doc.statement) _ h in
    (ground (arith, same_doc), known_effects-shapes doc.statement shapes)

pub known_effects-resolved_document :
    (tenant : Bytes) (p : PolicyRow) (d : Document)
    → resolved_document tenant p ≡ ok d
    → known_effects d.statement ≡ true
unfolding resolved_document resolve_self
known_effects-resolved_document tenant p d h =
    let (doc, read, out) = >>=-eq-ok (wrap (unparsable p.id) (check_document p.document)) _ h in
    let known =
      check_document_ok p.document doc
        (wrap-eq-ok (unparsable p.id) (check_document p.document) doc read) in
    let same_doc : resolve_self doc tenant ≡ d = ground (arith, out) in
    subst (λ (x : Document). known_effects x.statement ≡ true) same_doc
      (known_effects-map tenant doc.statement
        (subst (λ (x : Document). known_effects x.statement ≡ true) known.0 known.1))

module _ (a : Admin) (t : Tables) (tenant : Bytes) where
  -- A policy that is read is the row found, resolved for the tenant.
  pub load_policy-found :
      (id : String) (o : Option PolicyRow) (d : Document)
      → find_policy tenant id t.policies ≡ o
      → load_policy a t tenant id ≡ ok d
      → document_of tenant id o ≡ ok d
  unfolding load_policy
  load_policy-found id o d f h =
      let (u, up, found) = >>=-eq-ok (reach a (get_policy tenant id)) _ h in
      ground (arith, found, f)

  -- What a document among those resolved grants, they grant.
  pub granted-resolve_policies :
      (r : Request) (ids : List String) (docs : List Document) (id : String)
      → resolve_policies a t tenant ids ≡ ok docs
      → contains ids id ≡ true
      → (d : Document) × (load_policy a t tenant id ≡ ok d)
        × (granted d.statement r ≡ true → granted (statements docs) r ≡ true)
  unfolding resolve_policies
  granted-resolve_policies r [] docs id h c = cc
  granted-resolve_policies r (x ∷ ids) docs id h c =
      let (d, first, h) = >>=-eq-ok (load_policy a t tenant x) _ h in
      let (ds, rest, out) = >>=-eq-ok (resolve_policies a t tenant ids) _ h in
      let listed : d ∷ ds ≡ docs = ground (arith, out) in
      let split =
        any-append (λ st. matches st r && not (is_deny st.effect)) d.statement (statements ds) in
      elim (Bool-cases (x == id)) [
        | inl e ↦ (
          d,
          subst (λ y. load_policy a t tenant y ≡ ok d) ((eq_iff x id).0 e) first,
          λ g. rw (← listed) (ground (arith, split, g)),
        )
        | inr e ↦
            let (f, found, k) = granted-resolve_policies r ids ds id rest (ground arith) in
            (f, found, λ g. rw (← listed) (ground (arith, split, k g)))
      ]
