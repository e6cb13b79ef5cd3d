-- ===== src/Persistence/Tokens/Return.antt =====
-- resume_tokens.go: what was issued comes back.
use the_return_of_the_odysse.Base.{
  ◌≡◌, refl, ap, sym, subst, ◌∙◌, List, [], ◌∷◌, inl, inr, Bool, true, false, Option, none, some,
  arith, Bool-cases, Option-cases,
}
use the_return_of_the_odysse.Base.Results.{Result, ok, err}
use the_return_of_the_odysse.Persistence.Tokens.Single.{
  Call, issues, consumes, revokes, lapses, NoIssue, NoIssue-split, step, run, issue_route-IsLess,
  consume-IsLess, revoke-IsLess, consume_route-store,
}
use the_return_of_the_odysse.Persistence.Tokens.{
  Bytes, Error, resume_backend, token_not_found, Backend, Documented, IsLess, ResumeRoute, validate,
  valid_opaque_value, max_resume_token_bytes, max_session_key_bytes, issued, issue, consumed,
  consume, checked_route, issue_route, consume_route,
}

issued-ok : (stored : Option Bool) → issued stored ≡ ok tt → stored ≡ some true
issued-ok none h = cc
issued-ok (some true) h = refl
issued-ok (some false) h = cc

issue-held :
    (b : Backend) (d : Documented b) (token v : Bytes) (s : b.Store)
    → (issue b token v s).0 ≡ ok tt
    → (b.held (b.key token) (issue b token v s).1 ≡ some v)
      × (valid_opaque_value token max_resume_token_bytes ≡ true)
unfolding issue
issue-held b d token v s h = elim (Bool-cases (valid_opaque_value token max_resume_token_bytes)) [
  | inr e ↦ ground arith
  | inl e ↦ elim (Bool-cases (valid_opaque_value v max_session_key_bytes)) [
    | inr f ↦ ground arith
    | inl f ↦
        let stored : (b.set_nx (b.key token) v s).0 ≡ some true =
          issued-ok (b.set_nx (b.key token) v s).0 (ground arith) in
        let held = d.set_nx-true (b.key token) v s stored in ground arith
  ]
]

issue_route-issue :
    (b : Backend) (token : Bytes) (route : ResumeRoute) (s : b.Store)
    → (issue_route b token route s).0 ≡ ok tt
    → (validate route ≡ ok tt) × (issue_route b token route s ≡ issue b token (b.encode route) s)
unfolding issue_route validate
issue_route-issue b token route s h = ground arith

-- Other calls leave what is under the key, or nothing.
IsLess-trans : (x y z : Option Bytes) → IsLess x y → IsLess y z → IsLess x z
IsLess-trans x y z (inl e) (inl f) = inl (f ∙ e)
IsLess-trans x y z (inr e) (inl f) = inr (f ∙ e)
IsLess-trans x y z _ (inr f) = inr f

step-IsLess :
    (b : Backend) (d : Documented b) (k : Bytes) (s : b.Store) (c : Call)
    → NoIssue b k (c ∷ [])
    → IsLess (b.held k s) (b.held k (step b s c).0)
unfolding step
step-IsLess b d k s (issues token route) n = issue_route-IsLess b d k token route s n.0
step-IsLess b d k s (consumes token) n =
    subst (λ x. IsLess (b.held k s) (b.held k x)) (sym (consume_route-store b token s))
      (consume-IsLess b d k token s)
step-IsLess b d k s (revokes token) n = revoke-IsLess b d k token s
step-IsLess b d k s (lapses j) n = d.lapse-less j k s

run-IsLess :
    (b : Backend) (d : Documented b) (k : Bytes) (s : b.Store) (cs : List Call)
    → NoIssue b k cs
    → IsLess (b.held k s) (b.held k (run b s cs).0)
unfolding run
run-IsLess b d k s [] n = inl refl
run-IsLess b d k s (c ∷ cs) n =
    let (here, later) = NoIssue-split b k c cs n in
    IsLess-trans _ _ _ (step-IsLess b d k s c here) (run-IsLess b d k (step b s c).0 cs later)

-- What `ConsumeRoute` gives, by what `GETDEL` answers: the route if there was anything, else a
-- failure that says which.
abbrev pub Returned : Option (Option Bytes) → ResumeRoute → Result Error ResumeRoute → Type 0
Returned none route r = r ≡ err resume_backend
Returned (some none) route r = r ≡ err token_not_found
Returned (some (some v)) route r = r ≡ ok route

some-inj : {A : Type 0} (x y : A) → some x ≡ some y → x ≡ y
some-inj x y h = ground arith

less-same : (v w : Bytes) → IsLess (some v) (some w) → w ≡ v
less-same v w (inl e) = some-inj w v e
less-same v w (inr e) = cc

consume_route-Returned :
    (b : Backend) (d : Documented b) (token v : Bytes) (route : ResumeRoute) (s : b.Store)
    → b.decode v ≡ some route
    → validate route ≡ ok tt
    → valid_opaque_value token max_resume_token_bytes ≡ true
    → IsLess (some v) (b.held (b.key token) s)
    → Returned (b.get_del (b.key token) s).0 route (consume_route b token s).0
unfolding consume_route consume
consume_route-Returned b d token v route s codec valid fits less =
    elim (Option-cases (b.get_del (b.key token) s).0) [
      | inl e ↦ rw (fits, e, Returned, consume_route, consume, consumed) refl
      | inr (none, e) ↦ rw (fits, e, Returned, consume_route, consume, consumed) refl
      | inr (some w, e) ↦
          let held = d.get_del-found (b.key token) w s e in
          let same = less-same v w (subst (IsLess (some v)) held less) in
          let read : b.decode w ≡ some route = ap b.decode same ∙ codec in
          rw (fits, e, Returned, consume_route, consume, consumed, read, checked_route, valid) refl
    ]

-- A route that `IssueRoute` has stored is what `ConsumeRoute` gives for its token whenever `GETDEL`
-- answers with any content, after any calls between them, with their faults and the lapse of keys,
-- that issue nothing for the key again, provided the JSON of the route decodes to it. Otherwise
-- the token is reported as not found if `GETDEL` answered that there was nothing, and a failure of
-- Redis if it did not answer.
pub issue_consume :
    (b : Backend) (d : Documented b) (token : Bytes) (route : ResumeRoute) (s : b.Store)
    (cs : List Call)
    → b.decode (b.encode route) ≡ some route
    → (issue_route b token route s).0 ≡ ok tt
    → NoIssue b (b.key token) cs
    → let s' = (run b (issue_route b token route s).1 cs).0 in
      Returned (b.get_del (b.key token) s').0 route (consume_route b token s').0
issue_consume b d token route s cs codec h n =
    let (valid, plain) = issue_route-issue b token route s h in
    let (held, fits) = issue-held b d token (b.encode route) s (sym (ap (λ x. x.0) plain) ∙ h) in
    let held' : b.held (b.key token) (issue_route b token route s).1 ≡ some (b.encode route) =
      ap (λ x. b.held (b.key token) x.1) plain ∙ held in
    let s' = (run b (issue_route b token route s).1 cs).0 in
    let less = run-IsLess b d (b.key token) (issue_route b token route s).1 cs n in
    consume_route-Returned b d token (b.encode route) route s' codec valid fits
      (subst (λ x. IsLess x (b.held (b.key token) s')) held' less)
