-- ===== src/Persistence/Tokens/Single.antt =====
-- resume_tokens.go: a token lets one client back in, once.
use the_return_of_the_odysse.Base.{
  ◌≡◌, ◌≢◌, refl, ap, sym, ◌∙◌, inl, inr, Option, none, some, List, [], ◌∷◌, arith, Bool-cases,
}
use the_return_of_the_odysse.Base.Results.{Result, ok, err}
use the_return_of_the_odysse.Persistence.Tokens.{
  Bytes, Error, Backend, Documented, IsLess, ResumeRoute, validate, valid_opaque_value,
  max_resume_token_bytes, issue, consumed, consume, issue_route, checked_route, consume_route,
  revoke,
}

-- What happens to the store.
pub data Call : Type 0 where
  issues : Bytes → ResumeRoute → Call
  consumes revokes : Bytes → Call
  lapses : Bytes → Call

-- What `ConsumeRoute` and `IssueRoute` were called for, and whether the first gave a route.
pub data Seen : Type 0 where
  tried : Bytes → Seen
  let_in : Bytes → ResumeRoute → Seen
  nothing : Seen

abbrev pub entry : Bytes → Result Error ResumeRoute → Seen
entry token (ok route) = let_in token route
entry token (err e) = nothing

unfoldable pub step : (b : Backend) → b.Store → Call → b.Store × Seen
step b s (issues token route) = ((issue_route b token route s).1, tried token)
step b s (consumes token) = let (result, s') = consume_route b token s in (s', entry token result)
step b s (revokes token) = ((revoke b token s).1, nothing)
step b s (lapses k) = (b.lapse k s, nothing)

unfoldable pub run : (b : Backend) → b.Store → List Call → b.Store × List Seen
unfolding step
run b s [] = (s, [])
run b s (c ∷ cs) =
    let (s', seen) = step b s c in let (last, more) = run b s' cs in (last, seen ∷ more)

-- No attempt to issue a token of this key is among the calls.
abbrev pub NoIssue : Backend → Bytes → List Call → Type 0
NoIssue b k [] = Unit
NoIssue b k (issues token route ∷ cs) = (b.key token ≢ k) × NoIssue b k cs
NoIssue b k (_ ∷ cs) = NoIssue b k cs

-- No client is let in by a token of this key.
abbrev pub NoEntry : Backend → Bytes → List Seen → Type 0
NoEntry b k [] = Unit
NoEntry b k (let_in token route ∷ ss) = (b.key token ≢ k) × NoEntry b k ss
NoEntry b k (_ ∷ ss) = NoEntry b k ss

pub consumed-ok :
    (found : Option (Option Bytes)) (v : Bytes) → consumed found ≡ ok v → found ≡ some (some v)
consumed-ok none v h = cc
consumed-ok (some none) v h = cc
consumed-ok (some (some w)) v h = ground arith

-- A consumption that gave a payload found it, and left nothing.
consume-clears :
    (b : Backend) (d : Documented b) (token v : Bytes) (s : b.Store)
    → (consume b token s).0 ≡ ok v
    → (b.held (b.key token) s ≡ some v) × (b.held (b.key token) (consume b token s).1 ≡ none)
unfolding consume
consume-clears b d token v s h =
    elim (Bool-cases (valid_opaque_value token max_resume_token_bytes)) [
      | inr f ↦ ground arith
      | inl f ↦
          let given : (b.get_del (b.key token) s).0 ≡ some (some v) =
            consumed-ok (b.get_del (b.key token) s).0 v (ground arith) in
          let was = d.get_del-found (b.key token) v s given in
          let gone = d.get_del-gone (b.key token) s (some v) given in ground arith
    ]

-- A successful return of a route needs a payload.
route-payload :
    (b : Backend) (token : Bytes) (route : ResumeRoute) (s : b.Store)
    → (consume_route b token s).0 ≡ ok route
    → (v : Bytes) × ((consume b token s).0 ≡ ok v)
      × (checked_route (b.decode v) ≡ ok route)
      × ((consume_route b token s).1 ≡ (consume b token s).1)
unfolding consume_route
route-payload b token route s h = go (consume b token s).0 refl h
  where
    go :
        (r : Result Error Bytes)
        → (consume b token s).0 ≡ r
        → (elim r [ err e ↦ err e | ok bytes ↦ checked_route (b.decode bytes) ]) ≡ ok route
        → (v : Bytes) × ((consume b token s).0 ≡ ok v)
          × (checked_route (b.decode v) ≡ ok route)
          × ((consume_route b token s).1 ≡ (consume b token s).1)
    go (err e) same h = cc
    go (ok v) same h = (v, same, h, refl)

less-none : (before after : Option Bytes) → IsLess before after → before ≡ none → after ≡ none
less-none before after (inl e) h = e ∙ h
less-none before after (inr e) h = e

pub issue_route-IsLess :
    (b : Backend) (d : Documented b) (k token : Bytes) (route : ResumeRoute) (s : b.Store)
    → b.key token ≢ k
    → IsLess (b.held k s) (b.held k (issue_route b token route s).1)
unfolding issue_route issue validate
issue_route-IsLess b d k token route s apart =
    let other = d.set_nx-other (b.key token) k (b.encode route) s in
    let distinct : k ≢ b.key token = λ e. apart (sym e) in ground arith

pub consume-IsLess :
    (b : Backend) (d : Documented b) (k token : Bytes) (s : b.Store)
    → IsLess (b.held k s) (b.held k (consume b token s).1)
unfolding consume
consume-IsLess b d k token s = let less = d.get_del-less (b.key token) k s in ground arith

pub revoke-IsLess :
    (b : Backend) (d : Documented b) (k token : Bytes) (s : b.Store)
    → IsLess (b.held k s) (b.held k (revoke b token s).1)
unfolding revoke
revoke-IsLess b d k token s = let less = d.del-less (b.key token) k s in ground arith

some-none : {A : Type 0} (a : A) → some a ≢ none
some-none a = λ e. cc

-- A key with nothing under it lets nobody in.
entry-NoEntry :
    (b : Backend) (d : Documented b) (k token : Bytes) (s : b.Store) (r : Result Error ResumeRoute)
    → b.held k s ≡ none
    → (consume_route b token s).0 ≡ r
    → NoEntry b k (entry token r ∷ [])
entry-NoEntry b d k token s (err e) h same = tt
entry-NoEntry b d k token s (ok route) h same =
    let (v, given, good, after) = route-payload b token route s same in
    let (found, gone) = consume-clears b d token v s given in
    ((λ e. some-none v (sym found ∙ ap (λ j. b.held j s) e ∙ h)), tt)

pub consume_route-store :
    (b : Backend) (token : Bytes) (s : b.Store)
    → (consume_route b token s).1 ≡ (consume b token s).1
unfolding consume_route
consume_route-store b token s = refl

-- Nothing under the key stays nothing, and lets nobody in.
step-none :
    (b : Backend) (d : Documented b) (k : Bytes) (s : b.Store) (c : Call)
    → NoIssue b k (c ∷ [])
    → b.held k s ≡ none
    → (b.held k (step b s c).0 ≡ none) × NoEntry b k ((step b s c).1 ∷ [])
unfolding step
step-none b d k s (issues token route) n h =
    (less-none _ _ (issue_route-IsLess b d k token route s n.0) h, tt)
step-none b d k s (consumes token) n h = (
  ap (b.held k) (consume_route-store b token s) ∙ less-none _ _ (consume-IsLess b d k token s) h,
  entry-NoEntry b d k token s (consume_route b token s).0 h refl,
)
step-none b d k s (revokes token) n h = (less-none _ _ (revoke-IsLess b d k token s) h, tt)
step-none b d k s (lapses j) n h = (less-none _ _ (d.lapse-less j k s) h, tt)

pub NoIssue-split :
    (b : Backend) (k : Bytes) (c : Call) (cs : List Call)
    → NoIssue b k (c ∷ cs)
    → NoIssue b k (c ∷ []) × NoIssue b k cs
NoIssue-split b k (issues token route) cs n = ((n.0, tt), n.1)
NoIssue-split b k (consumes token) cs n = (tt, n)
NoIssue-split b k (revokes token) cs n = (tt, n)
NoIssue-split b k (lapses j) cs n = (tt, n)

NoEntry-cons :
    (b : Backend) (k : Bytes) (x : Seen) (xs : List Seen)
    → NoEntry b k (x ∷ [])
    → NoEntry b k xs
    → NoEntry b k (x ∷ xs)
NoEntry-cons b k (tried token) xs h t = t
NoEntry-cons b k (let_in token route) xs h t = (h.0, t)
NoEntry-cons b k nothing xs h t = t

run-none :
    (b : Backend) (d : Documented b) (k : Bytes) (s : b.Store) (cs : List Call)
    → NoIssue b k cs
    → b.held k s ≡ none
    → NoEntry b k (run b s cs).1
unfolding run
run-none b d k s [] n h = tt
run-none b d k s (c ∷ cs) n h =
    let (here, later) = NoIssue-split b k c cs n in
    let (none_, quiet) = step-none b d k s c here h in
    NoEntry-cons b k _ _ quiet (run-none b d k (step b s c).0 cs later none_)

-- A token that has let a client in lets nobody in again, whatever is consumed, revoked, issued for
-- other keys or expires, and whatever commands fail, until a route is issued for its key once more.
pub single_use :
    (b : Backend) (d : Documented b) (token : Bytes) (route : ResumeRoute) (s : b.Store)
    (cs : List Call)
    → (consume_route b token s).0 ≡ ok route
    → NoIssue b (b.key token) cs
    → NoEntry b (b.key token) (run b (consume_route b token s).1 cs).1
single_use b d token route s cs h n =
    let (v, given, good, after) = route-payload b token route s h in
    let (found, gone) = consume-clears b d token v s given in
    run-none b d (b.key token) _ cs n (ap (b.held (b.key token)) after ∙ gone)
