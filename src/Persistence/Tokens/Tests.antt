-- ===== src/Persistence/Tokens/Tests.antt =====
-- resume_tokens.go over a backend that keeps its content as a function.
use the_return_of_the_odysse.Base.{
  ◌≡◌, inl, inr, refl, ap₂, sym, Bool, true, false, ◌&&◌, Option, none, some, List, [], ◌∷◌, arith,
  ◌==◌, if◌then◌else◌, Bool-cases,
}
use the_return_of_the_odysse.Base.Results.{ok}
use the_return_of_the_odysse.Persistence.Tokens.{
  Bytes, Backend, Documented, IsLess, ResumeRoute, validate, valid_opaque_value, issue, consume,
  issue_route, consume_route, revoke,
}
use the_return_of_the_odysse.Persistence.Tokens.Single.{
  Call, issues, consumes, revokes, NoIssue, NoEntry, step, run, single_use,
}
use the_return_of_the_odysse.Persistence.Tokens.Return.{Returned, issue_consume}

abbrev same : Bytes → Bytes → Bool
same [] [] = true
same (x ∷ xs) (y ∷ ys) = x == y && same xs ys
same _ _ = false

same-eq : (xs ys : Bytes) → same xs ys ≡ true → xs ≡ ys
same-eq [] [] h = refl
same-eq [] (y ∷ ys) h = cc
same-eq (x ∷ xs) [] h = cc
same-eq (x ∷ xs) (y ∷ ys) h = ap₂ ◌∷◌ (ground arith) (same-eq xs ys (ground arith))

same_refl : (xs : Bytes) → same xs xs ≡ true
same_refl [] = refl
same_refl (x ∷ xs) = ground (arith, same_refl xs)

abbrev put : Bytes → Option Bytes → (Bytes → Option Bytes) → Bytes → Option Bytes
put k v s j = if same k j then v else s j

abbrev numbers : ResumeRoute → Bytes
numbers r = r.version ∷ r.session_id ∷ r.player_id ∷ r.room_id ∷ r.generation ∷ []

abbrev route_of : Bytes → Option ResumeRoute
route_of (a ∷ b ∷ c ∷ d ∷ e ∷ []) =
    some (record { version = a; session_id = b; player_id = c; room_id = d; generation = e })
route_of _ = none

abbrev slots : Backend
slots = record {
  Store = Bytes → Option Bytes;
  set_nx = λ k v s. elim (s k) [ none ↦ (some true, put k (some v) s) | some _ ↦ (some false, s) ];
  get_del = λ k s. (some (s k), put k none s);
  del = λ k s. (true, put k none s);
  lapse = λ k s. put k none s;
  held = λ k s. s k;
  key = λ t. t;
  encode = numbers;
  decode = route_of;
}

put-IsLess : (k j : Bytes) (s : Bytes → Option Bytes) → IsLess (s j) (put k none s j)
put-IsLess k j s = ground arith

slots-Documented : Documented slots
slots-Documented = record {
  set_nx-true = λ k v s h. ground (arith, same_refl k);
  get_del-gone = λ k s found h. ground (arith, same_refl k);
  get_del-found = λ k v s h. ground arith;
  get_del-less = λ k j s. put-IsLess k j s;
  del-true = λ k s h. ground (arith, same_refl k);
  del-less = λ k j s. put-IsLess k j s;
  lapse-less = λ k j s. put-IsLess k j s;
  set_nx-other = λ k j v s. elim (Bool-cases (same k j)) [
    | inl e ↦ inl (sym (same-eq k j e))
    | inr e ↦ inr (ground arith)
  ];
}

abbrev token : Bytes
token = 116 ∷ 49 ∷ []

abbrev route : ResumeRoute
route = record { version = 1; session_id = 5; player_id = 9; room_id = 2; generation = 3 }

abbrev stocked : Bytes → Option Bytes
stocked = put token (some (numbers route)) (λ j. none)

let_in_once : (consume_route slots token stocked).0 ≡ ok route
unfolding consume_route consume validate valid_opaque_value
let_in_once = refl

abbrev rest : List Call
rest = consumes token ∷ issues (116 ∷ 50 ∷ []) route ∷ revokes token ∷ consumes token ∷ []

rest-NoIssue : NoIssue slots token rest
rest-NoIssue = ground arith

single_use_example : NoEntry slots token (run slots (consume_route slots token stocked).1 rest).1
single_use_example =
    single_use slots slots-Documented token route stocked rest let_in_once rest-NoIssue

abbrev bare : Bytes → Option Bytes
bare j = none

issued_well : (issue_route slots token route bare).0 ≡ ok tt
unfolding issue_route issue validate valid_opaque_value
issued_well = refl

abbrev between : List Call
between = issues (116 ∷ 50 ∷ []) route ∷ consumes (116 ∷ 51 ∷ []) ∷ []

between-NoIssue : NoIssue slots token between
between-NoIssue = ground arith

issue_consume_example :
    let s' = (run slots (issue_route slots token route bare).1 between).0 in
    Returned (slots.get_del token s').0 route (consume_route slots token s').0
issue_consume_example =
    issue_consume slots slots-Documented token route bare between refl issued_well between-NoIssue

-- The route comes back after the calls between.
comes_back :
    (consume_route slots token (run slots (issue_route slots token route bare).1 between).0).0
    ≡ ok route
unfolding run step issue_route issue consume_route consume revoke validate valid_opaque_value
comes_back = refl
