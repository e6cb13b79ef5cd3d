-- ===== src/Application/Deferred/Tests.antt =====
-- deferred_events.go before a connection that takes everything.
use the_return_of_the_odysse.Base.{◌≡◌, refl, Bool, true, List, [], ◌∷◌, ◌++◌}
use the_return_of_the_odysse.Application.Deferred.{
  Frame, Call, sends, releases, new_sink, send, flush, release, step, run,
}
use the_return_of_the_odysse.Application.Deferred.Order.{taken, passed, Inv, run-in_order}

abbrev keep : Frame → List Frame → Bool × List Frame
keep frame got = (true, got ++ frame ∷ [])

abbrev calls : List Call
calls = sends (1 ∷ []) ∷ sends (2 ∷ []) ∷ releases ∷ sends (3 ∷ []) ∷ releases ∷ []

calls_got : (run keep (new_sink []) calls).0.downstream ≡ (1 ∷ []) ∷ (2 ∷ []) ∷ (3 ∷ []) ∷ []
unfolding run step send release flush new_sink
calls_got = refl

run-in_order_example :
    let (last, seen) = run keep (new_sink []) calls in
    (taken seen ≡ passed seen ++ last.pending) × Inv last
run-in_order_example = run-in_order keep [] calls (λ frame d. refl)
