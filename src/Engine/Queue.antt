-- ===== src/Engine/Queue.antt =====
-- Sending in a loop puts the messages on the queue in the loop's order.
use finmars_workflow.Common.{◌≡◌, List, [], ◌∷◌, ◌++◌, map, sym, ap, ◌∙◌}
use mathlib.Core.List.{append-nil, append_assoc}
use finmars_workflow.Common.Exec.{ok, modify, for_each}
use finmars_workflow.Models.{Store, Message}
use finmars_workflow.Engine.{send}

pub for_each-send :
    {A : Type 0} (f : A → Message) (xs : List A) (s : Store)
    → for_each (λ x. modify (send (f x))) xs s ≡ (ok tt, record s { outbox = s.outbox ++ map f xs })
for_each-send f [] s = ap (λ o. (ok tt, record s { outbox = o })) (sym (append-nil s.outbox))
for_each-send f (x ∷ xs) s =
    for_each-send f xs (send (f x) s)
    ∙ ap (λ o. (ok tt, record s { outbox = o })) (append_assoc s.outbox (f x ∷ []) (map f xs))
