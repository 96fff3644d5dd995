-- ===== src/Web/Auth/Rules.antt =====
-- internal/web: what a handler's `if err != nil` steps hand on.
use seatkey.Common.{◌∙◌}
use seatkey.Web.Http.{proceed, checked, server_error, Handler, Response}
use seatkey.World.Rules.{Same}
use seatkey.World.{ok, err, Error, Call, Result, World}

pub checked_rule :
    {A : Type 0} (S : Result A × World → Type 0) (Q : Response × World → Type 0) (m : Call A)
    (next : A → Handler) (w : World)
    → S (m w)
    → ((e : Error) (w' : World) → S (err e, w') → Q (server_error e, w'))
    → ((a : A) (w' : World) → S (ok a, w') → Q (next a w'))
    → Q (checked m next w)
checked_rule {A} S Q m next w s failed done = go (m w) s
  where
    go : (p : Result A × World) → S p → Q (proceed server_error p next)
    go (ok a, w') h = done a w' h
    go (err e, w') h = failed e w' h

pub trans_Same : (w w1 w' : World) → Same w w1 → Same w1 w' → Same w w'
trans_Same w w1 w' (a, b, c) (d, e, f) = (d ∙ a, e ∙ b, f ∙ c)
