-- ===== src/Web/Admin/Revocation.antt =====
-- internal/web/admin.go: what the dashboard's revocation answers and leaves.
use seatkey.World.Rules.{Same}
use seatkey.Common.Rows.{count_where}
use seatkey.Store.Licenses.Revoke.{revoke_license-Revoked, revoke_rows, Revoked}
use seatkey.Store.Schema.{LicenseRow}
use seatkey.Web.Http.{Request, Response}
use seatkey.Web.Admin.{unless_missing, license_address, handle_license_revoke}
use seatkey.Common.{arith, refl, [], inr, ◌∷◌, inl, ◌⊎◌, List, ◌≡◌, ℕ, String}
use seatkey.World.{err, ok, Result, World}
use seatkey.Store.Licenses.{is_unrevoked, revoke_license}

none_unrevoked :
    (id : String) (now : ℕ) (ls : List LicenseRow)
    → count_where (is_unrevoked id) (revoke_rows id now ls) ≡ 0
none_unrevoked id now [] = refl
none_unrevoked id now (x ∷ ls) = ground (arith, none_unrevoked id now ls)

-- Answered by a redirection to the license's page, no row of the id is left unrevoked; answered
-- otherwise, by a server error, nothing has changed.
abbrev pub RevocationDone : String → World → Response × World → Type 0
RevocationDone id w (answer, w') =
    ((answer ≡ license_address id) × (count_where (is_unrevoked id) w'.db.licenses ≡ 0))
    ⊎ ((answer.status ≡ 500) × Same w w')

-- A revocation that is answered by the redirection to the license's page leaves no row of the id
-- unrevoked, whether there was one or not; any other answer is a server error and changes nothing.
pub handle_license_revoke-RevocationDone :
    (r : Request) (w : World) → RevocationDone (r.path "id") w (handle_license_revoke r w)
unfolding handle_license_revoke
handle_license_revoke-RevocationDone r w =
    go (revoke_license (r.path "id") w) (revoke_license-Revoked (r.path "id") w)
  where
    id : String
    id = r.path "id"

    go :
        (p : Result (Unit {0}) × World)
        → Revoked id w p
        → RevocationDone id w (unless_missing (license_address id) p)
    go (ok u, w') ((now, same), some_row, quiet) =
        inl (refl, rw same (none_unrevoked id now w.db.licenses))
    go (err e, w') (same, inl (missing, none_left)) = rw missing (inl (refl, rw same.0 none_left))
    go (err e, w') (same, inr broken) = rw broken (inr (refl, same))
