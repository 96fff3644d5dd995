-- ===== src/Web/Http.antt =====
-- internal/web: what a handler gives back. A response is its status, its body as the value that is
-- encoded or the page that is rendered, and the headers that the package sets.
use seatkey.Store.Models.{Product, License, Device}
use seatkey.Crypto.{Envelope}
use seatkey.Common.{List, Bool, none, Option, some, String, ℕ}
use seatkey.World.{World, Call, Result, ok, err, Error}

-- `licenseView`: the license, its status and its seats in use. The page writes the two instants as
-- dates, and a missing expiry as never.
pub record LicenseView : Type 0 where
  pub license : License
  pub status_text : String
  pub device_count : ℕ
  pub expires : Option ℕ
  pub created : ℕ

-- What the templates are given. A page's error is absent or a text.
pub data Page : Type 0 where
  setup_page : Option String → Page
  login_page : Option String → Page
  products_page : List Product → Page
  product_page : Product → List LicenseView → Page
  license_page : LicenseView → List Device → (offline_result : Option String) → Page
  settings_page : (webhook_url webhook_secret public_key error : String) → Page

-- The bodies that the API and the dashboard write. A redirection has its target.
pub data Body : Type 0 where
  empty : Body
  text : String → Body
  envelope : Envelope → Body
  api_error : (code message : String) → Body
  flag_ok : Body
  public_key : (key algorithm : String) → Body
  redirect_to : String → Body
  page : Page → Body

-- `Expires`, or `MaxAge: -1`.
pub data Life : Type 0 where
  until : ℕ → Life
  removed : Life

-- The session cookie; its name, path and the other flags are constants.
pub record Cookie : Type 0 where
  pub value : String
  pub secure : Bool
  pub life : Life

pub record Response : Type 0 where
  pub status : ℕ
  pub body : Body
  pub cookie : Option Cookie

-- The methods that the routes and the handlers tell apart.
pub data Method : Type 0 where
  get head post other : Method

-- `r.Method`, the parts of `r.URL.Path` between its slashes, the value of the session cookie,
-- `r.FormValue`, `r.PathValue` and `r.URL.Query().Get`.
pub record Request : Type 0 where
  pub method : Method
  pub segments : List String
  pub session : Option String
  pub form : String → String
  pub path : String → String
  pub query : String → String

-- A handler always answers; what it read and wrote is in the world after.
abbrev pub Handler : Type 0
Handler = World → Response × World

-- A call whose result or error is answered.
abbrev pub answer_result :
    {A : Type 0} → (A → Response) → (Error → Response) → Result A × World → Response × World
answer_result good bad (ok a, w) = (good a, w)
answer_result good bad (err e, w) = (bad e, w)

abbrev pub answer : {A : Type 0} → (A → Response) → (Error → Response) → Call A → Handler
answer good bad m w = answer_result good bad (m w)

-- `writeJSON`.
abbrev pub write_json : ℕ → Body → Response
write_json status body = record { status = status; body = body; cookie = none }

-- `writeAPIError`.
abbrev pub write_api_error : ℕ → String → String → Response
write_api_error status code message = write_json status (api_error code message)

-- `http.Redirect` with `StatusSeeOther`.
abbrev pub redirect : String → Response
redirect target = write_json 303 (redirect_to target)

-- `render`, the templates of the package being well formed.
abbrev pub render : Page → Response
render p = write_json 200 (page p)

-- `serverError`.
abbrev pub server_error : Error → Response
server_error e = write_json 500 (text "internal error")

-- `http.NotFound`.
abbrev pub page_not_found : Response
page_not_found = write_json 404 (text "404 page not found")

abbrev pub reply : Response → Handler
reply r w = (r, w)

abbrev pub with_cookie : Cookie → Response → Response
with_cookie c r = record r { cookie = some c }

-- A call, then the rest of the handler, or the answer to the call's error.
abbrev pub proceed :
    {A : Type 0} → (Error → Response) → Result A × World → (A → Handler) → Response × World
proceed bad (ok a, w) next = next a w
proceed bad (err e, w) next = (bad e, w)

-- The usual `if err != nil { s.serverError(w, err); return }`.
abbrev pub checked : {A : Type 0} → Call A → (A → Handler) → Handler
checked m next w = proceed server_error (m w) next
