-- ===== src/Client/Asked.antt =====
-- cmd/democli: the cached token as it is read, and the request of `deactivate`.
use Prim.Native.String
use seatkey.World.{corrupt_base64}
use seatkey.Crypto.Base64.{decode}
use seatkey.License.{Token}
use seatkey.Client.Machine.{
  no_contact, proceed, pure, fail, spend, crypto, malformed, or_fail, failed, Reply, done, posted,
  Outcome, Machine, Sent,
}
use seatkey.Crypto.{Bytes, Envelope}
use seatkey.Client.{
  refusal, must_decode_payload, is_refused, CachedState, cached_token, post_json_ok, Codecs,
}
use seatkey.Client.Rules.{or_fail-IsGiven, KeepsFiles, IsGiven, IsQuiet, bind_rule}
use seatkey.Common.{
  true, Bool, if◌then◌else◌, [], none, ◌∷◌, false, ℕ, Option, some, List, String, ◌≡◌, refl,
}

module _ (c : Codecs) where
  -- The cached token, read without a check of its signature.
  abbrev pub Reads : Envelope → Token → Type 0
  Reads env tok =
      (bytes : Bytes) × (decode env.payload ≡ some bytes)
      × (c.token_json.unmarshal bytes ≡ some tok)

  abbrev pub HasReadToken : Envelope → Machine → Outcome Token × Machine → Type 0
  HasReadToken env m (done tok, m') = Reads env tok × IsQuiet m m'
  HasReadToken env m (failed _, m') = IsQuiet m m'

  pub cached_token-HasReadToken :
      (env : Envelope) (m : Machine) → HasReadToken env m (cached_token c env m)
  unfolding cached_token
  cached_token-HasReadToken env m =
      bind_rule (IsGiven (decode env.payload) m) (HasReadToken env m) (must_decode_payload env)
        (λ bytes. or_fail malformed (c.token_json.unmarshal bytes)) m
        (or_fail-IsGiven (crypto corrupt_base64) (decode env.payload) m) (λ f m1 q. q)
        (λ bytes m1 (d, q). parsed bytes m1 d q (c.token_json.unmarshal bytes) refl)
    where
      parsed :
          (bytes : Bytes) (m1 : Machine)
          → decode env.payload ≡ some bytes
          → IsQuiet m m1
          → (o : Option Token) → c.token_json.unmarshal bytes ≡ o
          → HasReadToken env m (or_fail malformed o m1)
      parsed bytes m1 d q none e = q
      parsed bytes m1 d q (some tok) e = ((bytes, d, e), q)

  -- The request of `deactivate` for a cached state.
  abbrev pub leaving : String → CachedState → Token → Sent
  leaving server st tok =
      posted (String.◌++◌ server "/v1/deactivate")
        (("license_key", tok.license_key) ∷ ("device_id", st.device_id) ∷ [])

  -- The request was made, and was not refused if the command goes on.
  abbrev pub HasAsked : Sent → Machine → Outcome (Unit {0}) × Machine → Type 0
  HasAsked req m (done _, m') =
      (reply : Reply) × (k : ℕ) × (m.around.answer k ≡ some reply)
      × (is_refused reply ≡ false)
      × KeepsFiles m m'
      × (m'.sent ≡ req ∷ m.sent)
  HasAsked req m (failed _, m') = KeepsFiles m m' × (m'.sent ≡ req ∷ m.sent)

  pub post_json_ok-HasAsked :
      (server path : String) (fields : List (String × String)) (m : Machine)
      → HasAsked (posted (String.◌++◌ server path) fields) m (post_json_ok c server path fields m)
  unfolding post_json_ok
  post_json_ok-HasAsked server path fields m = go (m.around.answer m.calls) refl
    where
      req : Sent
      req = posted (String.◌++◌ server path) fields

      next : Machine
      next = record (spend m) { sent = req ∷ m.sent }

      decided :
          (reply : Reply) (b : Bool)
          → m.around.answer m.calls ≡ some reply
          → is_refused reply ≡ b
          → HasAsked req m (
              (if b then fail (refusal reply.status (c.read_message reply.body)) else pure tt) next)
      decided reply true e r = ((refl, refl, refl), refl)
      decided reply false e r = (reply, m.calls, e, r, (refl, refl, refl), refl)

      go :
          (o : Option Reply)
          → m.around.answer m.calls ≡ o
          → HasAsked req m (
              proceed
                (λ reply.
                  if is_refused reply
                  then fail (refusal reply.status (c.read_message reply.body))
                  else pure tt)
                (or_fail no_contact o next))
      go none e = ((refl, refl, refl), refl)
      go (some reply) e = decided reply (is_refused reply) e refl
